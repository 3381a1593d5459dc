-- ===== src/Bytes.antt =====
-- src/byte_buffer.cpp and include/srtc/byte_buffer.h: the growing buffer, and the big-endian writer
-- and reader over its contents.
pub mod Buffer
pub mod Writer
pub mod Reader
pub mod RoundTrip
pub mod Growth
mod Tests
