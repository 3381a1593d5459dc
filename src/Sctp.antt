-- ===== src/Sctp.antt =====
-- src/sctp: the SCTP association that carries data channels.
pub mod Packet
pub mod Receive
pub mod Acks
