-- ===== src/Lib.antt =====
-- srtc is a WebRTC library in C++: a peer connection publishes and subscribes to media tracks and data
-- channels. This library models the code that packets pass through and proves what makes it correct.
--
-- How the parts fit together. A packet leaves as an RtpPacket or RtcpPacket, is written to bytes,
-- protected by SrtpConnection and sent; a datagram that arrives is unprotected by SrtpConnection, which
-- asks the replay window of the packet's channel before and records the index after, and is then parsed.
-- Sequence numbers and timestamps that roll over are extended to 64 bits before they are compared. The
-- media packets of a track then go through its jitter buffer, which puts them in order, asks for those that
-- are missing and hands the packets of a frame to the depacketizer of the codec. The packets of the other
-- direction come from a packetizer and stay in a history for retransmission. Data channels travel in SCTP
-- packets, under the same peer connection.
--
-- Which file models which part:
--   Bytes      src/byte_buffer.cpp: ByteBuffer as a memory block (Buffer), ByteWriter and ByteReader.
--              Growth relates the block to the list of bytes that the other files compute with.
--   Replay     src/replay_protection.cpp: canProceed (can_proceed), set (set_value), setForward. Spec is
--              the window without a bitmap, Refine and Window relate the two, Runs follows sequences.
--   Extended   src/extended_value.cpp: extend and get, for counters of 16 and 32 bits.
--   Extension  src/rtp_extension.cpp and src/rtp_extension_builder.cpp (Builder).
--   Rtp        src/rtp_packet.cpp: generate, generateRtx, fromUdpPacket; Source has the counters of
--              src/rtp_packet_source.cpp and src/rtcp_packet_source.cpp.
--   Rtcp       src/rtcp_packet.cpp and src/rtcp_packet_multi.cpp.
--   Srtp       src/srtp_connection.cpp: the channels, unprotectReceiveMedia and unprotectReceiveControl.
--              It is the client of Replay, whose theorems its own rest on.
--   Jitter     src/jitter_buffer.cpp: Consume has consume, Deque processDeque, Nack processNack and
--              getTimeoutMillis, Time diff_millis. Window is the array as a window on the sequence
--              numbers, which Store, Keeps, Invariant and Taken follow through consume, Frames, Rounds
--              and Delivery through processDeque, and Requests through processNack.
--   H264       src/codec_h264.cpp: the parser of units. Depacketizer has src/depacketizer_h264.cpp and
--              src/depacketizer_video.cpp, Packetizer src/packetizer_h264.cpp with the sizes of
--              src/packetizer_video.cpp. Depacketizer fills the interface that Jitter takes.
--   Video      the loops of src/packetizer_vp8.cpp and src/packetizer_vp9.cpp, and of their depacketizers,
--              with the sizes of H264. Vp8 has what is VP8's own, Vp9 what is VP9's, src/codec_vp9.cpp.
--   BitReader  src/bit_reader.cpp.
--   Nack       src/util.cpp: compressNackList, with its counterpart in src/peer_candidate.cpp.
--   History    src/send_rtp_history.cpp: save and find; Reports has src/sender_reports_history.cpp.
--   Sctp       src/sctp: Packet has the packets of sctp_packet.cpp and sctp_packet_builder.cpp, Receive
--              the receive buffer of data_channel_receive_buffer.cpp with the fragments that
--              sendMessageNow makes, Acks the acknowledgements that onReceiveSack takes, both of
--              sctp_session.cpp.
--   Common     the names, tests, lists and bit masks that the others share.
--
-- How code is modelled. State is a record that an operation takes and returns. A byte is a number below
-- 256 and a buffer the list of its bytes. Arithmetic of a fixed width is written out with % 2 ^ w.
-- Where the reader aborts the process a read is none; where a parser returns nothing there is a second,
-- inner option. A shift is a division or a product, and an | of disjoint bits is a sum.
--
-- Loops and fuel. A loop that no list drives takes fuel: the replay window moves forward
-- max_distance_forward steps at most; LEB128 of a uint32_t takes five bytes; the last word of an
-- extension or a control packet is filled in three rounds at most; parsers take the length of their
-- input, of which each round uses up a byte at least; the receive buffer is drained of one of 65536
-- entries in each round; processDeque moves its lower limit up in each round, so that it takes as many
-- as there are numbers in the window; the fragments of a unit take a byte each at least; the parser of
-- units moves past a start code in each round. That the fuel is enough is stated for any input of findAny, of
-- the parsers of SCTP packets, of their parameters and of control packets, and of the loops over the units of
-- an aggregation packet, and for any window of processDeque. For the other loops it is part of the theorems,
-- on the inputs that these name. No theorem speaks of the fuel of the parser of units.
--
-- Asserts. An assert that fails is none for the track of a packet that is parsed, the length of a 16-bit
-- value that is replaced and the sizes of a buffer. The other asserts stop nothing here: the code goes on as in
-- a build without them.
--
-- Parameters, each for any function unless a theorem says what it needs: what new memory holds; the
-- SRTP cipher and its authentication, which call OpenSSL; the CRC-32c function; the depacketizer of a jitter
-- buffer; the extension sources of a packetizer. Times are arguments: nanoseconds, in the jitter buffer
-- since the smallest time point, or microseconds.
--
-- Not modelled: sockets, event loops, threads and TLS, which are input and output; the rest of the SCTP
-- session, its handshake and timers; the codecs other than H.264, VP8 and VP9; congestion control; SDP;
-- STUN, which is another project's library in src/stun. Random start values are arguments.
pub mod BitReader
pub mod Bytes
pub mod Common
pub mod Extended
pub mod Extension
pub mod H264
pub mod History
pub mod Jitter
pub mod Nack
pub mod Replay
pub mod Rtcp
pub mod Rtp
pub mod Sctp
pub mod Srtp
pub mod Video
pub mod Vp8
pub mod Vp9
