-- ===== src/Rtp.antt =====
-- src/rtp_packet.cpp and include/srtc/rtp_packet.h: RTP packets, written to bytes and read back.
pub mod Source
pub mod Fields
pub mod Carried
pub mod RoundTrip
mod Tests
use srtc.Common.{
  ℕ, zero, suc, ◌+◌, ◌-◌, ◌*◌, ◌/◌, ◌%◌, ◌^◌, List, [], ◌∷◌, Option, none, some, Bool,
}
use srtc.Common.{true, false, not, ltb, ◌==◌, ◌&&◌, ◌||◌, if◌then◌else◌, length, take, get_or}
use srtc.Bytes.Writer.{write, padding, write_u8, write_u16, write_u32}
use srtc.Bytes.Reader.{Read, ◌>>=◌, pure, reader, remaining, read_u16, read_u32, read_bytes}
use srtc.Extension.{RtpExtension, is_empty, no_extension, is_valid_extension_id, trim_padding}
use srtc.Rtp.Source.{RtpPacketSource, get_next_sequence}

-- The fields of a `Track` that packets use.
pub record Track : Type 0 where
  pub ssrc : ℕ
  pub payload_id : ℕ
  pub rtx_ssrc : ℕ
  pub rtx_payload_id : ℕ
  pub clock_rate : ℕ
  pub has_nack : Bool

pub record RtpPacket : Type 0 where
  pub track : Track
  pub ssrc : ℕ
  pub payload_id : ℕ
  pub marker : Bool
  pub rollover : ℕ
  pub sequence : ℕ
  pub timestamp : ℕ
  pub padding_size : ℕ
  pub payload : List ℕ
  pub extension : RtpExtension

-- A flag at a bit of the header.
abbrev flag : Bool → ℕ → ℕ
flag b bit = if b then 2 ^ bit else 0

-- The loop that fills the last word of an extension with zeros: three rounds at most.
unfoldable pub fill_word : ℕ → List ℕ → ℕ → List ℕ
fill_word zero buf size = buf
fill_word (suc fuel) buf size = elim (size % 4 == 0) [
  | true ↦ buf
  | false ↦ fill_word fuel (write_u8 buf 0) (size + 1)
]

unfoldable pub write_extension : List ℕ → RtpExtension → List ℕ
write_extension buf extension =
    if is_empty extension
    then buf
    else (let size = length extension.bytes in
        let header = write_u16 (write_u16 buf extension.id) ((size + 3) / 4) in
        fill_word 3 (write header extension.bytes) size)

unfoldable pub write_padding : List ℕ → ℕ → List ℕ
write_padding buf size = if size == 0 then buf else write_u8 (padding buf 0 (size - 1)) size

-- V=2, P, X, CC=0, M, PT
unfoldable pub header_of : Bool → Bool → Bool → ℕ → ℕ
header_of pad ext marker payload_id =
    2 * 2 ^ 14 + flag pad 13 + flag ext 12 + flag marker 7 + payload_id % 128

-- `RtpPacket::generate`: the bytes and the rollover count.
unfoldable pub generate : RtpPacket → List ℕ × ℕ
generate p =
    let header =
      header_of (not (p.padding_size == 0)) (not (is_empty p.extension)) p.marker p.payload_id in
    let fixed =
      write_u32 (write_u32 (write_u16 (write_u16 [] header) p.sequence) p.timestamp) p.ssrc in
    let payload = write (write_extension fixed p.extension) p.payload in
    (write_padding payload p.padding_size, p.rollover)

-- `RtpPacket::generateRtx`: the payload follows the original sequence number, and the packet takes
-- the next sequence number of the retransmission source.
unfoldable generate_rtx :
    RtpPacket → RtpExtension → RtpPacketSource → (List ℕ × ℕ) × RtpPacketSource
generate_rtx p extension source =
    let header =
      header_of (not (p.padding_size == 0)) (not (is_empty extension)) p.marker
        p.track.rtx_payload_id in
    let ((rtx_rollover, rtx_sequence), source') = get_next_sequence source in
    let fixed =
      write_u32 (write_u32 (write_u16 (write_u16 [] header) rtx_sequence) p.timestamp)
        p.track.rtx_ssrc in
    let original = write_u16 (write_extension fixed extension) p.sequence in
    ((write_padding (write original p.payload) p.padding_size, rtx_rollover), source')

-- The parser. The outer option of a read is `none` where it aborts; the inner one is the empty
-- pointer that the code returns for a packet that is cut short.
unfoldable pub trimmed : ℕ → List ℕ → Read (Option RtpExtension)
trimmed ext_id bytes r =
    if is_valid_extension_id ext_id
    then elim (trim_padding (record { id = ext_id; bytes = bytes })) [
      | none ↦ none
      | some ext ↦ some (some ext, r)
    ]
    else some (some no_extension, r)

unfoldable pub read_extension_bytes : ℕ → ℕ → Read (Option RtpExtension)
read_extension_bytes ext_id ext_size r =
    if ltb (remaining r) ext_size
    then some (none, r)
    else (do bytes ← read_bytes ext_size; trimmed ext_id bytes) r

unfoldable pub read_extension : Bool → Read (Option RtpExtension)
read_extension ext r =
    if ext
    then (if ltb (remaining r) 4
        then some (none, r)
        else (do
          ext_id ← read_u16
          ext_words ← read_u16
          read_extension_bytes ext_id (ext_words * 4))
            r)
    else some (some no_extension, r)

-- The payload without its padding, whose last byte counts it.
unfoldable pub strip_padding : Bool → List ℕ → Option (List ℕ)
strip_padding pad payload =
    if pad
    then (if length payload == 0
        then none
        else (let count = get_or payload (length payload - 1) 0 in
            if ltb (length payload) count
            then none
            else some (take (length payload - count) payload)))
    else some payload

abbrev bit : ℕ → ℕ → Bool
bit header n = header / 2 ^ n % 2 == 1

unfoldable pub assemble : Track → ℕ → ℕ → ℕ → ℕ → RtpExtension → Option (List ℕ) → Option RtpPacket
assemble track header sequence timestamp ssrc extension none = none
assemble track header sequence timestamp ssrc extension (some payload) = some (record {
  track = track;
  ssrc = ssrc;
  payload_id = header % 128;
  marker = bit header 7;
  rollover = 0;
  sequence = sequence;
  timestamp = timestamp;
  padding_size = 0;
  payload = payload;
  extension = extension;
})

unfoldable pub read_body : Track → ℕ → ℕ → ℕ → ℕ → Option RtpExtension → Read (Option RtpPacket)
read_body track header sequence timestamp ssrc none r = some (none, r)
read_body track header sequence timestamp ssrc (some extension) r =
    (do
      payload ← read_bytes (remaining r)
      pure (
          assemble track header sequence timestamp ssrc extension
            (strip_padding (bit header 13) payload)))
      r

-- The packet is one of the track, or one of its retransmissions.
unfoldable pub is_of_track : Track → ℕ → ℕ → Bool
is_of_track track ssrc payload_id =
    (ssrc == track.ssrc && payload_id == track.payload_id)
    || (ssrc == track.rtx_ssrc && payload_id == track.rtx_payload_id)

-- What comes after the fixed header; `none` also where the assert on the track fails.
unfoldable pub read_rest : Track → ℕ → ℕ → ℕ → ℕ → Read (Option RtpPacket)
read_rest track header sequence timestamp ssrc r =
    if is_of_track track ssrc (header % 128)
    then (do
      extension ← read_extension (bit header 12)
      read_body track header sequence timestamp ssrc extension)
        r
    else none

unfoldable pub read_packet : Track → Read (Option RtpPacket)
read_packet track = do
  header ← read_u16
  sequence ← read_u16
  timestamp ← read_u32
  ssrc ← read_u32
  read_rest track header sequence timestamp ssrc

abbrev answer : Option (Option RtpPacket × srtc.Bytes.Reader.ByteReader) → Option (Option RtpPacket)
answer none = none
answer (some (p, r)) = some p

unfoldable pub from_udp_packet : Track → List ℕ → Option (Option RtpPacket)
from_udp_packet track bytes =
    if ltb (length bytes) 12 then some none else answer (read_packet track (reader bytes))
