-- ===== src/Rtp/RoundTrip.antt =====
-- `generate` and `fromUdpPacket` of src/rtp_packet.cpp, one after the other.
use srtc.Common.{
  ℕ, zero, suc, ◌+◌, ◌-◌, ◌*◌, ◌/◌, ◌%◌, ◌^◌, ◌<◌, ◌≡◌, refl, ap, ◌∙◌, List, [], ◌∷◌, ◌++◌,
}
use srtc.Common.{some, true, not, arith, ◌==◌, length, drop, replicate}
use srtc.Common.{append_assoc, ltb-false, ==_false, take_all}
use srtc.Bytes.Reader.{>>=-some, ◌>>=◌, reader, read_u16, read_u32, read_bytes}
use srtc.Bytes.Writer.{write, write_u16, write_u32, write_u8, padding}
use srtc.Bytes.RoundTrip.{at}
use srtc.Extension.{RtpExtension, is_empty}
use srtc.Rtp.{
  Track, RtpPacket, bit, header_of, write_padding, generate, read_extension, strip_padding,
  assemble, is_of_track, read_body, read_rest, read_packet, answer, from_udp_packet,
}
use srtc.Rtp.Fields.{Holds, header_of-Holds, strip_padding-write_padding}
use srtc.Rtp.Carried.{Readable, IsCarried, IsCarried-Readable}

write_padding-append :
    (buf payload : List ℕ) (size : ℕ)
    → write_padding (buf ++ payload) size ≡ buf ++ write_padding payload size
unfolding write_padding padding write_u8
write_padding-append buf payload zero = refl
write_padding-append buf payload (suc n) =
    rw (==_false (suc n) 0 (omega arith), append_assoc buf payload (replicate (suc n - 1) 0))
      (append_assoc buf (payload ++ replicate (suc n - 1) 0) (suc n % 256 ∷ []))

-- The twelve bytes in front.
abbrev fixed : ℕ → ℕ → ℕ → ℕ → List ℕ
unfolding write_u16 write_u32
fixed header sequence timestamp ssrc =
    write_u32 (write_u32 (write_u16 (write_u16 [] header) sequence) timestamp) ssrc

u16_bytes : (v : ℕ) → v < 2 ^ 16 → v / 2 ^ 8 % 256 * 2 ^ 8 + v % 256 ≡ v
u16_bytes v h = omega arith

u32_bytes :
    (v : ℕ)
    → v < 2 ^ 32
    → v / 2 ^ 24 % 256 * 2 ^ 24 + v / 2 ^ 16 % 256 * 2 ^ 16 + v / 2 ^ 8 % 256 * 2 ^ 8 + v % 256 ≡ v
u32_bytes v h = omega arith

read_fixed :
    (track : Track) (header sequence timestamp ssrc : ℕ) (rest : List ℕ)
    → header < 2 ^ 16
    → sequence < 2 ^ 16
    → timestamp < 2 ^ 32
    → ssrc < 2 ^ 32
    → is_of_track track ssrc (header % 128) ≡ true
    → from_udp_packet track (fixed header sequence timestamp ssrc ++ rest)
      ≡ answer (
          (read_extension (bit header 12) >>= read_body track header sequence timestamp ssrc)
            (at rest 12))
unfolding from_udp_packet read_packet read_rest read_u16 read_u32 write_u16 write_u32 reader
read_fixed track header sequence timestamp ssrc rest h s t c own =
    rw
      (
        ltb-false (length (fixed header sequence timestamp ssrc ++ rest)) 12 (omega arith),
        u16_bytes header h,
        u16_bytes sequence s,
        u32_bytes timestamp t,
        u32_bytes ssrc c,
        own,
      )
      refl

read_bytes-rest :
    (rest : List ℕ) (pos : ℕ)
    → read_bytes (length rest) (at rest pos)
      ≡ some (rest, at (drop (length rest) rest) (pos + length rest))
unfolding read_bytes
read_bytes-rest rest pos =
    rw
      (
        ltb-false (length rest) (length rest) (omega arith),
        take_all rest (length rest) (omega arith),
      )
      refl

read_body-rest :
    (track : Track) (header sequence timestamp ssrc : ℕ) (ext : RtpExtension) (rest : List ℕ)
    (pos : ℕ)
    → answer (read_body track header sequence timestamp ssrc (some ext) (at rest pos))
      ≡ some
          (assemble track header sequence timestamp ssrc ext (strip_padding (bit header 13) rest))
unfolding read_body
read_body-rest track header sequence timestamp ssrc ext rest pos =
    ap answer (>>=-some (read_bytes (length rest)) _ (at rest pos) (read_bytes-rest rest pos))

-- Reading what was written, when the header word holds the packet's fields.
read_written :
    (p : RtpPacket) (header : ℕ)
    → Holds header (not (p.padding_size == 0)) (not (is_empty p.extension)) p.marker p.payload_id
    → p.sequence < 2 ^ 16
    → p.timestamp < 2 ^ 32
    → p.ssrc < 2 ^ 32
    → p.padding_size < 256
    → is_of_track p.track p.ssrc p.payload_id ≡ true
    → (readable : Readable p.extension)
    → from_udp_packet p.track (
        fixed header p.sequence p.timestamp p.ssrc
        ++ (readable.bytes ++ write_padding p.payload p.padding_size))
      ≡ some (some (record p { padding_size = 0; rollover = 0 }))
unfolding assemble
read_written p header holds s t c small own readable =
    let rest = write_padding p.payload p.padding_size in
    let (pos, read) = readable.read rest 12 in
    read_fixed p.track header p.sequence p.timestamp p.ssrc (readable.bytes ++ rest) holds.word s t
      c (ap (λ (type : ℕ). is_of_track p.track p.ssrc type) holds.type ∙ own)
    ∙ rw holds.has_extension (
        ap answer (
          >>=-some (read_extension (not (is_empty p.extension)))
            (read_body p.track header p.sequence p.timestamp p.ssrc)
            (at (readable.bytes ++ rest) 12) read)
        ∙ read_body-rest p.track header p.sequence p.timestamp p.ssrc p.extension rest pos
        ∙ rw
            (
              holds.has_padding,
              strip_padding-write_padding p.payload p.padding_size small,
              holds.has_marker,
              holds.type,
            )
            refl)

generate-parts :
    (p : RtpPacket) (readable : Readable p.extension)
    → (generate p).0
      ≡ fixed
          (header_of (not (p.padding_size == 0)) (not (is_empty p.extension)) p.marker p.payload_id)
          p.sequence
          p.timestamp
          p.ssrc
        ++ (readable.bytes ++ write_padding p.payload p.padding_size)
unfolding generate write write_u16 write_u32
generate-parts p readable =
    let header =
      header_of (not (p.padding_size == 0)) (not (is_empty p.extension)) p.marker p.payload_id in
    let front = fixed header p.sequence p.timestamp p.ssrc in
    ap (λ (buf : List ℕ). write_padding (buf ++ p.payload) p.padding_size) (readable.written front)
    ∙ ap (λ (buf : List ℕ). write_padding buf p.padding_size)
        (append_assoc front readable.bytes p.payload)
    ∙ write_padding-append front (readable.bytes ++ p.payload) p.padding_size
    ∙ ap (◌++◌ front) (write_padding-append readable.bytes p.payload p.padding_size)

-- A packet of its track or of the retransmissions, whose fields fit their widths, with fewer than 256 bytes
-- of padding, and no extension or one of elements that fit, comes out of `fromUdpPacket` as it went into
-- `generate`: all but the size of the padding and the rollover count, which a packet does not carry.
pub from_udp_packet-generate :
    (p : RtpPacket)
    → p.payload_id < 128
    → p.sequence < 2 ^ 16
    → p.timestamp < 2 ^ 32
    → p.ssrc < 2 ^ 32
    → p.padding_size < 256
    → is_of_track p.track p.ssrc p.payload_id ≡ true
    → IsCarried p.extension
    → from_udp_packet p.track (generate p).0
      ≡ some (some (record p { padding_size = 0; rollover = 0 }))
from_udp_packet-generate p type s t c small own carried =
    let readable = IsCarried-Readable p.extension carried in
    ap (from_udp_packet p.track) (generate-parts p readable)
    ∙ read_written p _ (header_of-Holds _ _ p.marker p.payload_id type) s t c small own readable
