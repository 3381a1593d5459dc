-- ===== src/Vp8/RoundTrip.antt =====
-- src/packetizer_vp8.cpp and src/depacketizer_vp8.cpp on one frame.
use srtc.Common.{
  ℕ, ◌+◌, ◌*◌, ◌/◌, ◌%◌, ◌^◌, ◌≤◌, ◌<◌, ◌≡◌, refl, List, [], ◌∷◌, map, length, some, arith, Bool,
  true, ltb, ◌==◌, ◌||◌, ==_false, if-elim, if◌then◌else◌,
}
use srtc.Bytes.Writer.{write, write_u8}
use srtc.Rtp.{RtpPacket}
use srtc.H264.Fragments.{item_of}
use srtc.H264.Packetizer.{ExtensionSources, get_basic_packet_size}
use srtc.Video.{PacketizerVideo}
use srtc.Video.Fragments.{extract-packet_loop}
use srtc.Vp8.{descriptor, tag_frame_type, is_key_frame, generate, extract_payload, extract_frame}

tag_frame_type-lt : (frame : List ℕ) → tag_frame_type frame < 2
unfolding tag_frame_type
tag_frame_type-lt [] = omega arith
tag_frame_type-lt (a ∷ []) = omega arith
tag_frame_type-lt (a ∷ b ∷ []) = omega arith
tag_frame_type-lt (a ∷ b ∷ c ∷ rest) = omega arith

-- The bits of a descriptor, none of them the one for extensions.
flags-lt :
    (frame_type n : ℕ) → frame_type < 2 → frame_type * 2 ^ 5 + (if n == 0 then 2 ^ 4 else 0) < 64
flags-lt frame_type n h = ground arith

extract_payload-plain :
    (header : ℕ) (bytes : List ℕ)
    → header < 64
    → extract_payload (write (write_u8 [] header) bytes) ≡ some bytes
unfolding extract_payload write write_u8
extract_payload-plain header bytes h =
    rw (==_false (header % 256 / 2 ^ 7 % 2) 1 (λ e. omega arith)) refl

extract_payload-descriptor :
    (frame_type n : ℕ) (bytes : List ℕ)
    → frame_type < 2
    → extract_payload (write (descriptor frame_type n) bytes) ≡ some bytes
unfolding descriptor
extract_payload-descriptor frame_type n bytes h =
    extract_payload-plain _ bytes (flags-lt frame_type n h)

module _ {E : Type 0} (ext : ExtensionSources E) where
  -- A frame of three bytes at least that the packetizer sends comes out of the depacketizer whole, once it or
  -- an earlier one was a key frame; the overhead is 586 bytes at most, and the padding fits a byte.
  pub extract_frame-generate :
      (p : PacketizerVideo E) (overhead timestamp at : ℕ) (seen : Bool) (frame : List ℕ)
      → overhead ≤ 586
      → 3 ≤ length frame
      → ((e : E) (n : ℕ) → (ext.get_padding e n).0 ≤ 255)
      → (seen || is_key_frame frame) ≡ true
      → extract_frame seen (map (item_of at) (generate ext p overhead timestamp frame).0)
        ≡ (frame ∷ [], true)
  unfolding extract_frame generate get_basic_packet_size
  extract_frame-generate p overhead timestamp at seen frame h long pads key =
      let frame_type = tag_frame_type frame in
      if-elim
        (λ (r : List RtpPacket × PacketizerVideo E).
          extract_frame seen (map (item_of at) r.0) ≡ (frame ∷ [], true))
        (ltb (length frame) 3) ([], p) _ (λ short. absurd (ground arith))
        (λ fine.
          extract-packet_loop extract_payload is_key_frame 1 (λ n ends. descriptor frame_type n)
            (λ n ends bytes.
              extract_payload-descriptor frame_type n bytes (tag_frame_type-lt frame))
            ext pads at (get_basic_packet_size overhead) timestamp (frame_type == 0) (omega arith)
            (omega arith) p seen frame (omega arith) key)
