-- ===== src/Vp8.antt =====
-- src/packetizer_vp8.cpp and src/depacketizer_vp8.cpp: VP8 frames as RTP packets, and back.
pub mod RoundTrip
mod Tests
use srtc.Common.{ℕ, ◌+◌, ◌*◌, ◌/◌, ◌%◌, ◌^◌, List, [], ◌∷◌, length}
use srtc.Common.{Option, none, some, Bool, true, false, ltb, leb, ◌==◌, ◌&&◌, ◌||◌, if◌then◌else◌}
use srtc.Bytes.Writer.{write_u8}
use srtc.Rtp.{RtpPacket}
use srtc.Jitter.{JitterBufferItem}
use srtc.H264.Packetizer.{ExtensionSources, get_basic_packet_size}
use srtc.Video.{PacketizerVideo, packet_loop, extract}

-- The lowest bit of the frame tag, zero for a key frame; the code reads it of three bytes at least.
unfoldable pub tag_frame_type : List ℕ → ℕ
tag_frame_type (a ∷ b ∷ c ∷ rest) = a % 2
tag_frame_type frame = 1

unfoldable pub is_key_frame : List ℕ → Bool
unfolding tag_frame_type
is_key_frame frame = leb 3 (length frame) && tag_frame_type frame == 0

-- The payload descriptor.
unfoldable pub descriptor : ℕ → ℕ → List ℕ
unfolding write_u8
descriptor frame_type packet_number =
    write_u8 [] (frame_type * 2 ^ 5 + (if packet_number == 0 then 2 ^ 4 else 0))

-- `timestamp` is what the time source gives for the frame.
unfoldable pub generate :
    {E : Type 0}
    → ExtensionSources E
    → PacketizerVideo E
    → ℕ
    → ℕ
    → List ℕ
    → List RtpPacket × PacketizerVideo E
unfolding packet_loop descriptor tag_frame_type get_basic_packet_size
generate ext p overhead timestamp frame =
    let frame_type = tag_frame_type frame in
    if ltb (length frame) 3
    then ([], p)
    else packet_loop ext 1 (λ n ends. descriptor frame_type n) (length frame) p
        (get_basic_packet_size overhead) timestamp (frame_type == 0) frame 0

-- One byte less, or none where there is none.
unfoldable pub skip_byte : List ℕ → Option (List ℕ)
skip_byte [] = none
skip_byte (b ∷ rest) = some rest

unfoldable pub skip_if : Bool → List ℕ → Option (List ℕ)
unfolding skip_byte
skip_if wanted bytes = if wanted then skip_byte bytes else some bytes

-- The picture id, of one byte or two.
unfoldable pub skip_picture_id : Bool → List ℕ → Option (List ℕ)
unfolding skip_if
skip_picture_id false bytes = some bytes
skip_picture_id true [] = none
skip_picture_id true (b ∷ rest) = skip_if (b / 2 ^ 7 % 2 == 1) rest

abbrev then_skip : (List ℕ → Option (List ℕ)) → Option (List ℕ) → Option (List ℕ)
then_skip step none = none
then_skip step (some bytes) = step bytes

unfoldable pub skip_extensions : ℕ → List ℕ → Option (List ℕ)
unfolding skip_picture_id skip_if
skip_extensions flags bytes =
    then_skip (skip_if (flags / 2 ^ 5 % 2 == 1 || flags / 2 ^ 4 % 2 == 1)) (
      then_skip (skip_if (flags / 2 ^ 6 % 2 == 1)) (skip_picture_id (flags / 2 ^ 7 % 2 == 1) bytes))

-- `none` where the descriptor is cut short.
unfoldable pub extract_payload : List ℕ → Option (List ℕ)
unfolding skip_extensions
extract_payload [] = none
extract_payload (header ∷ rest) =
    if header / 2 ^ 7 % 2 == 1
    then elim rest [ [] ↦ none | flags ∷ bytes ↦ skip_extensions flags bytes ]
    else some rest

-- The state is whether a key frame was seen.
unfoldable pub extract_frame : Bool → List JitterBufferItem → List (List ℕ) × Bool
unfolding extract extract_payload is_key_frame
extract_frame = extract extract_payload is_key_frame

unfoldable pub is_frame_start : List ℕ → Bool
is_frame_start [] = false
is_frame_start (header ∷ rest) = header / 2 ^ 4 % 2 == 1 && header % 8 == 0
