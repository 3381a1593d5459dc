-- ===== src/Vp9/Packets.antt =====
-- src/packetizer_vp9.cpp and src/depacketizer_vp9.cpp: VP9 frames as RTP packets, and back.
use srtc.Common.{
  ℕ, ◌+◌, ◌/◌, ◌%◌, ◌^◌, ◌≤◌, ◌<◌, ◌≡◌, refl, ap, ◌∙◌, List, [], ◌∷◌, map, length, Option, none,
  some, Bool, true, false, not, ◌==◌, ◌||◌, arith,
}
use srtc.Bytes.Writer.{write}
use srtc.Rtp.{RtpPacket}
use srtc.Jitter.{JitterBufferItem}
use srtc.H264.Fragments.{item_of}
use srtc.H264.Packetizer.{ExtensionSources, get_basic_packet_size}
use srtc.Video.{PacketizerVideo, packet_loop, extract}
use srtc.Video.Fragments.{extract-packet_loop}
use srtc.Vp9.{PayloadDescriptor, parse_payload_descriptor, build_payload_descriptor, is_key_frame}
use srtc.Vp9.Descriptor.{parse_payload_descriptor-build_payload_descriptor}

pub record PacketizerVp9 (E : Type 0) : Type 0 where
  pub video : PacketizerVideo E
  pub picture_id : ℕ  -- uint16, of which 15 bits are used

-- The descriptor that the packets of a frame have in front of them.
unfoldable pub frame_descriptor : List ℕ → ℕ → ℕ → Bool → List ℕ
unfolding build_payload_descriptor
frame_descriptor frame picture_id packet_number ends =
    build_payload_descriptor (packet_number == 0) ends (not (is_key_frame frame)) picture_id

-- `timestamp` is what the time source gives for the frame.
unfoldable pub generate :
    {E : Type 0}
    → ExtensionSources E
    → PacketizerVp9 E
    → ℕ
    → ℕ
    → List ℕ
    → List RtpPacket × PacketizerVp9 E
unfolding packet_loop frame_descriptor is_key_frame get_basic_packet_size
generate ext p overhead timestamp frame =
    let (packets, video) =
      packet_loop ext 3 (frame_descriptor frame p.picture_id) (length frame) p.video
        (get_basic_packet_size overhead) timestamp (is_key_frame frame) frame 0 in
    (packets, record { video = video; picture_id = (p.picture_id + 1) % 2 ^ 15 })

unfoldable pub payload_of : Option (PayloadDescriptor × List ℕ) → Option (List ℕ)
payload_of none = none
payload_of (some (descriptor, payload)) = some payload

unfoldable pub extract_payload : List ℕ → Option (List ℕ)
unfolding payload_of parse_payload_descriptor
extract_payload bytes = payload_of (parse_payload_descriptor bytes)

-- The state is whether a key frame was seen.
unfoldable pub extract_frame : Bool → List JitterBufferItem → List (List ℕ) × Bool
unfolding extract extract_payload is_key_frame
extract_frame = extract extract_payload is_key_frame

unfoldable pub is_frame_start : List ℕ → Bool
is_frame_start [] = false
is_frame_start (header ∷ rest) = header / 2 ^ 3 % 2 == 1

extract_payload-frame_descriptor :
    (frame : List ℕ) (id n : ℕ) (ends : Bool) (bytes : List ℕ)
    → id < 2 ^ 15
    → extract_payload (write (frame_descriptor frame id n ends) bytes) ≡ some bytes
unfolding write extract_payload frame_descriptor
extract_payload-frame_descriptor frame id n ends bytes h =
    ap payload_of (
      parse_payload_descriptor-build_payload_descriptor (n == 0) ends (not (is_key_frame frame)) id
        bytes h)
    ∙ unfold payload_of in refl

module _ {E : Type 0} (ext : ExtensionSources E) where
  -- A frame that the packetizer sends comes out of the depacketizer whole, once it or an earlier one was a key
  -- frame; the frame is not empty, the overhead is 584 bytes at most, and the padding fits a byte.
  pub extract_frame-generate_vp9 :
      (p : PacketizerVp9 E) (overhead timestamp at : ℕ) (seen : Bool) (frame : List ℕ)
      → p.picture_id < 2 ^ 15
      → overhead ≤ 584
      → 0 < length frame
      → ((e : E) (n : ℕ) → (ext.get_padding e n).0 ≤ 255)
      → (seen || is_key_frame frame) ≡ true
      → extract_frame seen (map (item_of at) (generate ext p overhead timestamp frame).0)
        ≡ (frame ∷ [], true)
  unfolding extract_frame generate get_basic_packet_size
  extract_frame-generate_vp9 p overhead timestamp at seen frame wf h long pads key =
      extract-packet_loop extract_payload is_key_frame 3 (frame_descriptor frame p.picture_id)
        (λ n ends bytes. extract_payload-frame_descriptor frame p.picture_id n ends bytes wf) ext
        pads at (get_basic_packet_size overhead) timestamp (is_key_frame frame) (omega arith)
        (omega arith) p.video seen frame long key
