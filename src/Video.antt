-- ===== src/Video.antt =====
-- The loops that src/packetizer_vp8.cpp and src/packetizer_vp9.cpp have in common, and src/depacketizer_vp8.cpp
-- and src/depacketizer_vp9.cpp: the descriptors and the test for a key frame are parameters.
pub mod Fragments
use srtc.Common.{ℕ, zero, suc, ◌+◌, ◌-◌, ◌%◌, ◌^◌, min, List, [], ◌∷◌, ◌++◌, length, take, drop}
use srtc.Common.{Option, none, some, Bool, true, false, leb, ◌||◌, if◌then◌else◌}
use srtc.Bytes.Writer.{write}
use srtc.Rtp.{Track, RtpPacket}
use srtc.Rtp.Source.{RtpPacketSource, get_next_sequence}
use srtc.Jitter.{JitterBufferItem}
use srtc.H264.Packetizer.{ExtensionSources, adjust_packet_size}

-- The packet source and the extension sources of a track.
pub record PacketizerVideo (E : Type 0) : Type 0 where
  pub track : Track
  pub source : RtpPacketSource
  pub extensions : E

-- `descriptor` has the bytes in front of a fragment, `descriptor_size` of them, from the packet's number and
-- whether it is the last.
module _ {E : Type 0} (ext : ExtensionSources E) (descriptor_size : ℕ)
    (descriptor : ℕ → Bool → List ℕ) where
  -- A round takes a byte at least where a packet has room for any.
  unfoldable pub packet_loop :
      ℕ → PacketizerVideo E → ℕ → ℕ → Bool → List ℕ → ℕ → List RtpPacket × PacketizerVideo E
  unfolding get_next_sequence adjust_packet_size write
  packet_loop zero p basic timestamp is_key curr packet_number = ([], p)
  packet_loop (suc fuel) p basic timestamp is_key [] packet_number = ([], p)
  packet_loop (suc fuel) p basic timestamp is_key (b ∷ bs) packet_number =
      let curr = b ∷ bs in
      let ((rollover, sequence), source) = get_next_sequence p.source in
      let (padding, extensions) = ext.get_padding p.extensions (length curr) in
      let (extension, extensions') = ext.build_extension extensions is_key packet_number in
      let size =
        adjust_packet_size ((basic + 2 ^ 64 - descriptor_size) % 2 ^ 64) padding extension in
      let write_now = min (length curr) size in
      let ends = leb (length curr) size in
      let payload = write (descriptor packet_number ends) (take write_now curr) in
      let (rest, p') =
        packet_loop fuel (record p { source = source; extensions = extensions' }) basic timestamp
          is_key (drop write_now curr) (packet_number + 1) in
      (
        record {
          track = p.track;
          ssrc = p.track.ssrc;
          payload_id = p.track.payload_id;
          marker = ends;
          rollover = rollover;
          sequence = sequence;
          timestamp = timestamp;
          padding_size = padding;
          payload = payload;
          extension = extension;
        }
            ∷ rest,
        p',
      )

-- The last of some packets.
unfoldable pub back_of : JitterBufferItem → List JitterBufferItem → JitterBufferItem
back_of packet [] = packet
back_of packet (next ∷ rest) = back_of next rest

-- The payloads, one after the other.
unfoldable pub collect : (List ℕ → Option (List ℕ)) → List JitterBufferItem → Option (List ℕ)
collect extract_payload [] = some []
collect extract_payload (packet ∷ rest) = elim (extract_payload packet.payload) [
  | none ↦ none
  | some bytes ↦ elim (collect extract_payload rest) [
    | none ↦ none
    | some more ↦ some (bytes ++ more)
  ]
]

-- The state is whether a key frame was seen.
unfoldable pub extract_impl : (List ℕ → Bool) → Bool → Bool → List ℕ → List (List ℕ) × Bool
extract_impl is_key_frame seen marker [] = ([], seen)
extract_impl is_key_frame seen marker (b ∷ rest) =
    if seen || is_key_frame (b ∷ rest)
    then (if marker then (b ∷ rest) ∷ [] else [], true)
    else ([], seen)

-- A list without packets, for which `back` is undefined, gives nothing here.
unfoldable pub extract :
    (List ℕ → Option (List ℕ))
    → (List ℕ → Bool)
    → Bool
    → List JitterBufferItem
    → List (List ℕ) × Bool
unfolding collect back_of extract_impl
extract extract_payload is_key_frame seen [] = ([], seen)
extract extract_payload is_key_frame seen (packet ∷ rest) =
    elim (collect extract_payload (packet ∷ rest)) [
      | none ↦ ([], seen)
      | some frame ↦ extract_impl is_key_frame seen (back_of packet rest).marker frame
    ]
