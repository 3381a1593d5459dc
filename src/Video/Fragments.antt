-- ===== src/Video/Fragments.antt =====
-- Frames in fragments, by the loops that src/packetizer_vp8.cpp and src/packetizer_vp9.cpp share, and by those
-- of src/depacketizer_vp8.cpp and src/depacketizer_vp9.cpp.
use srtc.Common.{
  ℕ, zero, suc, ◌+◌, ◌-◌, ◌%◌, ◌^◌, ◌≤◌, ◌<◌, ◌≡◌, refl, ap, sym, subst, ◌∙◌, List, [], ◌∷◌, ◌++◌,
  map, min, take, drop, length, drop_all, take-append-drop, length-drop,
}
use srtc.Common.{
  Option, none, some, arith, Bool, true, leb, ◌||◌, leb→le, Bool-cases, inl, inr, if◌then◌else◌,
}
use srtc.Bytes.Writer.{write}
use srtc.Extension.{RtpExtension}
use srtc.Rtp.{RtpPacket}
use srtc.Rtp.Source.{get_next_sequence}
use srtc.Jitter.{JitterBufferItem}
use srtc.H264.Fragments.{received, item_of}
use srtc.H264.Packetizer.{ExtensionSources, adjust_packet_size}
use srtc.H264.Sizes.{adjust_packet_size-Within}
use srtc.Video.{PacketizerVideo, packet_loop, collect, back_of, extract_impl, extract}

-- The last packet has the marker.
abbrev BackMarked : List JitterBufferItem → Type 0
BackMarked [] = ⊥
BackMarked (item ∷ rest) = (back_of item rest).marker ≡ true

BackMarked-cons :
    (item : JitterBufferItem) (rest : List JitterBufferItem)
    → BackMarked rest
    → BackMarked (item ∷ rest)
unfolding back_of
BackMarked-cons item [] h = absurd h
BackMarked-cons item (next ∷ rest) h = h

-- `opens` says that the receiver finds a fragment behind each descriptor.
module _ (payload_of : List ℕ → Option (List ℕ)) (is_key_frame : List ℕ → Bool) (size : ℕ)
    (descriptor : ℕ → Bool → List ℕ)
    (opens : (n : ℕ) (ends : Bool) (bytes : List ℕ)
      → payload_of (write (descriptor n ends) bytes) ≡ some bytes)
    {E : Type 0} (ext : ExtensionSources E) (pads : (e : E) (n : ℕ) → (ext.get_padding e n).0 ≤ 255)
    (at basic timestamp : ℕ) (is_key : Bool) (lo : 600 + size ≤ basic) (hi : basic < 2 ^ 64) where
  packets : ℕ → PacketizerVideo E → List ℕ → ℕ → List RtpPacket
  packets fuel p curr n = (packet_loop ext size descriptor fuel p basic timestamp is_key curr n).0

  items : ℕ → PacketizerVideo E → List ℕ → ℕ → List JitterBufferItem
  unfolding packets
  items fuel p curr n = map (item_of at) (packets fuel p curr n)

  -- The list behind a packet.
  collect-cons :
      (item : JitterBufferItem) (rest : List JitterBufferItem) (bytes more : List ℕ)
      → payload_of item.payload ≡ some bytes
      → collect payload_of rest ≡ some more
      → collect payload_of (item ∷ rest) ≡ some (bytes ++ more)
  unfolding collect
  collect-cons item rest bytes more e k =
      ap {A = Option (List ℕ)} {B = Option (List ℕ)}
        (λ (o : Option (List ℕ)). elim o [
          | none ↦ none
          | some front ↦ elim (collect payload_of rest) [
            | none ↦ none
            | some back ↦ some (front ++ back)
          ]
        ])
        e
      ∙ ap {A = Option (List ℕ)} {B = Option (List ℕ)}
          (λ (o : Option (List ℕ)). elim o [ none ↦ none | some back ↦ some (bytes ++ back) ]) k

  takes_some :
      (padding : ℕ) (extension : RtpExtension)
      → padding ≤ 255
      → 0 < adjust_packet_size ((basic + 2 ^ 64 - size) % 2 ^ 64) padding extension
  takes_some padding extension h =
      let less : (basic + 2 ^ 64 - size) % 2 ^ 64 ≡ basic - size = omega arith in
      rw less (
        let within =
          adjust_packet_size-Within (basic - size) padding extension (omega arith) (omega arith)
            h in
        omega arith)

  collect-items :
      (fuel : ℕ) (p : PacketizerVideo E) (curr : List ℕ) (n : ℕ)
      → length curr ≤ fuel
      → collect payload_of (items fuel p curr n) ≡ some curr
  unfolding items packets packet_loop collect
  collect-items zero p [] n h = refl
  collect-items zero p (b ∷ bs) n h = absurd (omega arith)
  collect-items (suc fuel) p [] n h = refl
  collect-items (suc fuel) p (b ∷ bs) n h =
      let curr = b ∷ bs in
      let padded = ext.get_padding p.extensions (length curr) in
      let extended = ext.build_extension padded.1 (is_key) n in
      let room = adjust_packet_size ((basic + 2 ^ 64 - size) % 2 ^ 64) padded.0 extended.0 in
      let some_room = takes_some padded.0 extended.0 (pads p.extensions (length curr)) in
      let write_now = min (length curr) room in
      let p' = record p { source = (get_next_sequence p.source).1; extensions = extended.1 } in
      collect-cons
        (received at (leb (length curr) room)
          (write (descriptor n (leb (length curr) room)) (take write_now curr)))
        (items fuel p' (drop write_now curr) (n + 1)) (take write_now curr) (drop write_now curr)
        (opens n (leb (length curr) room) (take write_now curr))
        (collect-items fuel p' (drop write_now curr) (n + 1)
          (omega (arith, length-drop write_now curr)))
      ∙ ap {A = List ℕ} some (take-append-drop write_now curr)

  items-empty : (fuel : ℕ) (p : PacketizerVideo E) (n : ℕ) → items fuel p [] n ≡ []
  unfolding items packets packet_loop
  items-empty zero p n = refl
  items-empty (suc fuel) p n = refl

  items-BackMarked :
      (fuel : ℕ) (p : PacketizerVideo E) (curr : List ℕ) (n : ℕ)
      → length curr ≤ fuel
      → 0 < length curr
      → BackMarked (items fuel p curr n)
  unfolding items packets packet_loop back_of
  items-BackMarked zero p curr n h filled = absurd (omega arith)
  items-BackMarked (suc fuel) p [] n h filled = absurd (omega arith)
  items-BackMarked (suc fuel) p (b ∷ bs) n h filled =
      let curr = b ∷ bs in
      let padded = ext.get_padding p.extensions (length curr) in
      let extended = ext.build_extension padded.1 (is_key) n in
      let room = adjust_packet_size ((basic + 2 ^ 64 - size) % 2 ^ 64) padded.0 extended.0 in
      let some_room = takes_some padded.0 extended.0 (pads p.extensions (length curr)) in
      let write_now = min (length curr) room in
      let p' = record p { source = (get_next_sequence p.source).1; extensions = extended.1 } in
      let item =
        received at (leb (length curr) room)
          (write (descriptor n (leb (length curr) room)) (take write_now curr)) in
      elim (Bool-cases (leb (length curr) room)) [
        | inl ends ↦
            subst (λ (rest : List JitterBufferItem). BackMarked (item ∷ rest))
              (sym (
                ap (λ (left : List ℕ). items fuel p' left (n + 1))
                  (drop_all curr write_now (let le = leb→le _ _ ends in omega arith))
                ∙ items-empty fuel p' (n + 1)))
              ends
        | inr goes ↦ BackMarked-cons item (items fuel p' (drop write_now curr) (n + 1)) (
            items-BackMarked fuel p' (drop write_now curr) (n + 1)
              (omega (arith, length-drop write_now curr))
              (let left : room < length curr = ground arith in
                omega (arith, length-drop write_now curr)))
      ]

  -- What the depacketizer makes of packets that hold a frame, the last of them with the marker.
  whole_frame :
      (seen : Bool) (packed : List JitterBufferItem) (b : ℕ) (bs : List ℕ)
      → collect payload_of packed ≡ some (b ∷ bs)
      → BackMarked packed
      → (seen || is_key_frame (b ∷ bs)) ≡ true
      → extract payload_of is_key_frame seen packed ≡ ((b ∷ bs) ∷ [], true)
  whole_frame seen [] b bs e marked key = absurd marked
  whole_frame seen (item ∷ rest) b bs e marked key =
      unfold extract in
      (ap {A = Option (List ℕ)} {B = List (List ℕ) × Bool}
          (λ (o : Option (List ℕ)). elim o [
            | none ↦ ([], seen)
            | some frame ↦ extract_impl is_key_frame seen (back_of item rest).marker frame
          ])
          e
        ∙ ap (λ (m : Bool). extract_impl is_key_frame seen m (b ∷ bs)) marked
        ∙ unfold extract_impl in
          ap {A = Bool} {B = List (List ℕ) × Bool}
            (λ (c : Bool). if c then ((b ∷ bs) ∷ [], true) else ([], seen)) key)

  -- A frame whose fragments are received in order comes out whole, once it or an earlier one was a key frame.
  pub extract-packet_loop :
      (p : PacketizerVideo E) (seen : Bool) (frame : List ℕ)
      → 0 < length frame
      → (seen || is_key_frame frame) ≡ true
      → extract payload_of is_key_frame seen (
          map
            (item_of at)
            (packet_loop ext size descriptor (length frame) p basic timestamp is_key frame 0).0)
        ≡ (frame ∷ [], true)
  unfolding items packets
  extract-packet_loop p seen [] filled key = absurd (omega arith)
  extract-packet_loop p seen (b ∷ bs) filled key =
      whole_frame seen (items (length (b ∷ bs)) p (b ∷ bs) 0) b bs
        (collect-items (length (b ∷ bs)) p (b ∷ bs) 0 (omega arith))
        (items-BackMarked (length (b ∷ bs)) p (b ∷ bs) 0 (omega arith) filled) key
