-- ===== src/H264/RoundTrip.antt =====
-- src/packetizer_h264.cpp and src/depacketizer_h264.cpp on one unit, whole or in fragments.
use srtc.Common.{
  ℕ, zero, suc, ◌+◌, ◌-◌, ◌%◌, ◌^◌, ◌≤◌, ◌<◌, ◌≡◌, refl, ap, ◌∙◌, List, [], ◌∷◌, ◌++◌, map,
  append_assoc, min, take, drop,
}
use srtc.Common.{
  length, take_all, drop_all, take-append-drop, length-take, length-drop, Option, none, some, arith,
  Bool, true, false, ltb, leb, ◌==◌, leb-false, ==_false, leb→le, if-elim, Bool-cases, inl, inr,
  ◌&&◌,
}
use srtc.Bytes.Writer.{write, write_u8}
use srtc.Extension.{RtpExtension}
use srtc.Rtp.{RtpPacket}
use srtc.Rtp.Source.{get_next_sequence}
use srtc.Jitter.{JitterBufferItem}
use srtc.H264.{packet_fu_a, key_frame}
use srtc.H264.Depacketizer.{
  DepacketizerH264, Extraction, extract_impl, extract_payload, extract_loop, extract,
}
use srtc.H264.Depacketizer
use srtc.H264.Fragments.{
  stamp, received, item_of, nri_of, add_nalu-stamp, extract_payload-fu_a, extract_payload-nalu,
  fu_a-first, fu_a-middle, fu_a-last,
}
use srtc.H264.Packetizer.{
  ExtensionSources, PacketizerH264, get_basic_packet_size, adjust_packet_size, fragment_extras,
  fragment_size, fu_header_of, fu_a_loop, add_nalu,
}
use srtc.H264.Sizes.{fragment_size-IsPart, later_fragment-lt}

-- What one fragment carries.
fragment_payload : (header fu_header : ℕ) (bytes : List ℕ) → List ℕ
unfolding write write_u8
fragment_payload header fu_header bytes =
    write (write_u8 (write_u8 [] (nri_of header + packet_fu_a)) fu_header) bytes

fragment_payload_lem :
    (header nalu_type : ℕ) (is_start is_end : Bool) (bytes : List ℕ)
    → nalu_type < 32
    → fragment_payload header (fu_header_of is_start is_end nalu_type) bytes
      ≡ (nri_of header + packet_fu_a) ∷ fu_header_of is_start is_end nalu_type ∷ bytes
unfolding fragment_payload write write_u8
fragment_payload_lem header nalu_type is_start is_end bytes h =
    let fits : fu_header_of is_start is_end nalu_type % 256
        ≡ fu_header_of is_start is_end nalu_type =
      small is_start is_end in
    let indicator : (nri_of header + 28) % 256 ≡ nri_of header + 28 = omega arith in
    ap (λ (a : ℕ). a ∷ fu_header_of is_start is_end nalu_type % 256 ∷ bytes) indicator
    ∙ ap (λ (b : ℕ). (nri_of header + 28) ∷ b ∷ bytes) fits
  where
    small :
        (is_start is_end : Bool)
        → fu_header_of is_start is_end nalu_type % 256 ≡ fu_header_of is_start is_end nalu_type
    small true true = unfold fu_header_of in omega arith
    small true false = unfold fu_header_of in omega arith
    small false true = unfold fu_header_of in omega arith
    small false false = unfold fu_header_of in omega arith

all_of : (len size : ℕ) → leb len size ≡ true → min len size ≡ len
all_of len size h = let le : len ≤ size = leb→le len size h in omega arith

part_of : (len size : ℕ) → leb len size ≡ false → (min len size ≡ size) × (size < len)
part_of len size h = let gt : size < len = ground arith in (omega arith, gt)

module _ {E : Type 0} (ext : ExtensionSources E) (at : ℕ) where
  -- The packets as the jitter buffer holds them.
  abbrev items : List RtpPacket → List JitterBufferItem
  items = map (item_of at)

  -- The buffer of a unit is handed on when its last fragment is there.
  abbrev finished : Extraction → Bool → List ℕ → Option Extraction
  finished x marker nalu =
      some (Depacketizer.add_nalu (record x { fu_buf = some nalu }) (stamp at marker) nalu)

  module _ (header nalu_type : ℕ) (small : nalu_type < 32) where
    abbrev fragment : Bool → Bool → Bool → List ℕ → JitterBufferItem
    fragment marker is_start is_end bytes =
        received at marker (fragment_payload header (fu_header_of is_start is_end nalu_type) bytes)

    -- The loop takes a fragment for what its two header bytes say.
    told :
        (x : Extraction) (marker is_start is_end : Bool) (bytes : List ℕ)
        → 0 < length bytes
        → extract_payload x
            (fragment marker is_start is_end bytes)
            (fragment marker is_start is_end bytes).payload
          ≡ Depacketizer.fu_a x
              (fragment marker is_start is_end bytes)
              (nri_of header)
              (fu_header_of is_start is_end nalu_type)
              bytes
    told x marker is_start is_end bytes filled =
        ap (extract_payload x (fragment marker is_start is_end bytes))
          (fragment_payload_lem header nalu_type is_start is_end bytes small)
        ∙ extract_payload-fu_a x (fragment marker is_start is_end bytes) header nalu_type bytes
            small filled (fu_header_of is_start is_end nalu_type)

    loop-step :
        (x y : Extraction) (item : JitterBufferItem) (rest : List JitterBufferItem)
        → extract_payload x item item.payload ≡ some y
        → extract_loop x (item ∷ rest) ≡ extract_loop y rest
    unfolding extract_loop
    loop-step x y item rest e =
        ap {A = Option Extraction} {B = Option Extraction}
          (λ (o : Option Extraction). elim o [ none ↦ none | some z ↦ extract_loop z rest ]) e

    last_step :
        (x : Extraction) (acc bytes : List ℕ) (marker : Bool)
        → x.fu_buf ≡ some acc
        → 0 < length bytes
        → extract_loop x (fragment marker false true bytes ∷ []) ≡ finished x marker (acc ++ bytes)
    last_step x acc bytes marker e filled =
        let item = fragment marker false true bytes in
        loop-step x _ item [] (
          told x marker false true bytes filled
          ∙ fu_a-last x item header nalu_type bytes small filled acc e)
        ∙ unfold extract_loop in
          ap {A = Extraction} some (
            add_nalu-stamp (record x { fu_buf = some (acc ++ bytes) }) at marker item.payload
              (acc ++ bytes))

    middle_step :
        (x : Extraction) (acc bytes : List ℕ) (marker : Bool) (rest : List JitterBufferItem)
        → x.fu_buf ≡ some acc
        → 0 < length bytes
        → extract_loop x (fragment marker false false bytes ∷ rest)
          ≡ extract_loop (record x { fu_buf = some (acc ++ bytes) }) rest
    middle_step x acc bytes marker rest e filled =
        let item = fragment marker false false bytes in
        loop-step x _ item rest (
          told x marker false false bytes filled
          ∙ fu_a-middle x item header nalu_type bytes small filled acc e)

    first_step :
        (x : Extraction) (bytes : List ℕ) (marker : Bool) (rest : List JitterBufferItem)
        → 0 < length bytes
        → extract_loop x (fragment marker true false bytes ∷ rest)
          ≡ extract_loop
              (record x { fu_buf = some (((nri_of header + nalu_type) ∷ []) ++ bytes) })
              rest
    first_step x bytes marker rest filled =
        let item = fragment marker true false bytes in
        loop-step x _ item rest (
          told x marker true false bytes filled
          ∙ fu_a-first x item header nalu_type bytes small filled)

    module _ (basic timestamp nalu_size : ℕ) (at_end : Bool) (lo : 602 ≤ basic)
        (hi : basic < 2 ^ 64) (pads : (e : E) (n : ℕ) → (ext.get_padding e n).0 ≤ 255) where
      fragments : ℕ → PacketizerH264 E → List ℕ → ℕ → ℕ → RtpExtension → List JitterBufferItem
      fragments fuel p curr n padding extension =
          items
            (fu_a_loop ext fuel p basic timestamp at_end nalu_size (nri_of header) nalu_type curr n
              padding extension).0

      fragments-empty :
          (fuel : ℕ) (p : PacketizerH264 E) (curr : List ℕ) (n padding : ℕ)
          (extension : RtpExtension)
          → curr ≡ []
          → fragments fuel p curr n padding extension ≡ []
      unfolding fragments fu_a_loop
      fragments-empty zero p curr n padding extension e = refl
      fragments-empty (suc fuel) p curr n padding extension e = rw e refl

      extras_small :
          (p : PacketizerH264 E) (n padding : ℕ) (extension : RtpExtension)
          → padding ≤ 255
          → (fragment_extras ext p nalu_size (nalu_type == key_frame) n padding extension).0.0 ≤ 255
      unfolding fragment_extras
      extras_small p n padding extension h =
          if-elim (λ (r : (ℕ × RtpExtension) × PacketizerH264 E). r.0.0 ≤ 255) (ltb 0 n) _ _
            (λ later. pads p.extensions nalu_size) (λ first. h)

      -- The fragments after the first one complete the unit.
      later_fragments :
          (fuel : ℕ) (p : PacketizerH264 E) (curr : List ℕ) (n padding : ℕ)
          (extension : RtpExtension) (x : Extraction) (acc : List ℕ)
          → length curr ≤ fuel
          → 0 < length curr
          → 0 < n
          → padding ≤ 255
          → x.fu_buf ≡ some acc
          → extract_loop x (fragments fuel p curr n padding extension)
            ≡ finished x at_end (acc ++ curr)
      unfolding fragments fu_a_loop fragment_payload
      later_fragments zero p curr n padding extension x acc enough filled later pad e =
          absurd (omega arith)
      later_fragments (suc fuel) p [] n padding extension x acc enough filled later pad e =
          absurd (omega arith)
      later_fragments (suc fuel) p (b ∷ bs) n padding extension x acc enough filled later pad e =
          let curr = b ∷ bs in
          let p' = record p { source = (get_next_sequence p.source).1 } in
          let extras =
            fragment_extras ext p' nalu_size (nalu_type == key_frame) n padding extension in
          let size = fragment_size basic n extras.0.0 extras.0.1 (length curr) in
          let round : Bool → Bool → ℕ → Option Extraction = λ is_start is_end write_now.
            extract_loop x (
              fragment (is_end && at_end) is_start is_end (take write_now curr)
              ∷ fragments fuel extras.1 (drop write_now curr) (n + 1) extras.0.0 extras.0.1) in
          let pad' = extras_small p' n padding extension pad in
          let takes =
            later_fragment-lt basic n extras.0.0 extras.0.1 (length curr) lo hi pad' later in
          ap (λ (s : Bool). round s (leb (length curr) size) (min (length curr) size))
            (==_false n 0 (λ e. omega arith))
          ∙ (elim (Bool-cases (leb (length curr) size)) [
            | inl ends ↦
                ap (λ (s : Bool). round false s (min (length curr) size)) ends
                ∙ ap (round false true) (all_of (length curr) size ends)
                ∙ ap
                    (λ (r : List JitterBufferItem).
                      extract_loop x (fragment at_end false true (take (length curr) curr) ∷ r))
                    (fragments-empty fuel extras.1 (drop (length curr) curr) (n + 1) extras.0.0
                      extras.0.1 (drop_all curr (length curr) (omega arith)))
                ∙ ap (λ (bytes : List ℕ). extract_loop x (fragment at_end false true bytes ∷ []))
                    (take_all curr (length curr) (omega arith))
                ∙ last_step x acc curr at_end e filled
            | inr goes ↦
                let left = part_of (length curr) size goes in
                ap (λ (s : Bool). round false s (min (length curr) size)) goes
                ∙ ap (round false false) left.0
                ∙ middle_step x acc (take size curr) false
                    (fragments fuel extras.1 (drop size curr) (n + 1) extras.0.0 extras.0.1) e
                    (omega (arith, length-take size curr))
                ∙ later_fragments fuel extras.1 (drop size curr) (n + 1) extras.0.0 extras.0.1
                    (record x { fu_buf = some (acc ++ take size curr) }) (acc ++ take size curr)
                    (omega (arith, length-drop size curr)) (omega (arith, length-drop size curr))
                    (omega arith) pad' refl
                ∙ ap (finished x at_end) (
                    append_assoc acc (take size curr) (drop size curr)
                    ∙ ap (◌++◌ acc) (take-append-drop size curr))
          ])

      -- All fragments of a unit that does not fit into a packet.
      all_fragments :
          (fuel : ℕ) (p : PacketizerH264 E) (body : List ℕ) (padding : ℕ) (extension : RtpExtension)
          (x : Extraction)
          → length body ≤ fuel
          → 0 < length body
          → padding ≤ 255
          → adjust_packet_size basic padding extension ≤ length body
          → extract_loop x (fragments fuel p body 0 padding extension)
            ≡ finished x at_end ((nri_of header + nalu_type) ∷ body)
      unfolding fragments fu_a_loop fragment_payload fragment_extras
      all_fragments zero p body padding extension x enough filled pad over = absurd (omega arith)
      all_fragments (suc fuel) p [] padding extension x enough filled pad over =
          absurd (omega arith)
      all_fragments (suc fuel) p (b ∷ bs) padding extension x enough filled pad over =
          let body = b ∷ bs in
          let p' = record p { source = (get_next_sequence p.source).1 } in
          let size = fragment_size basic 0 padding extension (length body) in
          let (some_room, part) =
            fragment_size-IsPart basic padding extension (length body) lo hi pad over in
          let round : Bool → ℕ → Option Extraction = λ is_end write_now. extract_loop x (
            fragment (is_end && at_end) true is_end (take write_now body)
            ∷ fragments fuel p' (drop write_now body) (0 + 1) padding extension) in
          let acc = ((nri_of header + nalu_type) ∷ []) ++ take size body in
          ap (λ (s : Bool). round s (min (length body) size)) (leb-false (length body) size part)
          ∙ ap (round false) (part_of (length body) size (leb-false (length body) size part)).0
          ∙ first_step x (take size body) false
              (fragments fuel p' (drop size body) (0 + 1) padding extension)
              (omega (arith, length-take size body))
          ∙ later_fragments fuel p' (drop size body) (0 + 1) padding extension
              (record x { fu_buf = some acc }) acc (omega (arith, length-drop size body))
              (omega (arith, length-drop size body)) (omega arith) pad refl
          ∙ ap (λ (bytes : List ℕ). finished x at_end ((nri_of header + nalu_type) ∷ bytes))
              (take-append-drop size body)

-- The outcome of the loop is that of the packets.
extracted :
    (d : DepacketizerH264) (packets : List JitterBufferItem) (item : JitterBufferItem)
    (nalu : List ℕ) (fu : Option (List ℕ))
    → extract_loop (record { out = []; fu_buf = none; state = d }) packets
      ≡ some (Depacketizer.add_nalu (record { out = []; fu_buf = fu; state = d }) item nalu)
    → extract d packets ≡ some (extract_impl d item nalu)
unfolding extract Depacketizer.add_nalu
extracted d packets item nalu fu e =
    ap {A = Option Extraction} {B = Option (List (List ℕ) × DepacketizerH264)}
      (λ (o : Option Extraction). elim o [ none ↦ none | some x ↦ some (x.out, x.state) ]) e

whole_unit :
    (d : DepacketizerH264) (at : ℕ) (marker : Bool) (header b : ℕ) (bs : List ℕ)
    → header % 32 < 23
    → extract d (received at marker (header ∷ b ∷ bs) ∷ [])
      ≡ some (extract_impl d (stamp at marker) (header ∷ b ∷ bs))
whole_unit d at marker header b bs h =
    let item = received at marker (header ∷ b ∷ bs) in
    extracted d (item ∷ []) (stamp at marker) (header ∷ b ∷ bs) none (
      unfold extract_loop in
      ap {A = Option Extraction} {B = Option Extraction}
        (λ (o : Option Extraction). elim o [ none ↦ none | some z ↦ some z ])
        (extract_payload-nalu (record { out = []; fu_buf = none; state = d }) item header b bs h
          ∙ ap {A = Extraction} some (
              add_nalu-stamp (record { out = []; fu_buf = none; state = d }) at marker
                (header ∷ b ∷ bs) (header ∷ b ∷ bs))))

module _ {E : Type 0} (ext : ExtensionSources E) where
  -- Of one unit, the items as `item_of` makes them.
  pub extract-add_nalu :
      (p : PacketizerH264 E) (d : DepacketizerH264) (overhead timestamp at : ℕ) (at_end : Bool)
      (header : ℕ) (body : List ℕ)
      → overhead ≤ 586
      → header < 128
      → header % 32 < 23
      → 0 < length body
      → ((e : E) (n : ℕ) → (ext.get_padding e n).0 ≤ 255)
      → extract d (
          map
            (item_of at)
            (add_nalu ext p overhead timestamp at_end (header % 32) (header ∷ body)).0)
        ≡ some (extract_impl d (stamp at at_end) (header ∷ body))
  unfolding add_nalu fragments
  extract-add_nalu p d overhead timestamp at at_end header [] h k l filled pads =
      absurd (omega arith)
  extract-add_nalu p d overhead timestamp at at_end header (b ∷ bs) h k l filled pads =
      let body = b ∷ bs in
      let size = length (header ∷ body) in
      let padded = ext.get_padding p.extensions size in
      let extended = ext.build_extension padded.1 (header % 32 == key_frame) 0 in
      let p' = record p { extensions = extended.1 } in
      let basic = get_basic_packet_size overhead in
      let enough = basic_bounds overhead h in
      let pad = pads p.extensions size in
      let small : header % 32 < 32 = omega arith in
      let Restored : List RtpPacket × PacketizerH264 E → Type 0 = λ r.
        extract d (map (item_of at) r.0)
        ≡ some (extract_impl d (stamp at at_end) (header ∷ body)) in
      if-elim Restored (leb size (adjust_packet_size basic padded.0 extended.0)) _ _
        (λ fits. whole_unit d at at_end header b bs l)
        (λ over.
          if-elim Restored (ltb 1 size) _ ([], p')
            (λ long.
              extracted d
                (fragments ext at header (header % 32) small basic timestamp size at_end enough.0
                  enough.1 pads (size - 1) p' body 0 padded.0 extended.0)
                (stamp at at_end) (header ∷ body) (some (header ∷ body))
                (all_fragments ext at header (header % 32) small basic timestamp size at_end
                    enough.0 enough.1 pads (size - 1) p' body padded.0 extended.0
                    (record { out = []; fu_buf = none; state = d }) (omega arith) filled pad
                    (not_over _ _ over)
                  ∙ ap
                      (λ (n : ℕ). some (
                        Depacketizer.add_nalu
                          (record { out = []; fu_buf = some (n ∷ body); state = d })
                          (stamp at at_end) (n ∷ body)))
                      (whole_header header k)))
            (λ short. absurd (ground arith)))
    where
      basic_bounds :
          (overhead : ℕ)
          → overhead ≤ 586
          → (602 ≤ get_basic_packet_size overhead) × (get_basic_packet_size overhead < 2 ^ 64)
      basic_bounds overhead h = unfold get_basic_packet_size in (omega arith, omega arith)

      whole_header : (header : ℕ) → header < 128 → nri_of header + header % 32 ≡ header
      whole_header header k = omega arith

      not_over : (size room : ℕ) → leb (suc size) room ≡ false → room ≤ size
      not_over size room h = ground arith
