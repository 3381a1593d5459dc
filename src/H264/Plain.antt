-- ===== src/H264/Plain.antt =====
-- `extract` of src/depacketizer_h264.cpp, and the three fields of an item that it reads.
use srtc.Common.{ℕ, zero, suc, ◌≤◌, ◌<◌, ◌+◌, ◌*◌, ◌/◌, ◌%◌, ◌^◌, ◌≡◌, refl, ap, ◌∙◌, List, [], ◌∷◌}
use srtc.Common.{
  map, length, take, drop, Option, none, some, Bool, true, false, ltb, leb, ◌==◌, ◌&&◌,
}
use srtc.Common.{if◌then◌else◌}
use srtc.Jitter.{JitterBufferItem}
use srtc.H264.{packet_stap_a, packet_fu_a}
use srtc.H264.Depacketizer.{
  DepacketizerH264, Extraction, add_nalu, extract_impl, emit, stap_a_loop, fu_start, fu_write,
  fu_end, fu_a, extract_payload, extract_loop, extract,
}
use srtc.H264.Packetizer
use srtc.H264.Packetizer.{ExtensionSources, PacketizerH264}
use srtc.H264.RoundTrip.{extract-add_nalu}
use srtc.H264.Fragments.{stamp, item_of, received}

-- The item with only these three.
abbrev pub plain : JitterBufferItem → JitterBufferItem
plain item = received item.rtp_timestamp_ext item.marker item.payload

module _ (item : JitterBufferItem) where
  add_nalu-plain :
      (x : Extraction) (nalu : List ℕ) → add_nalu x item nalu ≡ add_nalu x (plain item) nalu
  unfolding add_nalu extract_impl emit
  add_nalu-plain x [] = refl
  add_nalu-plain x (b ∷ bs) = refl

  stap_a_loop-plain :
      (fuel : ℕ) (x : Extraction) (bytes : List ℕ)
      → stap_a_loop fuel x item bytes ≡ stap_a_loop fuel x (plain item) bytes
  unfolding stap_a_loop
  stap_a_loop-plain zero x bytes = refl
  stap_a_loop-plain (suc fuel) x [] = refl
  stap_a_loop-plain (suc fuel) x (high ∷ []) = refl
  stap_a_loop-plain (suc fuel) x (high ∷ low ∷ rest) =
      let size = high * 2 ^ 8 + low in
      ap (λ (y : Extraction). if leb size (length rest) && ltb 0 size then y else x)
        (ap (λ (y : Extraction). stap_a_loop fuel y item (drop size rest))
            (add_nalu-plain x (take size rest))
          ∙ stap_a_loop-plain fuel (add_nalu x (plain item) (take size rest)) (drop size rest))

  fu_end-plain :
      (x : Extraction) (fu_header : ℕ) (fu_buf : Option (List ℕ))
      → fu_end x item fu_header fu_buf ≡ fu_end x (plain item) fu_header fu_buf
  unfolding fu_end
  fu_end-plain x fu_header none = refl
  fu_end-plain x fu_header (some buf) =
      ap
        (λ (y : Extraction).
          if fu_header / 2 ^ 6 % 2 == 1 then y else record x { fu_buf = some buf })
        (add_nalu-plain (record x { fu_buf = some buf }) buf)

  fu_a-plain :
      (x : Extraction) (nri fu_header : ℕ) (bytes : List ℕ)
      → fu_a x item nri fu_header bytes ≡ fu_a x (plain item) nri fu_header bytes
  unfolding fu_a
  fu_a-plain x nri fu_header bytes = cases (fu_write (fu_start x.fu_buf nri fu_header) bytes)
    where
      cases :
          (o : Option (Option (List ℕ)))
          → (elim o [ none ↦ none | some buf ↦ some (fu_end x item fu_header buf) ])
            ≡ (elim o [ none ↦ none | some buf ↦ some (fu_end x (plain item) fu_header buf) ])
      cases none = refl
      cases (some buf) = ap {A = Extraction} some (fu_end-plain x fu_header buf)

  extract_payload-plain :
      (x : Extraction) (bytes : List ℕ)
      → extract_payload x item bytes ≡ extract_payload x (plain item) bytes
  unfolding extract_payload
  extract_payload-plain x [] = refl
  extract_payload-plain x (indicator ∷ []) = refl
  extract_payload-plain x (indicator ∷ second ∷ rest) =
      choose (indicator % 32 == packet_stap_a) (indicator % 32 == packet_fu_a)
        (ltb (indicator % 32) 23)
    where
      choose :
          (stap fu single : Bool)
          → (if stap
              then some (stap_a_loop (length rest + 1) x item (second ∷ rest))
              else if fu
              then fu_a x item (indicator / 32 % 4 * 32) second rest
              else if single
              then some (add_nalu x item (indicator ∷ second ∷ rest))
              else some x)
            ≡ (if stap
                then some (stap_a_loop (length rest + 1) x (plain item) (second ∷ rest))
                else if fu
                then fu_a x (plain item) (indicator / 32 % 4 * 32) second rest
                else if single
                then some (add_nalu x (plain item) (indicator ∷ second ∷ rest))
                else some x)
      choose true fu single =
          ap {A = Extraction} some (stap_a_loop-plain (length rest + 1) x (second ∷ rest))
      choose false true single = fu_a-plain x (indicator / 32 % 4 * 32) second rest
      choose false false true =
          ap {A = Extraction} some (add_nalu-plain x (indicator ∷ second ∷ rest))
      choose false false false = refl

extract_loop-plain :
    (x : Extraction) (items : List JitterBufferItem)
    → extract_loop x items ≡ extract_loop x (map plain items)
unfolding extract_loop
extract_loop-plain x [] = refl
extract_loop-plain x (item ∷ rest) =
    ap {A = Option Extraction} {B = Option Extraction}
      (λ (o : Option Extraction). elim o [ none ↦ none | some y ↦ extract_loop y rest ])
      (extract_payload-plain item x item.payload)
    ∙ later (λ y. extract_loop-plain y rest) (extract_payload x (plain item) item.payload)
  where
    later :
        ((y : Extraction) → extract_loop y rest ≡ extract_loop y (map plain rest))
        → (o : Option Extraction)
        → (elim o [ none ↦ none | some y ↦ extract_loop y rest ])
          ≡ (elim o [ none ↦ none | some y ↦ extract_loop y (map plain rest) ])
    later same none = refl
    later same (some y) = same y

extract-plain :
    (d : DepacketizerH264) (items : List JitterBufferItem)
    → extract d items ≡ extract d (map plain items)
unfolding extract
extract-plain d items =
    ap {A = Option Extraction} {B = Option (List (List ℕ) × DepacketizerH264)}
      (λ (o : Option Extraction). elim o [ none ↦ none | some x ↦ some (x.out, x.state) ])
      (extract_loop-plain (record { out = []; fu_buf = none; state = d }) items)

module _ {E : Type 0} (ext : ExtensionSources E) where
  -- The items of a buffer that agree, in timestamp, marker and payload, with the packets that the packetizer
  -- makes of one unit, whole or in fragments, give the depacketizer exactly what the unit itself would. The
  -- unit has a header byte without the forbidden bit, a type below 23 and a body; the overhead is 586 bytes
  -- at most, and the padding fits a byte.
  pub extract-sent :
      (p : PacketizerH264 E) (d : DepacketizerH264) (overhead timestamp at : ℕ) (at_end : Bool)
      (header : ℕ) (body : List ℕ) (items : List JitterBufferItem)
      → overhead ≤ 586
      → header < 128
      → header % 32 < 23
      → 0 < length body
      → ((e : E) (n : ℕ) → (ext.get_padding e n).0 ≤ 255)
      → map plain items
        ≡ map
            (item_of at)
            (Packetizer.add_nalu ext p overhead timestamp at_end (header % 32) (header ∷ body)).0
      → extract d items ≡ some (extract_impl d (stamp at at_end) (header ∷ body))
  extract-sent p d overhead timestamp at at_end header body items h k l filled pads sent =
      extract-plain d items
      ∙ ap (extract d) sent
      ∙ extract-add_nalu ext p d overhead timestamp at at_end header body h k l filled pads
