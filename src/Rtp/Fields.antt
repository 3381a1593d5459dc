-- ===== src/Rtp/Fields.antt =====
-- The parts of a packet: the fields of the header word, the filled last word of an extension, and the
-- padding at the end.
use srtc.Common.{
  ℕ, zero, suc, ◌+◌, ◌-◌, ◌*◌, ◌/◌, ◌%◌, ◌^◌, ◌≤◌, ◌<◌, ◌≡◌, refl, ap, sym, ◌∙◌, List, [], ◌∷◌,
  ◌++◌,
}
use srtc.Common.{some, true, Bool, not, arith, ◌==◌, length, take, get_or}
use srtc.Common.{replicate, append_assoc, append-nil, length-append, length-replicate}
use srtc.Common.{==_false, ltb-false, take-append}
use native.Mathlib.Decide.{ℕ_discrete}
use srtc.Bytes.Writer.{write_u8, padding}
use srtc.Extension.Elements.{Stops, no_bytes, padding as zeros}
use srtc.Rtp.{bit, header_of, fill_word, write_padding, strip_padding}

-- The header word holds the three flags and the payload id.
pub record Holds (header : ℕ) (pad ext marker : Bool) (payload_id : ℕ) : Type 0 where
  pub word : header < 2 ^ 16
  pub has_padding : bit header 13 ≡ pad
  pub has_extension : bit header 12 ≡ ext
  pub has_marker : bit header 7 ≡ marker
  pub type : header % 128 ≡ payload_id

pub header_of-Holds :
    (pad ext marker : Bool) (payload_id : ℕ)
    → payload_id < 128
    → Holds (header_of pad ext marker payload_id) pad ext marker payload_id
unfolding header_of
header_of-Holds pad ext marker payload_id h = ground arith

-- The last word is filled with zeros, and nothing else.
pub record Filled (fuel : ℕ) (size : ℕ) : Type 0 where
  pub tail : List ℕ
  pub appended : (buf : List ℕ) → fill_word fuel buf size ≡ buf ++ tail
  pub stops : Stops tail
  pub whole : size + length tail ≡ 4 * ((size + 3) / 4)

pub fill_done : (fuel : ℕ) (buf : List ℕ) (size : ℕ) → size % 4 ≡ 0 → fill_word fuel buf size ≡ buf
unfolding fill_word
fill_done zero buf size h = refl
fill_done (suc fuel) buf size h = rw (h, fill_word)

fill_step :
    (fuel : ℕ) (buf : List ℕ) (size : ℕ)
    → ¬ (size % 4 ≡ 0)
    → fill_word (suc fuel) buf size ≡ fill_word fuel (buf ++ (0 ∷ [])) (size + 1)
unfolding fill_word write_u8
fill_step fuel buf size h = rw (==_false (size % 4) 0 h, fill_word)

pub fill_word-Filled : (fuel : ℕ) (size : ℕ) → 4 * ((size + 3) / 4) ≤ size + fuel → Filled fuel size
fill_word-Filled zero size h = record {
  tail = [];
  appended = λ buf. fill_done zero buf size (omega arith) ∙ sym (append-nil buf);
  stops = no_bytes;
  whole = omega arith;
}
fill_word-Filled (suc fuel) size h = elim (ℕ_discrete (size % 4) 0) [
  | yes e ↦ record {
    tail = [];
    appended = λ buf. fill_done (suc fuel) buf size e ∙ sym (append-nil buf);
    stops = no_bytes;
    whole = omega arith;
  }
  | no d ↦
      let rest = fill_word-Filled fuel (size + 1) (omega arith) in
      record {
        tail = 0 ∷ rest.tail;
        appended = λ buf.
            fill_step fuel buf size d
            ∙ rest.appended (buf ++ (0 ∷ []))
            ∙ append_assoc buf (0 ∷ []) rest.tail;
        stops = zeros rest.tail;
        whole = let e = rest.whole in omega arith;
      }
]

-- The padding is stripped again, from a payload of any length.
get_or-last : (xs : List ℕ) (x : ℕ) → get_or (xs ++ (x ∷ [])) (length (xs ++ (x ∷ [])) - 1) 0 ≡ x
get_or-last xs x =
    ap (λ (n : ℕ). get_or (xs ++ (x ∷ [])) n 0) (omega (arith, length-append xs (x ∷ [])))
    ∙ at_end xs
  where
    at_end : (xs : List ℕ) → get_or (xs ++ (x ∷ [])) (length xs) 0 ≡ x
    at_end [] = refl
    at_end (y ∷ ys) = at_end ys

strip_full :
    (xs : List ℕ) (count : ℕ)
    → count ≤ length xs + 1
    → strip_padding true (xs ++ (count ∷ []))
      ≡ some (take (length (xs ++ (count ∷ [])) - count) (xs ++ (count ∷ [])))
unfolding strip_padding
strip_full xs count h =
    let full : length (xs ++ (count ∷ [])) ≡ length xs + 1 =
      length-append xs (count ∷ []) ∙ omega arith in
    rw
      (
        ==_false (length (xs ++ (count ∷ []))) 0 (omega arith),
        get_or-last xs count,
        ltb-false (length (xs ++ (count ∷ []))) count (omega arith),
      )
      refl

pub strip_padding-write_padding :
    (payload : List ℕ) (size : ℕ)
    → size < 256
    → strip_padding (not (size == 0)) (write_padding payload size) ≡ some payload
unfolding write_padding write_u8 padding
strip_padding-write_padding payload zero h = unfold strip_padding in refl
strip_padding-write_padding payload (suc n) h =
    let filled : List ℕ = payload ++ replicate (suc n - 1) 0 in
    let size : length filled ≡ length payload + n = omega (
      arith,
      length-append payload (replicate (suc n - 1) 0),
      length-replicate {A = ℕ} (suc n - 1) 0,
    ) in
    rw (==_false (suc n) 0 (omega arith)) (
      ap (λ (c : ℕ). strip_padding true (filled ++ (c ∷ []))) (omega arith)
      ∙ strip_full filled (suc n) (omega arith)
      ∙ ap (λ (xs : List ℕ). some (take (length (filled ++ (suc n ∷ [])) - suc n) xs))
          (append_assoc payload (replicate (suc n - 1) 0) (suc n ∷ []))
      ∙ ap some (
          take-append payload (replicate (suc n - 1) 0 ++ (suc n ∷ [])) _
            (omega (arith, length-append filled (suc n ∷ [])))))
