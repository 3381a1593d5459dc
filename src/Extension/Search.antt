-- ===== src/Extension/Search.antt =====
-- `contains` of src/rtp_extension_builder.cpp, over encoded elements.
use srtc.Common.{ℕ, zero, suc, ◌+◌, ◌≤◌, ◌<◌, ◌≡◌, refl, ap, ◌∙◌, List, [], ◌∷◌, ◌++◌}
use srtc.Common.{some, true, false, Bool, Bool-cases, inl, inr, arith, ◌||◌}
use srtc.Common.{length, All, if◌then◌else◌, ◌==◌, append_assoc, length-append}
use srtc.Common.{ltb, lt→ltb}
use srtc.Bytes.Reader.{reader, read_u8}
use srtc.Bytes.RoundTrip.{at}
use srtc.Extension.{Element, two_byte}
use srtc.Extension.Elements.{skip-append}
use srtc.Extension.Lookup.{encode_all}
use srtc.Extension.Builder.{contains_loop, contains}

abbrev IsFilled : Element → Type 0
IsFilled e = 0 < length e.value

-- Some element has the id.
abbrev pub has_id : List Element → ℕ → Bool
has_id [] id = false
has_id (e ∷ es) id = e.id == id || has_id es id

module _ (fuel id : ℕ) (e : Element) (rest : List ℕ) (pos : ℕ)
    (filled : 0 < length e.value + length rest) where
  long : ltb 2 (suc (suc (length (e.value ++ rest)))) ≡ true
  long = lt→ltb 2 _ (omega (arith, length-append e.value rest))

  contains_step :
      contains_loop (suc fuel) id (at (e.id ∷ length e.value ∷ (e.value ++ rest)) pos) ≡ (
        if e.id == id
        then some true
        else contains_loop fuel id (at rest (pos + 1 + 1 + length e.value)))
  unfolding contains_loop read_u8
  contains_step = elim (Bool-cases (e.id == id)) [
    | inl hit ↦ rw (long, contains_loop, hit) refl
    | inr miss ↦
        rw (long, contains_loop, miss, skip-append e.value rest (length e.value) refl (pos + 1 + 1))
          refl
  ]

contains_loop-encode_all :
    (es : List Element) (fuel id pos : ℕ)
    → length es < fuel
    → All IsFilled es
    → contains_loop fuel id (at (encode_all two_byte es) pos) ≡ some (has_id es id)
contains_loop-encode_all [] zero id pos h filled = absurd (omega arith)
contains_loop-encode_all [] (suc fuel) id pos h filled = unfold contains_loop in refl
contains_loop-encode_all (e ∷ es) zero id pos h filled = absurd (omega arith)
contains_loop-encode_all (e ∷ es) (suc fuel) id pos h filled =
    contains_step fuel id e (encode_all two_byte es) pos (omega arith)
    ∙ elim (Bool-cases (e.id == id)) [
      | inl hit ↦ rw hit refl
      | inr miss ↦ rw miss (
          contains_loop-encode_all es fuel id (pos + 1 + 1 + length e.value) (omega arith) filled.1)
    ]

pub length-encode_all : (es : List Element) → length es ≤ length (encode_all two_byte es)
length-encode_all [] = omega arith
length-encode_all (e ∷ es) =
    omega (arith, length-append e.value (encode_all two_byte es), length-encode_all es)

-- On elements in the two-byte format that all fit it and none of which is empty, `contains` finds
-- exactly the ids of the elements.
pub contains-encode_all :
    (es : List Element) (id : ℕ)
    → All IsFilled es
    → contains (encode_all two_byte es) id ≡ some (has_id es id)
unfolding contains reader
contains-encode_all es id filled =
    contains_loop-encode_all es (length (encode_all two_byte es) + 1) id 0
      (omega (arith, length-encode_all es)) filled

-- An empty value that was added last is not found: the loop stops at two bytes.
contains_loop_misses :
    (es : List Element) (fuel id pos : ℕ)
    → length es < fuel
    → All IsFilled es
    → has_id es id ≡ false
    → contains_loop fuel id (at (encode_all two_byte es ++ (id ∷ 0 ∷ [])) pos) ≡ some false
contains_loop_misses [] zero id pos h filled absent = absurd (omega arith)
contains_loop_misses [] (suc fuel) id pos h filled absent = unfold contains_loop in refl
contains_loop_misses (e ∷ es) zero id pos h filled absent = absurd (omega arith)
contains_loop_misses (e ∷ es) (suc fuel) id pos h filled absent =
    let (other, rest) = or_false (e.id == id) (has_id es id) absent in
    ap (λ (xs : List ℕ). contains_loop (suc fuel) id (at (e.id ∷ length e.value ∷ xs) pos))
      (append_assoc e.value (encode_all two_byte es) (id ∷ 0 ∷ []))
    ∙ contains_step fuel id e (encode_all two_byte es ++ (id ∷ 0 ∷ [])) pos (omega arith)
    ∙ rw other
        (contains_loop_misses es fuel id (pos + 1 + 1 + length e.value) (omega arith) filled.1 rest)
  where
    or_false : (a b : Bool) → (a || b) ≡ false → (a ≡ false) × (b ≡ false)
    or_false a b h = ground arith

-- `contains` does not find an element with no value that was added last, if the elements before it fit,
-- are not empty and have other ids.
pub contains_misses_empty :
    (es : List Element) (id : ℕ)
    → All IsFilled es
    → has_id es id ≡ false
    → contains (encode_all two_byte es ++ (id ∷ 0 ∷ [])) id ≡ some false
unfolding contains reader
contains_misses_empty es id filled absent =
    contains_loop_misses es (length (encode_all two_byte es ++ (id ∷ 0 ∷ [])) + 1) id 0
      (omega (arith, length-encode_all es, length-append (encode_all two_byte es) (id ∷ 0 ∷ [])))
      filled absent
