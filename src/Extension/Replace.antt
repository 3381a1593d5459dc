-- ===== src/Extension/Replace.antt =====
-- `addOrReplaceU16Value` of src/rtp_extension_builder.cpp, over encoded elements.
use srtc.Common.{
  ℕ, zero, suc, ◌+◌, ◌/◌, ◌%◌, ◌^◌, ◌<◌, ◌≡◌, refl, ap, ap₂, sym, ◌∙◌, List, [], ◌∷◌, ◌++◌,
}
use srtc.Common.{some, true, Bool-cases, inl, inr, arith}
use srtc.Common.{length, All, if◌then◌else◌, ◌==◌, append_assoc, length-append, set}
use srtc.Common.{ltb, lt→ltb, ==_true}
use srtc.Bytes.Writer.{write_u8, write_u16}
use srtc.Bytes.Reader.{reader, read_u8}
use srtc.Bytes.RoundTrip.{at}
use srtc.Extension.{Element, two_byte}
use srtc.Extension.Elements.{skip-append}
use srtc.Extension.Lookup.{encode_all}
use srtc.Extension.Build.{element}
use srtc.Extension.Search.{length-encode_all}
use srtc.Extension.Builder.{
  read_header, position_loop, add_u16_value, put_u16, add_or_replace_u16_value,
}

-- The list with the value of an id replaced, or added at the end.
abbrev replace : List Element → ℕ → List ℕ → List Element
replace [] id value = element id value ∷ []
replace (e ∷ es) id value = if e.id == id then element id value ∷ es else e ∷ replace es id value

-- No value is empty, and one with the id has two bytes.
abbrev Replaceable : ℕ → Element → Type 0
Replaceable id e = (0 < length e.value) × (e.id ≡ id → length e.value ≡ 2)

abbrev bytes_of : ℕ → List ℕ
bytes_of value = value / 2 ^ 8 % 256 ∷ value % 256 ∷ []

set-append :
    (front xs : List ℕ) (n value i : ℕ)
    → i ≡ length front + n
    → set (front ++ xs) i value ≡ front ++ set xs n value
set-append [] xs n value i e = ap (λ (k : ℕ). set xs k value) (omega arith)
set-append (x ∷ front) xs n value zero e = absurd (omega arith)
set-append (x ∷ front) xs n value (suc i) e =
    ap (◌∷◌ x) (set-append front xs n value i (omega arith))

module _ (id value : ℕ) (in_range : id < 256) where
  added : (front : List ℕ) → add_u16_value front id value ≡ front ++ (id ∷ 2 ∷ bytes_of value)
  unfolding add_u16_value write_u8 write_u16
  added front =
      ap (λ (n : ℕ). ((front ++ (n ∷ [])) ++ (2 ∷ [])) ++ bytes_of value) (omega arith)
      ∙ append_assoc (front ++ (id ∷ [])) (2 ∷ []) (bytes_of value)
      ∙ append_assoc front (id ∷ []) (2 ∷ bytes_of value)

  replaced :
      (front rest bytes : List ℕ)
      → length bytes ≡ 2
      → set
          (set
            (front ++ (id ∷ length bytes ∷ (bytes ++ rest)))
            (length front + 1 + 1)
            (value / 2 ^ 8 % 256))
          (length front + 1 + 1 + 1)
          (value % 256)
        ≡ front ++ (id ∷ 2 ∷ (bytes_of value ++ rest))
  replaced front rest [] two = absurd (omega arith)
  replaced front rest (a ∷ []) two = absurd (omega arith)
  replaced front rest (a ∷ b ∷ []) two =
      ap (λ (xs : List ℕ). set xs (length front + 1 + 1 + 1) (value % 256))
        (set-append front (id ∷ 2 ∷ a ∷ b ∷ rest) 2 (value / 2 ^ 8 % 256) (length front + 1 + 1)
          (omega arith))
      ∙ set-append front (id ∷ 2 ∷ (value / 2 ^ 8 % 256) ∷ b ∷ rest) 3 (value % 256)
          (length front + 1 + 1 + 1) (omega arith)
  replaced front rest (a ∷ b ∷ c ∷ bytes) two = absurd (omega arith)

  position_step :
      (fuel : ℕ) (e : Element) (rest : List ℕ) (pos : ℕ)
      → 0 < length e.value
      → (e.id ≡ id → length e.value ≡ 2)
      → position_loop (suc fuel) id (at (e.id ∷ length e.value ∷ (e.value ++ rest)) pos) ≡ (
          if e.id == id
          then some (some (pos + 1 + 1))
          else position_loop fuel id (at rest (pos + 1 + 1 + length e.value)))
  unfolding position_loop read_header read_u8
  position_step fuel e rest pos filled two =
      let long : ltb 2 (suc (suc (length (e.value ++ rest)))) ≡ true =
        lt→ltb 2 _ (omega (arith, length-append e.value rest)) in
      elim (Bool-cases (e.id == id)) [
        | inl hit ↦
            rw (long, position_loop, hit, ==_true (length e.value) 2 (two (ground (arith, hit))))
              refl
        | inr miss ↦
            rw
              (
                long,
                position_loop,
                miss,
                skip-append e.value rest (length e.value) refl (pos + 1 + 1),
              )
              refl
      ]

  position_loop-replace :
      (es : List Element) (fuel : ℕ) (front : List ℕ)
      → length es < fuel
      → All (Replaceable id) es
      → put_u16
          (front ++ encode_all two_byte es)
          id
          value
          (position_loop fuel id (at (encode_all two_byte es) (length front)))
        ≡ some (front ++ encode_all two_byte (replace es id (bytes_of value)))
  unfolding put_u16
  position_loop-replace [] zero front h all = absurd (omega arith)
  position_loop-replace [] (suc fuel) front h all =
      unfold position_loop in
      ap {A = List ℕ} some (added (front ++ []) ∙ append_assoc front [] (id ∷ 2 ∷ bytes_of value))
  position_loop-replace (e ∷ es) zero front h all = absurd (omega arith)
  position_loop-replace (e ∷ es) (suc fuel) front h ((filled, two), all) =
      let rest = encode_all two_byte es in
      let buf = front ++ (e.id ∷ length e.value ∷ (e.value ++ rest)) in
      let front' = front ++ (e.id ∷ length e.value ∷ e.value) in
      let later = position_loop-replace es fuel front' (omega arith) all in
      ap (put_u16 buf id value) (position_step fuel e rest (length front) filled two)
      ∙ elim (Bool-cases (e.id == id)) [
        | inl hit ↦
            let same : e.id ≡ id = ground (arith, hit) in
            rw hit (
              ap {A = List ℕ} some (
                ap
                  (λ (n : ℕ).
                    set
                      (set (front ++ (n ∷ length e.value ∷ (e.value ++ rest)))
                        (length front + 1 + 1) (value / 2 ^ 8 % 256))
                      (length front + 1 + 1 + 1) (value % 256))
                  same
                ∙ replaced front rest e.value (two same)))
        | inr miss ↦ rw miss (
            ap₂ (λ (xs : List ℕ) (n : ℕ). put_u16 xs id value (position_loop fuel id (at rest n)))
              (sym (append_assoc front (e.id ∷ length e.value ∷ e.value) rest))
              (omega (arith, length-append front (e.id ∷ length e.value ∷ e.value)))
            ∙ later
            ∙ ap {A = List ℕ} some (
                append_assoc front (e.id ∷ length e.value ∷ e.value)
                  (encode_all two_byte (replace es id (bytes_of value)))))
      ]

-- On elements in the two-byte format that are not empty, and an id below 256 whose values have two bytes,
-- `addOrReplaceU16Value` replaces the value of the first element with the id in place, and adds an element
-- where there is none: no assert fails.
add_or_replace_u16_value-encode_all :
    (es : List Element) (id value : ℕ)
    → id < 256
    → All (Replaceable id) es
    → add_or_replace_u16_value (encode_all two_byte es) id value
      ≡ some (encode_all two_byte (replace es id (bytes_of value)))
unfolding add_or_replace_u16_value reader
add_or_replace_u16_value-encode_all es id value in_range all =
    position_loop-replace id value in_range es (length (encode_all two_byte es) + 1) []
      (omega (arith, length-encode_all es)) all
