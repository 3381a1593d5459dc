-- ===== src/Extension/Elements.antt =====
-- One element of src/rtp_extension.cpp: its encoding, and `nextElement`.
use srtc.Common.{ℕ, suc, ◌+◌, ◌-◌, ◌*◌, ◌/◌, ◌%◌, ◌≤◌, ◌<◌, ◌≡◌, refl, ap, ◌∙◌, List, [], ◌∷◌, ◌++◌}
use srtc.Common.{Option, none, some, true, false, Bool-cases, inl, inr, arith, length, take, drop}
use srtc.Common.{
  if◌then◌else◌, ◌==◌, ltb, length-append, take-append, drop-append, length-drop, ◌≢◌, ==_false,
  ltb-false,
}
use srtc.Bytes.Reader.{ByteReader, >>=-some, skip, read_u8}
use srtc.Bytes.RoundTrip.{at}
use srtc.Extension.{
  Element, one_byte, is_valid_extension_id, take_value, one_byte_header, two_byte_header,
  next_one_byte, next_two_byte, next_element,
}

-- The bytes of an element in the format of the extension id.
abbrev pub encode : ℕ → Element → List ℕ
encode extension_id e =
    if extension_id == one_byte
    then (e.id * 16 + (length e.value - 1)) ∷ e.value
    else e.id ∷ length e.value ∷ e.value

-- What the format can hold: the id 0 is padding, and 15 is reserved in the one-byte format.
abbrev pub Fits : ℕ → Element → Type 0
Fits extension_id e =
    if extension_id == one_byte
    then (0 < e.id) × (e.id < 15) × (0 < length e.value) × (length e.value ≤ 16)
    else (0 < e.id) × (e.id < 256) × (0 ≤ length e.value) × (length e.value ≤ 255)

module _ (value rest : List ℕ) (len : ℕ) (h : len ≡ length value) where
  long_enough : ltb (length (value ++ rest)) len ≡ false
  long_enough = ground (arith, length-append value rest)

  pub skip-append : (pos : ℕ) → skip len (at (value ++ rest) pos) ≡ some (tt, at rest (pos + len))
  unfolding skip
  skip-append pos = rw (long_enough, drop-append value rest len h)

  -- A value of the announced length is taken whole.
  take_value-append :
      (id pos : ℕ)
      → take_value id len (at (value ++ rest) pos)
        ≡ some (some (record { id = id; value = value }), at rest (pos + len))
  unfolding take_value
  take_value-append id pos = rw long_enough (
      >>=-some (skip len) _ (at (value ++ rest) pos) (skip-append pos)
      ∙ ap (λ (v : List ℕ). some (some (record { id = id; value = v }), at rest (pos + len)))
          (take-append value rest len h))

-- The same with the value's tests made by variables.
one_byte_header-append :
    (b id len pos : ℕ) (value rest : List ℕ)
    → 0 < b
    → b / 16 ≡ id
    → ¬ (id ≡ 15)
    → b % 16 + 1 ≡ length value
    → one_byte_header b (at (value ++ rest) pos)
      ≡ some (some (record { id = id; value = value }), at rest (pos + (b % 16 + 1)))
unfolding one_byte_header
one_byte_header-append b id len pos value rest h e ne l =
    rw (==_false b 0 (omega arith), e, ==_false id 15 ne)
      (take_value-append value rest (b % 16 + 1) l id pos)

module _ (e : Element) (rest : List ℕ) (pos : ℕ) where
  -- `nextElement` reads an element of the one-byte format back.
  next_one_byte-encode :
      0 < e.id
      → e.id < 15
      → 0 < length e.value
      → length e.value ≤ 16
      → next_one_byte (at ((e.id * 16 + (length e.value - 1)) ∷ (e.value ++ rest)) pos)
        ≡ some (some e, at rest (pos + suc (length e.value)))
  unfolding next_one_byte read_u8
  next_one_byte-encode lo hi some_len max_len =
      let b : ℕ = e.id * 16 + (length e.value - 1) in
      rw (ltb-false (suc (length (e.value ++ rest))) 1 (omega arith)) (
        one_byte_header-append b e.id 0 (pos + 1) e.value rest (omega arith) (omega arith)
          (omega arith) (omega arith)
        ∙ ap (λ (p : ℕ). some (some e, at rest p)) (omega arith))

  next_two_byte-encode :
      0 < e.id
      → next_two_byte (at (e.id ∷ length e.value ∷ (e.value ++ rest)) pos)
        ≡ some (some e, at rest (pos + suc (suc (length e.value))))
  unfolding next_two_byte two_byte_header read_u8
  next_two_byte-encode lo =
      rw
        (
          ltb-false (suc (suc (length (e.value ++ rest)))) 2 (omega arith),
          ==_false e.id 0 (omega arith),
        )
        (take_value-append e.value rest (length e.value) refl e.id (pos + 1 + 1)
          ∙ ap (λ (p : ℕ). some (some e, at rest p)) (omega arith))

  -- `nextElement` reads back an element that fits the format of a valid extension id, whatever follows it,
  -- and stands behind it.
  pub next_element-encode :
      (extension_id : ℕ)
      → is_valid_extension_id extension_id ≡ true
      → Fits extension_id e
      → next_element extension_id (at (encode extension_id e ++ rest) pos)
        ≡ some (some e, at rest (pos + length (encode extension_id e)))
  unfolding next_element
  next_element-encode extension_id valid fits = elim (Bool-cases (extension_id == one_byte)) [
    | inl one ↦
        let (lo, hi, some_len, max_len) = rw one at fits in
        rw (valid, one) (next_one_byte-encode lo hi some_len max_len)
    | inr other ↦
        let (lo, hi, some_len, max_len) = rw other at fits in
        rw (valid, other) (next_two_byte-encode lo)
  ]

-- A step of a loop over the elements: an answer, with fewer bytes left if there was an element.
pub record Advances (r : ByteReader) (answer : Option (Option Element × ByteReader)) : Type 0 where
  pub found : Option Element
  pub after : ByteReader
  pub answered : answer ≡ some (found, after)
  pub shorter : found ≢ none → length after.rest < length r.rest

no_element : (r : ByteReader) → Advances r (some (none, r))
no_element r = record { found = none; after = r; answered = refl; shorter = λ ne. absurd (ne refl) }

skip_long :
    (len : ℕ) (r : ByteReader)
    → ltb (length r.rest) len ≡ false
    → skip len r ≡ some (tt, at (drop len r.rest) (r.pos + len))
unfolding skip
skip_long len r h = rw h

module _ (id len : ℕ) where
  take_value-Advances :
      (r r' : ByteReader) → length r'.rest < length r.rest → Advances r (take_value id len r')
  unfolding take_value
  take_value-Advances r r' lt = elim (Bool-cases (ltb (length r'.rest) len)) [
    | inl short ↦
        rw short
          (record { found = none; after = r'; answered = refl; shorter = λ ne. absurd (ne refl) })
    | inr long ↦ rw long (record {
      found = some (record { id = id; value = take len r'.rest });
      after = at (drop len r'.rest) (r'.pos + len);
      answered = >>=-some (skip len) _ r' (skip_long len r' long);
      shorter = λ ne. omega (arith, length-drop len r'.rest);
    })
  ]

one_byte_header-Advances :
    (value : ℕ) (r r' : ByteReader)
    → length r'.rest < length r.rest
    → Advances r (one_byte_header value r')
unfolding one_byte_header
one_byte_header-Advances value r r' lt = elim (Bool-cases (value == 0)) [
  | inl e ↦
      rw e (record { found = none; after = r'; answered = refl; shorter = λ ne. absurd (ne refl) })
  | inr e ↦ elim (Bool-cases (value / 16 == 15)) [
    | inl d ↦
        rw (e, d)
          (record { found = none; after = r'; answered = refl; shorter = λ ne. absurd (ne refl) })
    | inr d ↦ rw (e, d) (take_value-Advances (value / 16) (value % 16 + 1) r r' lt)
  ]
]

next_one_byte-Advances : (xs : List ℕ) (pos : ℕ) → Advances (at xs pos) (next_one_byte (at xs pos))
unfolding next_one_byte read_u8
next_one_byte-Advances [] pos = no_element (at [] pos)
next_one_byte-Advances (b ∷ xs) pos =
    rw (ltb-false (suc (length xs)) 1 (omega arith))
      (one_byte_header-Advances b (at (b ∷ xs) pos) (at xs (pos + 1)) (omega arith))

next_two_byte-Advances : (xs : List ℕ) (pos : ℕ) → Advances (at xs pos) (next_two_byte (at xs pos))
unfolding next_two_byte two_byte_header read_u8
next_two_byte-Advances [] pos = no_element (at [] pos)
next_two_byte-Advances (a ∷ []) pos = no_element (at (a ∷ []) pos)
next_two_byte-Advances (a ∷ b ∷ xs) pos = elim (Bool-cases (a == 0)) [
  | inl e ↦
      rw (ltb-false (suc (suc (length xs))) 2 (omega arith), e)
        (record {
          found = none;
          after = at (b ∷ xs) (pos + 1);
          answered = refl;
          shorter = λ ne. absurd (ne refl);
        })
  | inr e ↦
      rw (ltb-false (suc (suc (length xs))) 2 (omega arith), e)
        (take_value-Advances a b (at (a ∷ b ∷ xs) pos) (at xs (pos + 1 + 1)) (omega arith))
]

-- On any bytes at all `nextElement` answers, without a read past the end, and an element that it
-- finds takes bytes away.
pub next_element-Advances :
    (extension_id : ℕ) (r : ByteReader) → Advances r (next_element extension_id r)
unfolding next_element
next_element-Advances extension_id r = elim (Bool-cases (is_valid_extension_id extension_id)) [
  | inl valid ↦ elim (Bool-cases (extension_id == one_byte)) [
    | inl one ↦ rw (valid, one) (next_one_byte-Advances r.rest r.pos)
    | inr other ↦ rw (valid, other) (next_two_byte-Advances r.rest r.pos)
  ]
  | inr invalid ↦ rw invalid (no_element r)
]

-- What stops a loop over the elements: no bytes, or padding.
pub data Stops : List ℕ → Type 0 where
  no_bytes : Stops []
  padding : (xs : List ℕ) → Stops (0 ∷ xs)

one_byte_stops :
    (xs : List ℕ) (pos : ℕ)
    → Stops xs
    → (r' : ByteReader) × (next_one_byte (at xs pos) ≡ some (none, r'))
unfolding next_one_byte one_byte_header read_u8
one_byte_stops [] pos s = (at [] pos, refl)
one_byte_stops (b ∷ xs) pos (padding ys) =
    (at xs (pos + 1), rw (ltb-false (suc (length xs)) 1 (omega arith)) refl)

two_byte_stops :
    (xs : List ℕ) (pos : ℕ)
    → Stops xs
    → (r' : ByteReader) × (next_two_byte (at xs pos) ≡ some (none, r'))
unfolding next_two_byte two_byte_header read_u8
two_byte_stops [] pos s = (at [] pos, refl)
two_byte_stops (a ∷ []) pos s = (at (a ∷ []) pos, refl)
two_byte_stops (a ∷ b ∷ xs) pos (padding ys) =
    (at (b ∷ xs) (pos + 1), rw (ltb-false (suc (suc (length xs))) 2 (omega arith)) refl)

pub next_element-Stops :
    (extension_id : ℕ) (xs : List ℕ) (pos : ℕ)
    → Stops xs
    → (r' : ByteReader) × (next_element extension_id (at xs pos) ≡ some (none, r'))
unfolding next_element
next_element-Stops extension_id xs pos s = elim (Bool-cases (is_valid_extension_id extension_id)) [
  | inl valid ↦ elim (Bool-cases (extension_id == one_byte)) [
    | inl one ↦ rw (valid, one) (one_byte_stops xs pos s)
    | inr other ↦ rw (valid, other) (two_byte_stops xs pos s)
  ]
  | inr invalid ↦ (at xs pos, rw invalid refl)
]
