-- ===== src/Extension/Lookup.antt =====
-- The searches and `trimPadding` of src/rtp_extension.cpp, against the list of elements.
use srtc.Common.{ℕ, zero, suc, ◌+◌, ◌≤◌, ◌<◌, ◌≡◌, refl, ap, ◌∙◌, List, [], ◌∷◌, ◌++◌}
use srtc.Common.{Option, none, some, true, false, Bool-cases, inl, inr, arith}
use srtc.Common.{length, All, if◌then◌else◌, ◌==◌, ◌≢◌, append_assoc, length-append}
use srtc.Common.{take-append}
use srtc.Bytes.Reader.{ByteReader, reader}
use srtc.Bytes.RoundTrip.{at}
use srtc.Extension.{
  RtpExtension, Element, is_valid_extension_id, is_empty, next_element, find_loop, find_any,
  trim_loop, trim_padding,
}
use srtc.Extension.Elements.{
  encode, Fits, next_element-encode, next_element-Advances, Stops, next_element-Stops,
}

abbrev pub encode_all : ℕ → List Element → List ℕ
encode_all extension_id [] = []
encode_all extension_id (e ∷ es) = encode extension_id e ++ encode_all extension_id es

-- The value of the first element with the id.
abbrev pub find : List Element → ℕ → Option (List ℕ)
find [] wanted = none
find (e ∷ es) wanted = if e.id == wanted then some e.value else find es wanted

-- The two loops, one round at a time.
module _ (fuel extension_id : ℕ) (r r' : ByteReader) where
  find_loop_end :
      (wanted : ℕ)
      → next_element extension_id r ≡ some (none, r')
      → find_loop (suc fuel) extension_id wanted r ≡ some none
  unfolding find_loop
  find_loop_end wanted e = rw (e, find_loop)

  find_loop_step :
      (wanted : ℕ) (e : Element)
      → next_element extension_id r ≡ some (some e, r')
      → find_loop (suc fuel) extension_id wanted r
        ≡ (if e.id == wanted then some (some e.value) else find_loop fuel extension_id wanted r')
  unfolding find_loop
  find_loop_step wanted e h = rw (h, find_loop) (ground arith)

  trim_loop_end :
      (end : ℕ)
      → next_element extension_id r ≡ some (none, r')
      → trim_loop (suc fuel) extension_id r end ≡ some end
  unfolding trim_loop
  trim_loop_end end e = rw (e, trim_loop)

  trim_loop_step :
      (end : ℕ) (e : Element)
      → next_element extension_id r ≡ some (some e, r')
      → trim_loop (suc fuel) extension_id r end ≡ trim_loop fuel extension_id r' r'.pos
  unfolding trim_loop
  trim_loop_step end e h = rw (h, trim_loop)

-- The search ends, whatever the bytes are: with fuel above their number there is an answer.
find_loop_answers :
    (fuel extension_id wanted : ℕ) (r : ByteReader)
    → length r.rest < fuel
    → (found : Option (List ℕ)) × (find_loop fuel extension_id wanted r ≡ some found)
find_loop_answers zero extension_id wanted r h = absurd (omega arith)
find_loop_answers (suc fuel) extension_id wanted r h =
    let a = next_element-Advances extension_id r in
    go a.found a.after a.answered a.shorter (find_loop_answers fuel extension_id wanted)
  where
    go :
        (found : Option Element) (r' : ByteReader)
        → next_element extension_id r ≡ some (found, r')
        → (found ≢ none → length r'.rest < length r.rest)
        → ((s : ByteReader)
            → length s.rest < fuel
            → (x : Option (List ℕ)) × (find_loop fuel extension_id wanted s ≡ some x))
        → (x : Option (List ℕ)) × (find_loop (suc fuel) extension_id wanted r ≡ some x)
    go none r' e shorter ih = (none, find_loop_end fuel extension_id r r' wanted e)
    go (some x) r' e shorter ih =
        let lt : length r'.rest < length r.rest = shorter (λ k. cc) in
        rw (find_loop_step fuel extension_id r r' wanted x e) (elim (Bool-cases (x.id == wanted)) [
          | inl hit ↦ (some x.value, rw hit refl)
          | inr miss ↦ rw miss (ih r' (omega arith))
        ])

-- `findAny` answers on every extension and id: no read goes past the end of the bytes, and its loop
-- ends.
pub find_any_answers :
    (ext : RtpExtension) (wanted : ℕ)
    → (found : Option (List ℕ)) × (find_any ext wanted ≡ some found)
unfolding find_any
find_any_answers ext wanted = elim (Bool-cases (is_empty ext)) [
  | inl e ↦ (none, rw e refl)
  | inr e ↦ rw e (
      find_loop_answers (length ext.bytes + 1) ext.id wanted (reader ext.bytes)
        (unfold reader in omega arith))
]

module _ (extension_id : ℕ) (valid : is_valid_extension_id extension_id ≡ true) where
  find_loop-encode_all :
      (es : List Element) (fuel wanted pos : ℕ) (tail : List ℕ)
      → length es < fuel
      → Stops tail
      → All (Fits extension_id) es
      → find_loop fuel extension_id wanted (at (encode_all extension_id es ++ tail) pos)
        ≡ some (find es wanted)
  find_loop-encode_all [] zero wanted pos tail h stops fits = absurd (omega arith)
  find_loop-encode_all [] (suc fuel) wanted pos tail h stops fits =
      let (r', e) = next_element-Stops extension_id tail pos stops in
      find_loop_end fuel extension_id (at tail pos) r' wanted e
  find_loop-encode_all (x ∷ es) zero wanted pos tail h stops fits = absurd (omega arith)
  find_loop-encode_all (x ∷ es) (suc fuel) wanted pos tail h stops fits =
      ap (λ (xs : List ℕ). find_loop (suc fuel) extension_id wanted (at xs pos))
        (append_assoc (encode extension_id x) (encode_all extension_id es) tail)
      ∙ find_loop_step fuel extension_id _ _ wanted x
          (next_element-encode x (encode_all extension_id es ++ tail) pos extension_id valid fits.0)
      ∙ elim (Bool-cases (x.id == wanted)) [
        | inl hit ↦ rw hit refl
        | inr miss ↦ rw miss (
            find_loop-encode_all es fuel wanted (pos + length (encode extension_id x)) tail
              (omega arith) stops fits.1)
      ]

  trim_loop-encode_all :
      (es : List Element) (fuel pos : ℕ) (tail : List ℕ)
      → length es < fuel
      → Stops tail
      → All (Fits extension_id) es
      → trim_loop fuel extension_id (at (encode_all extension_id es ++ tail) pos) pos
        ≡ some (pos + length (encode_all extension_id es))
  trim_loop-encode_all [] zero pos tail h stops fits = absurd (omega arith)
  trim_loop-encode_all [] (suc fuel) pos tail h stops fits =
      let (r', e) = next_element-Stops extension_id tail pos stops in
      trim_loop_end fuel extension_id (at tail pos) r' pos e ∙ ap some (omega arith)
  trim_loop-encode_all (x ∷ es) zero pos tail h stops fits = absurd (omega arith)
  trim_loop-encode_all (x ∷ es) (suc fuel) pos tail h stops fits =
      ap (λ (xs : List ℕ). trim_loop (suc fuel) extension_id (at xs pos) pos)
        (append_assoc (encode extension_id x) (encode_all extension_id es) tail)
      ∙ trim_loop_step fuel extension_id _ _ pos x
          (next_element-encode x (encode_all extension_id es ++ tail) pos extension_id valid fits.0)
      ∙ trim_loop-encode_all es fuel (pos + length (encode extension_id x)) tail (omega arith) stops
          fits.1
      ∙ ap some (omega (arith, length-append (encode extension_id x) (encode_all extension_id es)))

  length-encode : (x : Element) → 0 < length (encode extension_id x)
  length-encode x = ground arith

  length-encode_all : (es : List Element) → length es ≤ length (encode_all extension_id es)
  length-encode_all [] = omega arith
  length-encode_all (x ∷ es) = omega (
    arith,
    length-append (encode extension_id x) (encode_all extension_id es),
    length-encode x,
    length-encode_all es,
  )

  module _ (es : List Element) (tail : List ℕ) (stops : Stops tail)
      (fits : All (Fits extension_id) es) where
    abbrev pub encoded : RtpExtension
    encoded = record { id = extension_id; bytes = encode_all extension_id es ++ tail }

    enough : length es < length (encode_all extension_id es ++ tail) + 1
    enough = omega (arith, length-encode_all es, length-append (encode_all extension_id es) tail)

    -- For elements that fit the format of a valid extension id, with bytes behind them at which
    -- `nextElement` stops, in an extension that is not empty, `findAny` returns the value of the first
    -- element with the id, and nothing if there is none.
    pub find_any-encode_all :
        (wanted : ℕ) → is_empty encoded ≡ false → find_any encoded wanted ≡ some (find es wanted)
    unfolding find_any reader
    find_any-encode_all wanted ne =
        rw ne (find_loop-encode_all es (length encoded.bytes + 1) wanted 0 tail enough stops fits)

    -- For elements that fit the format of a valid extension id, with bytes behind them at which
    -- `nextElement` stops, in an extension that is not empty, `trimPadding` keeps exactly the elements.
    pub trim_padding-encode_all :
        is_empty encoded ≡ false
        → trim_padding encoded
          ≡ some (record { id = extension_id; bytes = encode_all extension_id es })
    unfolding trim_padding reader
    trim_padding-encode_all ne =
        rw (ne, trim_loop-encode_all es (length encoded.bytes + 1) 0 tail enough stops fits)
          (ap (λ (xs : List ℕ). some (record { id = extension_id; bytes = xs }))
            (take-append (encode_all extension_id es) tail _ (omega arith)))
