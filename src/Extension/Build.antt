-- ===== src/Extension/Build.antt =====
-- The values that src/rtp_extension_builder.cpp adds, against the list of elements.
use srtc.Common.{ℕ, ◌≤◌, ◌<◌, ◌≡◌, refl, ap, ap₂, sym, ◌∙◌, min, List, [], ◌∷◌, ◌++◌}
use srtc.Common.{arith}
use srtc.Common.{length, take, drop, append_assoc, append-nil}
use srtc.Common.{length-take, take-append-drop}
use srtc.Bytes.Writer.{write, write_u8, write_u16, write_u32, write_u64}
use srtc.Extension.{Element, two_byte}
use srtc.Extension.Elements.{encode}
use srtc.Extension.Lookup.{encode_all}
use srtc.Extension.Builder.{
  add_string_value, add_binary_value, add_u16_value, add_u32_value, add_u64_value,
}

abbrev pub element : ℕ → List ℕ → Element
element id value = record { id = id; value = value }

encode_all-append :
    (es : List Element) (e : Element)
    → encode_all two_byte (es ++ (e ∷ [])) ≡ encode_all two_byte es ++ encode two_byte e
encode_all-append [] e = append-nil (encode two_byte e)
encode_all-append (x ∷ es) e =
    ap (◌++◌ (encode two_byte x)) (encode_all-append es e)
    ∙ sym (append_assoc (encode two_byte x) (encode_all two_byte es) (encode two_byte e))

-- Two bytes of a header and the value's bytes, one after the other, are an encoded element.
header_bytes :
    (buf value : List ℕ) (id len : ℕ)
    → id < 256
    → len < 256
    → write_u8 (write_u8 buf id) len ++ value ≡ buf ++ (id ∷ len ∷ value)
unfolding write_u8
header_bytes buf value id len hi hl =
    ap₂ (λ (a b : ℕ). ((buf ++ (a ∷ [])) ++ (b ∷ [])) ++ value) (omega arith) (omega arith)
    ∙ append_assoc (buf ++ (id ∷ [])) (len ∷ []) value
    ∙ append_assoc buf (id ∷ []) (len ∷ value)

module _ (es : List Element) (id : ℕ) (in_range : id < 256) where
  appended :
      (buf value : List ℕ) (len : ℕ)
      → len ≡ length value
      → len < 256
      → buf ≡ encode_all two_byte es
      → write_u8 (write_u8 buf id) len ++ value
        ≡ encode_all two_byte (es ++ (element id value ∷ []))
  appended buf value len e hl same =
      header_bytes buf value id len in_range hl
      ∙ ap₂ (λ (b : List ℕ) (n : ℕ). b ++ (id ∷ n ∷ value)) same e
      ∙ sym (encode_all-append es (element id value))

  -- On elements in the two-byte format, with an id below 256, `addStringValue` appends an element with the
  -- first 255 bytes of the string at most.
  pub add_string_value-append :
      (value : List ℕ)
      → add_string_value (encode_all two_byte es) id value
        ≡ encode_all two_byte (es ++ (element id (take (min 255 (length value)) value) ∷ []))
  unfolding add_string_value write
  add_string_value-append value =
      appended (encode_all two_byte es) (take (min 255 (length value)) value)
        (min 255 (length value)) (omega (arith, length-take (min 255 (length value)) value))
        (omega arith) refl

  -- A binary value of at most 255 bytes too.
  add_binary_value-append :
      (value : List ℕ)
      → length value ≤ 255
      → add_binary_value (encode_all two_byte es) id value
        ≡ encode_all two_byte (es ++ (element id value ∷ []))
  unfolding add_binary_value write
  add_binary_value-append value h =
      appended (encode_all two_byte es) value (min 255 (length value)) (omega arith) (omega arith)
        refl

  -- On elements in the two-byte format, with an id below 256, the functions that add a number append an
  -- element of two, four and eight bytes, the highest byte first.
  pub add_numbers-append :
      (value : ℕ)
      → (add_u16_value (encode_all two_byte es) id value
          ≡ encode_all two_byte (es ++ (element id (write_u16 [] value) ∷ [])))
        × (add_u32_value (encode_all two_byte es) id value
            ≡ encode_all two_byte (es ++ (element id (write_u32 [] value) ∷ [])))
        × (add_u64_value (encode_all two_byte es) id value
            ≡ encode_all two_byte (es ++ (element id (write_u64 [] value) ∷ [])))
  unfolding add_u16_value add_u32_value add_u64_value write_u16 write_u32 write_u64
  add_numbers-append value = (
    appended (encode_all two_byte es) _ 2 refl (omega arith) refl,
    appended (encode_all two_byte es) _ 4 refl (omega arith) refl,
    appended (encode_all two_byte es) _ 8 refl (omega arith) refl,
  )

-- `addBinaryValue` writes a value of more than 255 bytes whole, though it announces 255: the bytes past
-- these follow what `addStringValue` would have written, with no header of their own.
pub add_binary_value_overrun :
    (buf value : List ℕ) (id : ℕ)
    → 255 < length value
    → add_binary_value buf id value ≡ add_string_value buf id value ++ drop 255 value
unfolding add_binary_value add_string_value write
add_binary_value_overrun buf value id h =
    ap (◌++◌ (write_u8 (write_u8 buf id) (min 255 (length value))))
      (sym (cut (min 255 (length value)) (omega arith)))
    ∙ sym (append_assoc _ (take (min 255 (length value)) value) (drop 255 value))
  where
    cut : (n : ℕ) → n ≡ 255 → take n value ++ drop 255 value ≡ value
    cut n e = rw e (take-append-drop 255 value)
