-- ===== src/Rtp/Carried.antt =====
-- The extensions that packets of src/rtp_packet.cpp carry, with their length and filled to whole words.
use srtc.Common.{
  ℕ, suc, ◌+◌, ◌*◌, ◌/◌, ◌%◌, ◌^◌, ◌≤◌, ◌<◌, ◌≡◌, refl, ap₂, sym, ◌∙◌, List, [], ◌∷◌, ◌++◌,
}
use srtc.Common.{subst, ◌⊎◌, inl, inr, some, true, false, not, arith, length, All}
use srtc.Common.{append_assoc, append-nil, length-append, ltb-false, take-append, drop-append}
use srtc.Bytes.Reader.{ByteReader, >>=-some, read_u16, read_bytes}
use srtc.Bytes.Writer.{write, write_u16}
use srtc.Bytes.RoundTrip.{at}
use srtc.Extension.{RtpExtension, Element, no_extension, is_empty, is_valid_extension_id}
use srtc.Extension.Elements.{Fits, Stops}
use srtc.Extension.Lookup.{encode_all, trim_padding-encode_all}
use srtc.Rtp.{write_extension, trimmed, read_extension_bytes, read_extension}
use srtc.Rtp.Fields.{Filled, fill_word-Filled}

-- The elements of an extension that a packet can carry.
pub record Carries (extension_id : ℕ) (es : List Element) : Type 0 where
  pub valid : is_valid_extension_id extension_id ≡ true
  pub fits : All (Fits extension_id) es
  pub filled : is_empty (record { id = extension_id; bytes = encode_all extension_id es }) ≡ false
  pub short : length (encode_all extension_id es) ≤ 4 * 65535

-- The next bytes of a list, taken whole.
read_bytes-append :
    (size : ℕ) (bytes rest : List ℕ) (pos : ℕ)
    → size ≡ length bytes
    → read_bytes size (at (bytes ++ rest) pos) ≡ some (bytes, at rest (pos + size))
unfolding read_bytes
read_bytes-append size bytes rest pos h =
    rw
      (
        ltb-false (length (bytes ++ rest)) size (omega (arith, length-append bytes rest)),
        take-append bytes rest size h,
        drop-append bytes rest size h,
      )
      refl

module _ (extension_id : ℕ) (es : List Element) (carries : Carries extension_id es) where
  abbrev carried : RtpExtension
  carried = record { id = extension_id; bytes = encode_all extension_id es }

  open carries use {valid, fits, filled, short}

  abbrev words : ℕ
  words = (length carried.bytes + 3) / 4

  id_word : extension_id < 2 ^ 16
  id_word = unfold is_valid_extension_id in ground (arith, valid)

  filling : Filled 3 (length carried.bytes)
  filling = fill_word-Filled 3 (length carried.bytes) (omega arith)

  padded_filled :
      (tail : List ℕ)
      → is_empty (record { id = extension_id; bytes = carried.bytes ++ tail }) ≡ false
  padded_filled tail = unfold is_empty in ground (arith, filled, length-append carried.bytes tail)

  -- The extension is read back without the zeros that fill its last word.
  trimmed_lem :
      (tail : List ℕ) (r : ByteReader)
      → Stops tail
      → trimmed extension_id (carried.bytes ++ tail) r ≡ some (some carried, r)
  unfolding trimmed
  trimmed_lem tail r stops =
      rw (valid, trim_padding-encode_all extension_id valid es tail stops fits (padded_filled tail))
        refl

  -- The four bytes in front of the elements.
  abbrev front : List ℕ
  front = extension_id / 2 ^ 8 % 256 ∷ extension_id % 256 ∷ words / 2 ^ 8 % 256 ∷ words % 256 ∷ []

  write_extension-carried :
      (buf : List ℕ)
      → write_extension buf carried ≡ buf ++ (front ++ (carried.bytes ++ filling.tail))
  unfolding write_extension write write_u16
  write_extension-carried buf =
      let two : List ℕ = extension_id / 2 ^ 8 % 256 ∷ extension_id % 256 ∷ [] in
      let count : List ℕ = words / 2 ^ 8 % 256 ∷ words % 256 ∷ [] in
      let f = filling in
      rw filled (
        f.appended (((buf ++ two) ++ count) ++ carried.bytes)
        ∙ append_assoc ((buf ++ two) ++ count) carried.bytes f.tail
        ∙ append_assoc (buf ++ two) count (carried.bytes ++ f.tail)
        ∙ append_assoc buf two (count ++ (carried.bytes ++ f.tail)))

  filling_size : length (carried.bytes ++ filling.tail) ≡ words * 4
  filling_size = let e = filling.whole in omega (arith, length-append carried.bytes filling.tail)

  read_extension_bytes-carried :
      (tail rest : List ℕ) (pos : ℕ)
      → Stops tail
      → length (carried.bytes ++ tail) ≡ words * 4
      → read_extension_bytes extension_id (words * 4) (at ((carried.bytes ++ tail) ++ rest) pos)
        ≡ some (some carried, at rest (pos + words * 4))
  unfolding read_extension_bytes
  read_extension_bytes-carried tail rest pos stops e =
      rw
        (ltb-false (length ((carried.bytes ++ tail) ++ rest)) (words * 4)
          (omega (arith, length-append (carried.bytes ++ tail) rest)))
        (>>=-some (read_bytes (words * 4)) _ (at ((carried.bytes ++ tail) ++ rest) pos)
            (read_bytes-append (words * 4) (carried.bytes ++ tail) rest pos (sym e))
          ∙ trimmed_lem tail (at rest (pos + words * 4)) stops)

  read_extension-carried :
      (tail rest : List ℕ) (pos : ℕ)
      → Stops tail
      → length (carried.bytes ++ tail) ≡ words * 4
      → read_extension true (at (front ++ ((carried.bytes ++ tail) ++ rest)) pos)
        ≡ some (some carried, at rest (pos + 2 + 2 + words * 4))
  unfolding read_extension read_u16
  read_extension-carried tail rest pos stops e =
      rw
        (ltb-false (suc (suc (suc (suc (length ((carried.bytes ++ tail) ++ rest)))))) 4
          (omega arith))
        (ap₂
            (λ (i n : ℕ).
              read_extension_bytes i n (at ((carried.bytes ++ tail) ++ rest) (pos + 2 + 2)))
            two_bytes (omega arith)
          ∙ read_extension_bytes-carried tail rest (pos + 2 + 2) stops e)
    where
      two_bytes : extension_id / 2 ^ 8 % 256 * 2 ^ 8 + extension_id % 256 ≡ extension_id
      two_bytes = let h = id_word in omega arith

-- An extension that the parser reads back from what the writer wrote.
pub record Readable (ext : RtpExtension) : Type 0 where
  pub bytes : List ℕ
  pub written : (buf : List ℕ) → write_extension buf ext ≡ buf ++ bytes
  pub read :
      (rest : List ℕ) (pos : ℕ)
      → (pos' : ℕ) × (read_extension (not (is_empty ext)) (at (bytes ++ rest) pos)
          ≡ some (some ext, at rest pos'))

no_extension-Readable : Readable no_extension
unfolding write_extension read_extension is_empty
no_extension-Readable = record {
  bytes = [];
  written = λ buf. sym (append-nil buf);
  read = λ rest pos. (pos, refl);
}

carried-Readable :
    (extension_id : ℕ) (es : List Element)
    → Carries extension_id es
    → Readable (record { id = extension_id; bytes = encode_all extension_id es })
carried-Readable extension_id es carries =
    let f = filling extension_id es carries in
    record {
      bytes = front extension_id es carries ++ (encode_all extension_id es ++ f.tail);
      written = write_extension-carried extension_id es carries;
      read = λ rest pos. (
        pos + 2 + 2 + words extension_id es carries * 4,
        rw (carries.filled) (
            read_extension-carried extension_id es carries f.tail rest pos f.stops
              (filling_size extension_id es carries)),
      );
    }

-- What a packet can carry: no extension, or elements that fit.
unfoldable pub IsCarried : RtpExtension → Type 0
IsCarried ext =
    (ext ≡ no_extension)
    ⊎ ((extension_id : ℕ) × ((es : List Element) × (Carries extension_id es
            × (ext ≡ record { id = extension_id; bytes = encode_all extension_id es }))))

pub IsCarried-Readable : (ext : RtpExtension) → IsCarried ext → Readable ext
unfolding IsCarried
IsCarried-Readable ext (inl none) = subst Readable (sym none) no_extension-Readable
IsCarried-Readable ext (inr (extension_id, (es, (carries, same)))) =
    subst Readable (sym same) (carried-Readable extension_id es carries)
