-- ===== src/Sctp/Packet/Chunks.antt =====
-- One chunk: `addChunk` of src/sctp/sctp_packet_builder.cpp, and the loop of src/sctp/sctp_packet.cpp.
use srtc.Common.{
  ℕ, suc, ◌+◌, ◌-◌, ◌*◌, ◌/◌, ◌%◌, ◌^◌, ◌<◌, ◌≡◌, refl, ap, sym, ◌∙◌, min, List, [], ◌∷◌, ◌++◌,
  some,
}
use srtc.Common.{
  arith, ltb, ltb-false, lt→ltb, length, take, replicate, append_assoc, append-nil, length-append,
  length-replicate,
}
use srtc.Common.{take-append, drop-append, Bool-cases, inl, inr, if◌then◌else◌}
use srtc.Bytes.Writer.{write, padding, write_u8, write_u16}
use srtc.Bytes.Reader.{read_u8, read_u16, skip, >>=-some}
use srtc.Bytes.RoundTrip.{at}
use srtc.Sctp.Packet.{Chunk, add_chunk, padded_skip, chunk_value, read_chunk}

-- A chunk whose fields fit their widths.
pub record Fits (c : Chunk) : Type 0 where
  pub kind : c.type < 256
  pub bits : c.flags < 256
  pub short : 4 + length c.value < 2 ^ 16

abbrev len_of : Chunk → ℕ
len_of c = 4 + length c.value

-- The value with the zeros behind it.
abbrev pub padded : Chunk → List ℕ
padded c = c.value ++ replicate ((len_of c + 3) / 4 * 4 - len_of c) 0

abbrev pub encode : Chunk → List ℕ
encode c = c.type ∷ c.flags ∷ (len_of c / 2 ^ 8 % 256) ∷ (len_of c % 256) ∷ padded c

length-padded : (c : Chunk) → length (padded c) ≡ padded_skip (len_of c)
length-padded c = omega (
  arith,
  length-append c.value (replicate ((len_of c + 3) / 4 * 4 - len_of c) 0),
  length-replicate {A = ℕ} ((len_of c + 3) / 4 * 4 - len_of c) 0,
)

write_if_any :
    (buf bytes : List ℕ) → (if ltb 0 (length bytes) then write buf bytes else buf) ≡ buf ++ bytes
unfolding write
write_if_any buf [] = sym (append-nil buf)
write_if_any buf (b ∷ bytes) = rw (lt→ltb 0 (suc (length bytes)) (omega arith)) refl

pad_if_any :
    (body : List ℕ) (len full : ℕ)
    → (if ltb len full then padding body 0 (full - len) else body)
      ≡ body ++ replicate (full - len) 0
unfolding padding
pad_if_any body len full = elim (Bool-cases (ltb len full)) [
  | inl h ↦ rw h refl
  | inr h ↦
      let none_left : full - len ≡ 0 = ground (arith, h) in
      rw (h, none_left) (sym (append-nil body))
]

abbrev header_of : Chunk → List ℕ
header_of c = c.type ∷ c.flags ∷ (len_of c / 2 ^ 8 % 256) ∷ (len_of c % 256) ∷ []

add_chunk-parts :
    (c : Chunk)
    → Fits c
    → (buf : List ℕ)
    → add_chunk buf c.type c.flags c.value
      ≡ (((buf ++ (c.type ∷ [])) ++ (c.flags ∷ []))
          ++ (len_of c / 2 ^ 8 % 256 ∷ len_of c % 256 ∷ []))
        ++ c.value
        ++ replicate ((len_of c + 3) / 4 * 4 - len_of c) 0
unfolding add_chunk write_u8 write_u16
add_chunk-parts c fits buf =
    let len : (4 + length c.value) % 2 ^ 16 ≡ len_of c = let short = fits.short in omega arith in
    let kind : c.type % 256 ≡ c.type = let k = fits.kind in omega arith in
    let bits : c.flags % 256 ≡ c.flags = let b = fits.bits in omega arith in
    rw (len, kind, bits)
      (pad_if_any _ (len_of c) ((len_of c + 3) / 4 * 4)
        ∙ ap (λ body. body ++ replicate ((len_of c + 3) / 4 * 4 - len_of c) 0)
            (write_if_any _ c.value))

-- `addChunk` appends the chunk, its length and its padding.
pub add_chunk-encode :
    (c : Chunk) → Fits c → (buf : List ℕ) → add_chunk buf c.type c.flags c.value ≡ buf ++ encode c
add_chunk-encode c fits buf =
    let fill = replicate ((len_of c + 3) / 4 * 4 - len_of c) 0 in
    let len = len_of c / 2 ^ 8 % 256 ∷ len_of c % 256 ∷ [] in
    add_chunk-parts c fits buf
    ∙ append_assoc (((buf ++ (c.type ∷ [])) ++ (c.flags ∷ [])) ++ len) c.value fill
    ∙ append_assoc ((buf ++ (c.type ∷ [])) ++ (c.flags ∷ [])) len (padded c)
    ∙ append_assoc (buf ++ (c.type ∷ [])) (c.flags ∷ []) (len ++ padded c)
    ∙ append_assoc buf (c.type ∷ []) (c.flags ∷ (len ++ padded c))

module _ (c : Chunk) (rest : List ℕ) (pos : ℕ) where
  fill : List ℕ
  fill = replicate ((len_of c + 3) / 4 * 4 - len_of c) 0

  whole : length (padded c ++ rest) ≡ padded_skip (len_of c) + length rest
  whole = omega (arith, length-append (padded c) rest, length-padded c)

  taken : take (len_of c - 4) (padded c ++ rest) ≡ c.value
  unfolding fill
  taken =
      ap (take (len_of c - 4)) (append_assoc c.value fill rest)
      ∙ take-append c.value (fill ++ rest) (len_of c - 4) (omega arith)

  skipped :
      skip (min (padded_skip (len_of c)) (length (padded c ++ rest))) (at (padded c ++ rest) pos)
      ≡ some (tt, at rest (pos + padded_skip (len_of c)))
  unfolding skip
  skipped =
      let size = whole in
      let all : min (padded_skip (len_of c)) (length (padded c ++ rest)) ≡ padded_skip (len_of c) =
        omega arith in
      rw
        (
          all,
          ltb-false (length (padded c ++ rest)) (padded_skip (len_of c)) (omega arith),
          drop-append (padded c) rest (padded_skip (len_of c)) (sym (length-padded c)),
        )
        refl

  -- The value is taken, and the reader skips the padding.
  chunk_value-padded :
      chunk_value c.type c.flags (len_of c) (at (padded c ++ rest) pos)
      ≡ some (some c, at rest (pos + padded_skip (len_of c)))
  unfolding chunk_value
  chunk_value-padded =
      let size = whole in
      rw
        (
          ltb-false (len_of c) 4 (omega arith),
          ltb-false (length (padded c ++ rest)) (len_of c - 4) (omega arith),
          taken,
        )
        (>>=-some (skip (min (padded_skip (len_of c)) (length (padded c ++ rest)))) _
          (at (padded c ++ rest) pos) skipped)

-- A chunk that fits is read back, whatever follows, and the reader stands behind its padding.
pub read_chunk-encode :
    (c : Chunk)
    → Fits c
    → (rest : List ℕ) (pos : ℕ)
    → read_chunk (at (encode c ++ rest) pos)
      ≡ some (some c, at rest (pos + 1 + 1 + 2 + padded_skip (len_of c)))
unfolding read_chunk read_u8 read_u16
read_chunk-encode c fits rest pos =
    let len : len_of c / 2 ^ 8 % 256 * 2 ^ 8 + len_of c % 256 ≡ len_of c =
      let short = fits.short in omega arith in
    rw len (chunk_value-padded c rest (pos + 1 + 1 + 2))
