-- ===== src/Sctp/Packet/Total.antt =====
-- The parser of src/sctp/sctp_packet.cpp on any bytes: its reads and its loop.
use srtc.Common.{
  ℕ, zero, suc, ◌+◌, ◌-◌, ◌*◌, ◌^◌, ◌≤◌, ◌<◌, ◌≡◌, refl, subst, min, List, [], ◌∷◌, ◌++◌, Option,
  none, some,
}
use srtc.Common.{
  arith, true, false, ltb, ltb-false, ◌==◌, length, get_or, take, drop, length-drop, ◌⊎◌, inl, inr,
  Bool-cases, ◌||◌,
}
use srtc.Bytes.Reader.{ByteReader, reader, read_u8, read_u16, read_u32, skip, remaining, >>=-some}
use srtc.Bytes.RoundTrip.{at}
use srtc.Sctp.Packet.{
  Chunk, SctpPacket, padded_skip, chunk_value, read_chunk, parse_chunks, read_header, assemble,
  parse_body, parse,
}

pub skip_in_range :
    (size : ℕ) (r : ByteReader)
    → size ≤ remaining r
    → skip size r ≡ some (tt, at (drop size r.rest) (r.pos + size))
unfolding skip
skip_in_range size r h = rw (ltb-false (remaining r) size h) refl

-- What reading a chunk gives: none, or one, with fewer bytes left.
Reads : ℕ → Option (Option Chunk × ByteReader) → Type 0
Reads size answer =
    ((r' : ByteReader) × (answer ≡ some (none, r')))
    ⊎ ((c : Chunk) × (r' : ByteReader) × (answer ≡ some (some c, r')) × (remaining r' ≤ size))

chunk_value-Reads :
    (type flags len : ℕ) (r : ByteReader) → Reads (remaining r) (chunk_value type flags len r)
unfolding chunk_value Reads
chunk_value-Reads type flags len r = elim (Bool-cases (ltb len 4 || ltb (remaining r) (len - 4))) [
  | inl h ↦ inl (r, rw h refl)
  | inr h ↦
      let size = min (padded_skip len) (remaining r) in
      inr (
        record { type = type; flags = flags; value = take (len - 4) r.rest },
        at (drop size r.rest) (r.pos + size),
        rw h (>>=-some (skip size) _ r (skip_in_range size r (omega arith))),
        omega (arith, length-drop size r.rest),
      )
]

read_chunk-Reads :
    (rest : List ℕ) (pos : ℕ) → 4 ≤ length rest → Reads (length rest - 4) (read_chunk (at rest pos))
unfolding read_chunk read_u8 read_u16
read_chunk-Reads [] pos h = absurd (omega arith)
read_chunk-Reads (a ∷ []) pos h = absurd (omega arith)
read_chunk-Reads (a ∷ b ∷ []) pos h = absurd (omega arith)
read_chunk-Reads (a ∷ b ∷ c ∷ []) pos h = absurd (omega arith)
read_chunk-Reads (a ∷ b ∷ c ∷ d ∷ rest) pos h =
    subst (λ n. Reads n (chunk_value a b (c * 2 ^ 8 + d) (at rest (pos + 1 + 1 + 2)))) (omega arith)
      (chunk_value-Reads a b (c * 2 ^ 8 + d) (at rest (pos + 1 + 1 + 2)))

Answers : Option (Option (List Chunk)) → Type 0
Answers answer = (found : Option (List Chunk)) × (answer ≡ some found)

loop_ends :
    (fuel : ℕ) (r : ByteReader) → ltb (remaining r) 4 ≡ true → Answers (parse_chunks (suc fuel) r)
unfolding parse_chunks Answers
loop_ends fuel r h = (some [], rw (h, parse_chunks) refl)

loop_stops :
    (fuel : ℕ) (r r' : ByteReader)
    → ltb (remaining r) 4 ≡ false
    → read_chunk r ≡ some (none, r')
    → Answers (parse_chunks (suc fuel) r)
unfolding parse_chunks Answers
loop_stops fuel r r' h read = (none, rw (h, read, parse_chunks) refl)

loop_goes_on :
    (fuel : ℕ) (r r' : ByteReader) (c : Chunk)
    → ltb (remaining r) 4 ≡ false
    → read_chunk r ≡ some (some c, r')
    → Answers (parse_chunks fuel r')
    → Answers (parse_chunks (suc fuel) r)
unfolding parse_chunks Answers
loop_goes_on fuel r r' c h read (none, e) = (none, rw (h, read, e, parse_chunks) refl)
loop_goes_on fuel r r' c h read (some cs, e) = (some (c ∷ cs), rw (h, read, e, parse_chunks) refl)

parse_chunks-Answers :
    (fuel : ℕ) (r : ByteReader) → remaining r < fuel → Answers (parse_chunks fuel r)
unfolding Reads
parse_chunks-Answers zero r h = absurd (omega arith)
parse_chunks-Answers (suc fuel) r h = elim (Bool-cases (ltb (remaining r) 4)) [
  | inl e ↦ loop_ends fuel r e
  | inr e ↦ elim (read_chunk-Reads r.rest r.pos (ground (arith, e))) [
    | inl (r', read) ↦ loop_stops fuel r r' e read
    | inr (c, r', read, less) ↦ loop_goes_on fuel r r' c e read (
        parse_chunks-Answers fuel r' (let big : 4 ≤ remaining r = ground (arith, e) in omega arith))
  ]
]

header_read :
    (bytes : List ℕ)
    → 12 ≤ length bytes
    → (header : ℕ × ℕ × ℕ) × (read_header (reader bytes) ≡ some (header, at (drop 12 bytes) 12))
unfolding read_header read_u16 read_u32 reader
header_read (a ∷ b ∷ c ∷ d ∷ e ∷ f ∷ g ∷ h ∷ i ∷ j ∷ k ∷ l ∷ rest) long = (
  (a * 2 ^ 8 + b, c * 2 ^ 8 + d, e * 2 ^ 24 + f * 2 ^ 16 + g * 2 ^ 8 + h),
  >>=-some (skip 4) _ (at (i ∷ j ∷ k ∷ l ∷ rest) 8)
      (skip_in_range 4 (at (i ∷ j ∷ k ∷ l ∷ rest) 8) (omega arith)),
)
header_read _ long = absurd (omega arith)

assembled :
    (header : ℕ × ℕ × ℕ) (answer : Option (Option (List Chunk)))
    → Answers answer
    → (found : Option SctpPacket) × (assemble header answer ≡ some found)
unfolding assemble Answers
assembled header answer (none, e) = (none, rw (e, assemble) refl)
assembled (src, dst, tag) answer (some cs, e) = (
  some (record { src_port = src; dst_port = dst; verification_tag = tag; chunks = cs }),
  rw (e, assemble) refl,
)

body_answers :
    (bytes : List ℕ)
    → 12 ≤ length bytes
    → (found : Option SctpPacket) × (parse_body bytes ≡ some found)
unfolding parse_body
body_answers bytes long =
    let (header, read) = header_read bytes long in
    let (found, e) = assembled header _ (
      parse_chunks-Answers (length bytes) (at (drop 12 bytes) 12)
        (omega (arith, length-drop 12 bytes))) in
    (found, rw (read, e, parse_body) refl)

-- `parse` answers on every sequence of bytes, whatever the checksum function: no read goes past the end,
-- and its loop ends.
pub parse_answers :
    (crc32c : List ℕ → ℕ) (bytes : List ℕ)
    → (found : Option SctpPacket) × (parse crc32c bytes ≡ some found)
unfolding parse
parse_answers crc32c bytes = elim (Bool-cases (ltb (length bytes) 12)) [
  | inl short ↦ (none, rw (short, parse) refl)
  | inr long ↦
      elim (Bool-cases (
        crc32c (take 8 bytes ++ (0 ∷ 0 ∷ 0 ∷ 0 ∷ drop 12 bytes))
        == get_or bytes 8 0
          + get_or bytes 9 0 * 2 ^ 8
          + get_or bytes 10 0 * 2 ^ 16
          + get_or bytes 11 0 * 2 ^ 24)) [
            | inl same ↦
                let (found, e) = body_answers bytes (ground (arith, long)) in
                (found, rw (long, same, e, parse) refl)
            | inr other ↦ (none, rw (long, other, parse) refl)
          ]
]
