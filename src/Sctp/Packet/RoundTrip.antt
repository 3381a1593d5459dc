-- ===== src/Sctp/Packet/RoundTrip.antt =====
-- src/sctp/sctp_packet_builder.cpp and the parser of src/sctp/sctp_packet.cpp, one after the other.
use srtc.Common.{
  ℕ, zero, suc, ◌+◌, ◌*◌, ◌/◌, ◌%◌, ◌^◌, ◌<◌, ◌≡◌, refl, ap, sym, ◌∙◌, List, [], ◌∷◌, ◌++◌, some,
}
use srtc.Common.{
  arith, true, false, All, ltb, ltb-false, ==_true, ◌==◌, length, append_assoc, append-nil,
  length-append,
}
use srtc.Bytes.Writer.{write_u16, write_u32}
use srtc.Bytes.Reader.{ByteReader, reader, read_u16, read_u32, skip, remaining, >>=-some}
use srtc.Bytes.RoundTrip.{at}
use srtc.Sctp.Packet.{
  Chunk, new_builder, add_chunk, read_chunk, parse_chunks, read_header, assemble, parse_body, build,
  parse,
}
use srtc.Sctp.Packet.Chunks.{Fits, encode, padded, add_chunk-encode, read_chunk-encode}

abbrev encode_all : List Chunk → List ℕ
encode_all [] = []
encode_all (c ∷ cs) = encode c ++ encode_all cs

-- The chunks that a sender adds, one after another.
abbrev pub add_chunks : List ℕ → List Chunk → List ℕ
add_chunks buf [] = buf
add_chunks buf (c ∷ cs) = add_chunks (add_chunk buf c.type c.flags c.value) cs

add_chunks-encode_all :
    (cs : List Chunk) (buf : List ℕ) → All Fits cs → add_chunks buf cs ≡ buf ++ encode_all cs
add_chunks-encode_all [] buf fits = sym (append-nil buf)
add_chunks-encode_all (c ∷ cs) buf (fit, fits) =
    ap (λ b. add_chunks b cs) (add_chunk-encode c fit buf)
    ∙ add_chunks-encode_all cs (buf ++ encode c) fits
    ∙ append_assoc buf (encode c) (encode_all cs)

parse_chunks-step :
    (fuel : ℕ) (r : ByteReader) {r' : ByteReader} (c : Chunk) {cs : List Chunk}
    → ltb (remaining r) 4 ≡ false
    → read_chunk r ≡ some (some c, r')
    → parse_chunks fuel r' ≡ some (some cs)
    → parse_chunks (suc fuel) r ≡ some (some (c ∷ cs))
unfolding parse_chunks
parse_chunks-step fuel r c long read more = rw (long, read, more, parse_chunks) refl

u16_bytes : (v : ℕ) → v < 2 ^ 16 → v / 2 ^ 8 % 256 * 2 ^ 8 + v % 256 ≡ v
u16_bytes v h = omega arith

u32_bytes :
    (v : ℕ)
    → v < 2 ^ 32
    → v / 2 ^ 24 % 256 * 2 ^ 24 + v / 2 ^ 16 % 256 * 2 ^ 16 + v / 2 ^ 8 % 256 * 2 ^ 8 + v % 256 ≡ v
u32_bytes v h = omega arith

parse_chunks-encode_all :
    (cs : List Chunk) (fuel pos : ℕ)
    → All Fits cs
    → length (encode_all cs) < fuel
    → parse_chunks fuel (at (encode_all cs) pos) ≡ some (some cs)
parse_chunks-encode_all [] zero pos fits h = absurd (omega arith)
parse_chunks-encode_all [] (suc fuel) pos fits h = unfold parse_chunks in refl
parse_chunks-encode_all (c ∷ cs) zero pos fits h = absurd (omega arith)
parse_chunks-encode_all (c ∷ cs) (suc fuel) pos (fit, fits) h =
    parse_chunks-step fuel (at (encode c ++ encode_all cs) pos) c
      (ltb-false (length (encode c ++ encode_all cs)) 4 (omega arith))
      (read_chunk-encode c fit (encode_all cs) pos)
      (parse_chunks-encode_all cs fuel _ fits
        (omega (arith, length-append (padded c) (encode_all cs))))

skip_four :
    (a b c d pos : ℕ) (rest : List ℕ)
    → skip 4 (at (a ∷ b ∷ c ∷ d ∷ rest) pos) ≡ some (tt, at rest (pos + 4))
unfolding skip
skip_four a b c d pos rest =
    rw (ltb-false (suc (suc (suc (suc (length rest))))) 4 (omega arith)) refl

checksum_test :
    (x : ℕ)
    → x < 2 ^ 32
    → (x
        == x % 256
          + x / 2 ^ 8 % 256 * 2 ^ 8
          + x / 2 ^ 16 % 256 * 2 ^ 16
          + x / 2 ^ 24 % 256 * 2 ^ 24)
      ≡ true
checksum_test x h = ==_true _ _ (omega arith)

module _ (src_port dst_port tag : ℕ) (src : src_port < 2 ^ 16) (dst : dst_port < 2 ^ 16)
    (t : tag < 2 ^ 32) where
  -- The twelve bytes in front, with the four of the checksum.
  abbrev front : ℕ → ℕ → ℕ → ℕ → List ℕ → List ℕ
  front a b c d rest =
      src_port / 2 ^ 8 % 256
      ∷ src_port % 256
      ∷ dst_port / 2 ^ 8 % 256
      ∷ dst_port % 256
      ∷ tag / 2 ^ 24 % 256
      ∷ tag / 2 ^ 16 % 256
      ∷ tag / 2 ^ 8 % 256
      ∷ tag % 256
      ∷ a
      ∷ b
      ∷ c
      ∷ d
      ∷ rest

  read_header-front :
      (a b c d : ℕ) (rest : List ℕ)
      → read_header (at (front a b c d rest) 0) ≡ some ((src_port, dst_port, tag), at rest 12)
  unfolding read_header read_u16 read_u32
  read_header-front a b c d rest =
      rw (u16_bytes src_port src, u16_bytes dst_port dst, u32_bytes tag t)
        (>>=-some (skip 4) _ (at (a ∷ b ∷ c ∷ d ∷ rest) 8) (skip_four a b c d 8 rest))

  parse_body-front :
      (cs : List Chunk) (a b c d : ℕ)
      → All Fits cs
      → parse_body (front a b c d (encode_all cs))
        ≡ some (
            some (record {
              src_port = src_port;
              dst_port = dst_port;
              verification_tag = tag;
              chunks = cs;
            }))
  unfolding parse_body reader assemble
  parse_body-front cs a b c d fits =
      rw
        (
          read_header-front a b c d (encode_all cs),
          parse_chunks-encode_all cs (length (front a b c d (encode_all cs))) 12 fits (omega arith),
          parse_body,
        )
        refl

  module _ (crc32c : List ℕ → ℕ) (bounded : (bytes : List ℕ) → crc32c bytes < 2 ^ 32) where
    -- A packet that was built from chunks that fit, with a checksum of 32 bits, parses to its ports, its
    -- tag and its chunks.
    pub parse-build :
        (cs : List Chunk)
        → All Fits cs
        → parse crc32c (build crc32c (add_chunks (new_builder src_port dst_port tag) cs))
          ≡ some (
              some (record {
                src_port = src_port;
                dst_port = dst_port;
                verification_tag = tag;
                chunks = cs;
              }))
    unfolding parse build new_builder write_u16 write_u32
    parse-build cs fits =
        let crc = crc32c (front 0 0 0 0 (encode_all cs)) in
        rw (add_chunks-encode_all cs (new_builder src_port dst_port tag) fits) (
          rw
            (
              ltb-false
                  (length (
                    front (crc % 256) (crc / 2 ^ 8 % 256) (crc / 2 ^ 16 % 256) (crc / 2 ^ 24 % 256)
                      (encode_all cs)))
                  12 (omega arith),
              checksum_test crc (bounded _),
            )
            (parse_body-front cs _ _ _ _ fits))
