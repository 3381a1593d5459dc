-- ===== src/Bytes/Tests.antt =====
-- The buffer, the writer and the reader at concrete inputs.
use srtc.Common.{ℕ, ◌+◌, ◌≡◌, refl, List, [], ◌∷◌, ◌++◌, arith, some, length, replicate, true}
use srtc.Common.{length-replicate, ◌↔◌}
use srtc.Bytes.Buffer
use srtc.Bytes.Buffer.{ByteBuffer, contents}
use srtc.Bytes.Growth.{IsValid, append_lem, padding_lem, equals_iff, append_buffer_lem}
use srtc.Bytes.Writer.{write_u16, write_u32, write_u64, write_leb128, leb128_loop, write_u8}
use srtc.Bytes.Reader.{read_u16, read_u32, read_u64, read_leb128}
use srtc.Bytes.RoundTrip.{
  at, read_u16-write_u16, read_u32-write_u32, read_u64-write_u64, read_leb128-write_leb128,
}

leb128_bytes : write_leb128 [] 300 ≡ 172 ∷ 2 ∷ []
unfolding write_leb128 leb128_loop write_u8
leb128_bytes = refl

read_u16-write_u16_example :
    read_u16 (at (write_u16 [] 0xabcd ++ (7 ∷ [])) 0) ≡ some (0xabcd, at (7 ∷ []) (0 + 2))
read_u16-write_u16_example = read_u16-write_u16 0xabcd 0 (7 ∷ []) (omega arith)

read_u32-write_u32_example :
    read_u32 (at (write_u32 [] 0xdeadbeef ++ (7 ∷ [])) 3) ≡ some (0xdeadbeef, at (7 ∷ []) (3 + 4))
read_u32-write_u32_example = read_u32-write_u32 0xdeadbeef 3 (7 ∷ []) (omega arith)

read_u64-write_u64_example :
    read_u64 (at (write_u64 [] 0xdeadbeef01 ++ (7 ∷ [])) 3)
    ≡ some (0xdeadbeef01, at (7 ∷ []) (3 + 8))
read_u64-write_u64_example = read_u64-write_u64 0xdeadbeef01 3 (7 ∷ []) (omega arith)

read_leb128-write_leb128_example :
    read_leb128 (at (write_leb128 [] 300 ++ (9 ∷ [])) 0)
    ≡ (300, at (9 ∷ []) (0 + length (write_leb128 [] 300)))
read_leb128-write_leb128_example = read_leb128-write_leb128 300 0 (9 ∷ []) (omega arith)

-- New memory is full of 0xcd here.
abbrev fresh : ℕ → List ℕ
fresh n = replicate n 0xcd

fresh_size : (n : ℕ) → length (fresh n) ≡ n
fresh_size n = length-replicate n 0xcd

abbrev two_bytes : ByteBuffer
two_bytes = record { mem = 1 ∷ 2 ∷ 3 ∷ []; len = 2 }

append_lem_example :
    (contents (Buffer.append fresh two_bytes (8 ∷ 9 ∷ [])) ≡ contents two_bytes ++ (8 ∷ 9 ∷ []))
    × IsValid (Buffer.append fresh two_bytes (8 ∷ 9 ∷ []))
append_lem_example = append_lem fresh fresh_size two_bytes (8 ∷ 9 ∷ []) (omega arith)

append_buffer_lem_example :
    (contents (Buffer.append_buffer fresh two_bytes two_bytes)
      ≡ contents two_bytes ++ contents two_bytes)
    × IsValid (Buffer.append_buffer fresh two_bytes two_bytes)
append_buffer_lem_example =
    append_buffer_lem fresh fresh_size two_bytes two_bytes (omega arith) (omega arith)

padding_lem_example :
    (contents (Buffer.padding fresh two_bytes 0 5) ≡ contents two_bytes ++ replicate 5 0)
    × IsValid (Buffer.padding fresh two_bytes 0 5)
padding_lem_example = padding_lem fresh fresh_size two_bytes 0 5 (omega arith)

equals_iff_example :
    (Buffer.equals two_bytes (record two_bytes { mem = 1 ∷ 2 ∷ [] }) ≡ true)
    ↔ (contents two_bytes ≡ 1 ∷ 2 ∷ [])
equals_iff_example =
    equals_iff two_bytes (record two_bytes { mem = 1 ∷ 2 ∷ [] }) (omega arith) (omega arith)
