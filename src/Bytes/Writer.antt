-- ===== src/Bytes/Writer.antt =====
-- `ByteWriter` of src/byte_buffer.cpp. A buffer is the list of its bytes here, which `Bytes.Growth` relates
-- to the block. A shift to the right is a division, and the cast to `uint8_t` is `% 256`.
use srtc.Common.{ℕ, zero, suc, ◌+◌, ◌/◌, ◌%◌, ◌^◌, List, [], ◌∷◌, ◌++◌, replicate}
use srtc.Common.{◌==◌, true, false}

unfoldable pub write : List ℕ → List ℕ → List ℕ
write buf value = buf ++ value

unfoldable pub padding : List ℕ → ℕ → ℕ → List ℕ
padding buf c size = buf ++ replicate size c

unfoldable pub write_u8 : List ℕ → ℕ → List ℕ
write_u8 buf value = buf ++ (value % 256 ∷ [])

unfoldable pub write_u16 : List ℕ → ℕ → List ℕ
write_u16 buf value = buf ++ (value / 2 ^ 8 % 256 ∷ value % 256 ∷ [])

unfoldable write_u24 : List ℕ → ℕ → List ℕ
write_u24 buf value = buf ++ (value / 2 ^ 16 % 256 ∷ value / 2 ^ 8 % 256 ∷ value % 256 ∷ [])

unfoldable pub write_u32 : List ℕ → ℕ → List ℕ
write_u32 buf value =
    buf ++ (value / 2 ^ 24 % 256 ∷ value / 2 ^ 16 % 256 ∷ value / 2 ^ 8 % 256 ∷ value % 256 ∷ [])

unfoldable write_u48 : List ℕ → ℕ → List ℕ
write_u48 buf value =
    buf
    ++ (value / 2 ^ 40 % 256
        ∷ value / 2 ^ 32 % 256
        ∷ value / 2 ^ 24 % 256
        ∷ value / 2 ^ 16 % 256
        ∷ value / 2 ^ 8 % 256
        ∷ value % 256
        ∷ [])

unfoldable pub write_u64 : List ℕ → ℕ → List ℕ
write_u64 buf value =
    buf
    ++ (value / 2 ^ 56 % 256
        ∷ value / 2 ^ 48 % 256
        ∷ value / 2 ^ 40 % 256
        ∷ value / 2 ^ 32 % 256
        ∷ value / 2 ^ 24 % 256
        ∷ value / 2 ^ 16 % 256
        ∷ value / 2 ^ 8 % 256
        ∷ value % 256
        ∷ [])

-- The `while (true)` of `writeLEB128`: each round takes seven bits, so that five rounds are enough
-- for a `uint32_t`. The mask keeps `0x80 | sevenBits` a sum.
unfoldable pub leb128_loop : ℕ → List ℕ → ℕ → List ℕ
leb128_loop zero buf remaining = buf
leb128_loop (suc fuel) buf remaining =
    let seven_bits = remaining % 128 in
    let rest = remaining / 2 ^ 7 in
    elim (rest == 0) [
      | true ↦ write_u8 buf seven_bits
      | false ↦ leb128_loop fuel (write_u8 buf (128 + seven_bits)) rest
    ]

unfoldable pub write_leb128 : List ℕ → ℕ → List ℕ
write_leb128 buf value = leb128_loop 5 buf value
