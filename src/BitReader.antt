-- ===== src/BitReader.antt =====
-- src/bit_reader.cpp: the bits of a buffer, the highest of each byte first.
use srtc.Common.{ℕ, zero, suc, ◌+◌, ◌-◌, ◌*◌, ◌/◌, ◌%◌, ◌^◌, List, length, get_or, leb, ◌==◌}
use srtc.Common.{if◌then◌else◌}

pub record BitReader : Type 0 where
  pub bytes : List ℕ
  pub bit_pos : ℕ

unfoldable pub bit_reader : List ℕ → BitReader
bit_reader bytes = record { bytes = bytes; bit_pos = 0 }

-- Past the end the bits are zero, and the position stays.
unfoldable pub read_bit : BitReader → ℕ × BitReader
read_bit r = if leb (length r.bytes) (r.bit_pos / 8) then (0, r) else (
  get_or r.bytes (r.bit_pos / 8) 0 / 2 ^ (7 - r.bit_pos % 8) % 2,
  record r { bit_pos = r.bit_pos + 1 },
)

unfoldable read_bits_from : ℕ → ℕ → BitReader → ℕ × BitReader
unfolding read_bit
read_bits_from zero value r = (value, r)
read_bits_from (suc n) value r =
    let (bit, r') = read_bit r in read_bits_from n ((value * 2 + bit) % 2 ^ 32) r'

unfoldable pub read_bits : ℕ → BitReader → ℕ × BitReader
unfolding read_bits_from
read_bits n r = read_bits_from n 0 r

-- The zeros before the first one, 32 at most. A round reads a bit, also the one that ends the loop.
unfoldable leading_zeros : ℕ → ℕ → BitReader → ℕ × BitReader
unfolding read_bit
leading_zeros zero count r = (count, (read_bit r).1)
leading_zeros (suc left) count r =
    let (bit, r') = read_bit r in
    let later = leading_zeros left (count + 1) r' in if bit == 0 then later else (count, r')

-- A shift by 32, which is undefined, gives 0 here.
unfoldable pub read_unsigned_exp_golomb : BitReader → ℕ × BitReader
unfolding leading_zeros read_bits
read_unsigned_exp_golomb r =
    let (count, r') = leading_zeros 32 0 r in
    if count == 0
    then (0, r')
    else (let (rest, r'') = read_bits count r' in ((2 ^ count + 2 ^ 32 - 1 + rest) % 2 ^ 32, r''))
