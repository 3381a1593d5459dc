-- ===== src/Bytes/RoundTrip.antt =====
-- `ByteWriter` and `ByteReader` of src/byte_buffer.cpp, one after the other.
use srtc.Common.{ℕ, zero, suc, ◌+◌, ◌*◌, ◌/◌, ◌%◌, ◌^◌, ◌≤◌, ◌<◌, ◌≡◌, ap, ap₂, List, [], ◌∷◌, ◌++◌}
use srtc.Common.{some, arith, length, append_assoc, ◌==◌, sym, ◌∙◌, append-nil, true, false}
use native.Mathlib.Decide.{dec_lt}
use native.Mathlib.Nat.{div-add-mod, pow-suc}
use native.Mathlib.Numerals.{towards_suc}
use srtc.Bytes.Writer.{write_u8, write_u16, write_u32, write_u64, write_leb128, leb128_loop}
use srtc.Bytes.Reader.{ByteReader, read_u16, read_u32, read_u64, read_leb128, leb128_from}

abbrev pub at : List ℕ → ℕ → ByteReader
at rest pos = record { rest = rest; pos = pos }

-- A `uint16_t` that is written to an empty buffer is read back, and the reader stands at what follows.
pub read_u16-write_u16 :
    (v pos : ℕ) (rest : List ℕ)
    → v < 2 ^ 16
    → read_u16 (at (write_u16 [] v ++ rest) pos) ≡ some (v, at rest (pos + 2))
unfolding read_u16 write_u16
read_u16-write_u16 v pos rest h = ap (λ (n : ℕ). some (n, at rest (pos + 2))) (omega arith)

-- A `uint32_t` that is written to an empty buffer is read back, and the reader stands at what follows.
pub read_u32-write_u32 :
    (v pos : ℕ) (rest : List ℕ)
    → v < 2 ^ 32
    → read_u32 (at (write_u32 [] v ++ rest) pos) ≡ some (v, at rest (pos + 4))
unfolding read_u32 write_u32
read_u32-write_u32 v pos rest h = ap (λ (n : ℕ). some (n, at rest (pos + 4))) (omega arith)

-- A `uint64_t` that is written to an empty buffer is read back, and the reader stands at what follows.
pub read_u64-write_u64 :
    (v pos : ℕ) (rest : List ℕ)
    → v < 2 ^ 64
    → read_u64 (at (write_u64 [] v ++ rest) pos) ≡ some (v, at rest (pos + 8))
unfolding read_u64 write_u64
read_u64-write_u64 v pos rest h = ap (λ (n : ℕ). some (n, at rest (pos + 8))) (omega arith)

fits_u32 : (n : ℕ) → n < 2 ^ 32 → n % 2 ^ 32 ≡ n
fits_u32 n h = omega arith

-- LEB128, one round of the writer's loop: the last group, and a group that more follow.
loop_last : (fuel v : ℕ) (buf : List ℕ) → v < 128 → leb128_loop (suc fuel) buf v ≡ buf ++ (v ∷ [])
unfolding leb128_loop write_u8
loop_last fuel v buf h =
    rw (zero_test (v / 2 ^ 7) (omega arith), leb128_loop)
      (ap (λ (n : ℕ). buf ++ (n ∷ [])) (omega arith))
  where
    zero_test : (n : ℕ) → n ≡ 0 → (n == 0) ≡ true
    zero_test n h = ground arith

loop_more :
    (fuel v : ℕ) (buf : List ℕ)
    → 128 ≤ v
    → leb128_loop (suc fuel) buf v ≡ leb128_loop fuel (buf ++ ((128 + v % 128) ∷ [])) (v / 2 ^ 7)
unfolding leb128_loop write_u8
loop_more fuel v buf h =
    rw (nonzero_test (v / 2 ^ 7) (omega arith), leb128_loop)
      (ap (λ (n : ℕ). leb128_loop fuel (buf ++ (n ∷ [])) (v / 2 ^ 7)) (omega arith))
  where
    nonzero_test : (n : ℕ) → 0 < n → (n == 0) ≡ false
    nonzero_test n h = ground arith

leb128_loop-append :
    (fuel : ℕ) (buf : List ℕ) (v : ℕ) → leb128_loop fuel buf v ≡ buf ++ leb128_loop fuel [] v
leb128_loop-append zero buf v = unfold leb128_loop in sym (append-nil buf)
leb128_loop-append (suc fuel) buf v = elim (dec_lt v 128) [
  | yes h ↦ rw (loop_last fuel v buf h, loop_last fuel v [] h)
  | no h ↦
      rw (loop_more fuel v buf (omega arith), loop_more fuel v [] (omega arith))
        (leb128_loop-append fuel (buf ++ ((128 + v % 128) ∷ [])) (v / 2 ^ 7)
          ∙ append_assoc buf ((128 + v % 128) ∷ []) _
          ∙ ap (◌++◌ buf) (sym (leb128_loop-append fuel ((128 + v % 128) ∷ []) (v / 2 ^ 7))))
]

-- One round of the reader's loop.
from_last :
    (b pos acc shift : ℕ) (rest : List ℕ)
    → b < 128
    → b * 2 ^ shift < 2 ^ 32
    → leb128_from (b ∷ rest) pos acc shift ≡ (acc + b * 2 ^ shift, at rest (pos + 1))
unfolding leb128_from
from_last b pos acc shift rest small fits =
    let e : b % 128 ≡ b = omega arith in ground (arith, fits_u32 (b * 2 ^ shift), e)

from_more :
    (g pos acc shift : ℕ) (rest : List ℕ)
    → g < 128
    → shift + 7 < 32
    → g * 2 ^ shift < 2 ^ 32
    → leb128_from ((128 + g) ∷ rest) pos acc shift
      ≡ leb128_from rest (pos + 1) (acc + g * 2 ^ shift) (shift + 7)
unfolding leb128_from
from_more g pos acc shift rest small early fits =
    let e : (128 + g) % 128 ≡ g = omega arith in ground (arith, fits_u32 (g * 2 ^ shift), e)

shift_seven : (shift : ℕ) → 2 ^ (shift + 7) ≡ 128 * 2 ^ shift
shift_seven shift = simp towards_suc (omega arith)

-- The value below the shift and the groups above it.
split_value : (v shift : ℕ) → v * 2 ^ shift ≡ v % 128 * 2 ^ shift + v / 2 ^ 7 * 2 ^ (shift + 7)
split_value v shift = omega (
  arith,
  ap (λ (t : ℕ). v / 2 ^ 7 * t) (shift_seven shift),
  ap (λ (t : ℕ). t * 2 ^ shift) (div-add-mod v 128),
)

shrink : (fuel v : ℕ) → v < 128 ^ suc (suc fuel) → v / 2 ^ 7 < 128 ^ suc fuel
shrink fuel v h = omega (arith, pow-suc 128 (suc fuel))

leb128_from-loop :
    (fuel v pos acc shift : ℕ) (rest : List ℕ)
    → shift + 7 * fuel ≡ 28
    → v < 128 ^ suc fuel
    → v * 2 ^ shift < 2 ^ 32
    → leb128_from (leb128_loop (suc fuel) [] v ++ rest) pos acc shift
      ≡ (acc + v * 2 ^ shift, at rest (pos + length (leb128_loop (suc fuel) [] v)))
leb128_from-loop zero v pos acc shift rest e h fits =
    rw (loop_last zero v [] (omega arith)) (from_last v pos acc shift rest (omega arith) fits)
leb128_from-loop (suc fuel) v pos acc shift rest e h fits = elim (dec_lt v 128) [
  | yes small ↦ rw (loop_last (suc fuel) v [] small) (from_last v pos acc shift rest small fits)
  | no big ↦
      let g : ℕ = v % 128 in
      let w : ℕ = v / 2 ^ 7 in
      rw
        (
          loop_more (suc fuel) v [] (omega arith),
          leb128_loop-append (suc fuel) ((128 + v % 128) ∷ []) (v / 2 ^ 7),
        )
        (from_more g pos acc shift (leb128_loop (suc fuel) [] w ++ rest) (omega arith) (omega arith)
            (omega (arith, split_value v shift))
          ∙ leb128_from-loop fuel w (pos + 1) (acc + g * 2 ^ shift) (shift + 7) rest (omega arith)
              (shrink fuel v h) (omega (arith, split_value v shift))
          ∙ ap₂ (λ (n p : ℕ). (n, at rest p)) (omega (arith, split_value v shift)) (omega arith))
]

-- Every `uint32_t` that `writeLEB128` writes to an empty buffer is read back, whatever follows, and the
-- reader stands behind its bytes.
pub read_leb128-write_leb128 :
    (v pos : ℕ) (rest : List ℕ)
    → v < 2 ^ 32
    → read_leb128 (at (write_leb128 [] v ++ rest) pos)
      ≡ (v, at rest (pos + length (write_leb128 [] v)))
unfolding read_leb128 write_leb128
read_leb128-write_leb128 v pos rest h =
    leb128_from-loop 4 v pos 0 0 rest (omega arith) (omega arith) (omega arith)
    ∙ ap (λ (n : ℕ). (n, at rest (pos + length (leb128_loop 5 [] v)))) (omega arith)
