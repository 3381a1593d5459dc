-- ===== src/Common/Bits.antt =====
-- Facts about masks on bytes, each checked over every value of the byte by evaluation.
use Prim.Native.Nat.{ℕ, zero, suc, ◌-◌, ◌^◌, ◌<◌, bit_and, bit_or}
use mathlib.Core.Path.{◌≡◌, refl}
use mathlib.Core.Bool.{Bool, true, false, not, ◌&&◌, ◌||◌}
use native.Mathlib.Omega.{arith}
use srtc.Common.Tests.{◌==◌, ltb, ltb→lt}

-- `test` on the numbers from `n - 1` down to 0.
passes : (ℕ → Bool) → ℕ → Bool
passes test zero = true
passes test (suc n) = passes test n && test n

passes_lem : (test : ℕ → Bool) (n i : ℕ) → i < n → passes test n ≡ true → test i ≡ true
unfolding passes
passes_lem test zero i lt done = absurd (omega arith)
passes_lem test (suc n) i lt done = ground (arith, passes_lem test n i)

abbrev iff : Bool → Bool → Bool
iff true b = b
iff false b = not b

iff→eq : (a b : Bool) → iff a b ≡ true → a ≡ b
iff→eq true b h = ground arith
iff→eq false b h = ground arith

-- `(b & (1 << s)) != 0`, `b | (1 << s)` and `b & ~(1 << s)` on a byte
abbrev pub test_bit : ℕ → ℕ → Bool
test_bit b s = not (bit_and b (2 ^ s) == 0)

abbrev pub set_bit : ℕ → ℕ → ℕ
set_bit b s = bit_or b (2 ^ s)

abbrev pub clear_bit : ℕ → ℕ → ℕ
clear_bit b s = bit_and b (255 - 2 ^ s)

-- A table over a byte and two shifts.
module _ (p : ℕ → ℕ → ℕ → Bool) where
  table : Bool
  table = passes (λ b. passes (λ s. passes (λ t. p b s t) 8) 8) 256

  table_sound : table ≡ true → (b s t : ℕ) → b < 256 → s < 8 → t < 8 → p b s t ≡ true
  unfolding table
  table_sound h b s t hb hs ht = passes_lem _ 8 t ht (passes_lem _ 8 s hs (passes_lem _ 256 b hb h))

set_table : table (λ b s t. iff (test_bit (set_bit b s) t) (s == t || test_bit b t)) ≡ true
unfolding table passes
set_table = refl

clear_table :
    table (λ b s t. iff (test_bit (clear_bit b s) t) (not (s == t) && test_bit b t)) ≡ true
unfolding table passes
clear_table = refl

range_table : table (λ b s t. ltb (set_bit b s) 256 && ltb (clear_bit b s) 256) ≡ true
unfolding table passes
range_table = refl

pub test_bit-set_bit :
    (b s t : ℕ) → b < 256 → s < 8 → t < 8 → test_bit (set_bit b s) t ≡ (s == t || test_bit b t)
test_bit-set_bit b s t hb hs ht = iff→eq _ _ (table_sound _ set_table b s t hb hs ht)

pub test_bit-clear_bit :
    (b s t : ℕ)
    → b < 256
    → s < 8
    → t < 8
    → test_bit (clear_bit b s) t ≡ (not (s == t) && test_bit b t)
test_bit-clear_bit b s t hb hs ht = iff→eq _ _ (table_sound _ clear_table b s t hb hs ht)

and_left : (a b : Bool) → (a && b) ≡ true → (a ≡ true) × (b ≡ true)
and_left true b h = (refl, h)
and_left false b h = ground arith

pub set_bit-lt : (b s : ℕ) → b < 256 → s < 8 → set_bit b s < 256
set_bit-lt b s hb hs =
    ltb→lt _ _ (and_left _ _ (table_sound _ range_table b s 0 hb hs (omega arith))).0

pub clear_bit-lt : (b s : ℕ) → b < 256 → s < 8 → clear_bit b s < 256
clear_bit-lt b s hb hs =
    ltb→lt _ _ (and_left _ _ (table_sound _ range_table b s 0 hb hs (omega arith))).1

no_bit_table : table (λ b s t. not (test_bit 0 s)) ≡ true
unfolding table passes
no_bit_table = refl

not→false : (b : Bool) → not b ≡ true → b ≡ false
not→false b h = ground arith

pub no_bit : (s : ℕ) → s < 8 → test_bit 0 s ≡ false
no_bit s h = not→false _ (table_sound _ no_bit_table 0 s 0 (omega arith) h (omega arith))
