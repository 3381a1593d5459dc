-- ===== src/Jitter/Time.antt =====
-- The times of src/jitter_buffer.cpp: `diff_millis`, a signed 32-bit number of milliseconds, and when it
-- says that a time has come.
use srtc.Common.{ℕ, zero, suc, ◌+◌, ◌-◌, ◌/◌, ◌%◌, ◌^◌, Bool, true, false}
use srtc.Common.{ltb, leb, if◌then◌else◌}

pub data ℤ : Type 0 where
  pos : ℕ → ℤ
  negsuc : ℕ → ℤ

-- A count that is negated.
abbrev pub neg : ℕ → ℤ
neg zero = pos 0
neg (suc n) = negsuc n

-- A number that is kept in `w` bits, as a signed one.
abbrev pub to_signed : ℕ → ℕ → ℤ
to_signed w n = let m = n % 2 ^ w in if ltb m (2 ^ (w - 1)) then pos m else neg (2 ^ w - m)

-- `duration_cast` drops the fraction of a millisecond, on both sides of zero.
unfoldable pub diff_millis : ℕ → ℕ → ℤ
diff_millis when now =
    if leb now (when + 500000)
    then to_signed 32 ((when + 500000 - now) / 1000000)
    else to_signed 32 (2 ^ 32 - (now - (when + 500000)) / 1000000 % 2 ^ 32)

abbrev pub not_positive : ℤ → Bool
not_positive (pos zero) = true
not_positive (pos (suc n)) = false
not_positive (negsuc n) = true

abbrev pub less : ℤ → ℤ → Bool
less (pos a) (pos b) = ltb a b
less (pos a) (negsuc b) = false
less (negsuc a) (pos b) = true
less (negsuc a) (negsuc b) = ltb b a

-- `diff_millis(when, now) <= 0`
unfoldable pub is_due : ℕ → ℕ → Bool
unfolding diff_millis
is_due when now = not_positive (diff_millis when now)
