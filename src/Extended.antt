-- ===== src/Extended.antt =====
-- src/extended_value.cpp: 16-bit and 32-bit counters that roll over, extended to 64 bits. Times are
-- nanoseconds of the steady clock.
pub mod Recovery
mod Tests
use srtc.Common.{ℕ, ◌+◌, ◌-◌, ◌*◌, ◌/◌, ◌%◌, ◌^◌, Option, none, some, Bool, true, false, ◌&&◌}
use srtc.Common.{leb, ◌==◌, if◌then◌else◌}

-- `mRolloverBack`, one second.
abbrev pub rollover_back : ℕ
rollover_back = 1000000000

pub record ExtendedValue : Type 0 where
  pub rollover_increment : ℕ
  pub rollover_value : ℕ
  pub rollover_time : ℕ
  pub last_value : Option ℕ

-- `increment` is 2 ^ 16 or 2 ^ 32, the number of values of the type.
unfoldable pub new : ℕ → ExtendedValue
new increment = record {
  rollover_increment = increment;
  rollover_value = 0;
  rollover_time = 0;
  last_value = none;
}

-- The lazy initialisation.
unfoldable pub started : ExtendedValue → ℕ → ExtendedValue
started e now =
    if e.rollover_value == 0
    then record e { rollover_value = e.rollover_increment; rollover_time = now }
    else e

-- `extend` after it; the clock has not moved. The rollover value is a multiple of the increment, so
-- that `|` is a sum, and at least the increment, so that the subtraction is exact.
unfoldable pub extend_from : ExtendedValue → ℕ → ℕ → ℕ × ExtendedValue
extend_from e src now = elim e.last_value [
  | none ↦ (e.rollover_value + src, record e { last_value = some src })
  | some last ↦
      let max = e.rollover_increment - 1 in
      let margin = max / 4 in
      if leb (max - margin) last && leb src margin
      then (let value = (e.rollover_value + e.rollover_increment) % 2 ^ 64 in
          (
            value + src,
            record e { rollover_value = value; rollover_time = now; last_value = some src },
          ))
      else if leb last margin && leb (max - margin) src && leb now (e.rollover_time + rollover_back)
      then (e.rollover_value - e.rollover_increment + src, e)
      else (e.rollover_value + src, record e { last_value = some src })
]

unfoldable pub extend : ExtendedValue → ℕ → ℕ → ℕ × ExtendedValue
unfolding started extend_from
extend e src now = extend_from (started e now) src now

unfoldable get : ExtendedValue → Option ℕ
get e = elim e.last_value [ none ↦ none | some last ↦ some (e.rollover_value + last) ]
