-- ===== src/Extended/Recovery.antt =====
-- `extend` of src/extended_value.cpp against the index that a counter stands for.
use srtc.Common.{
  ℕ, ◌+◌, ◌-◌, ◌*◌, ◌/◌, ◌%◌, ◌^◌, ◌≤◌, ◌<◌, ◌≡◌, ap₂, sym, subst, arith, some, ltb, if◌then◌else◌,
}
use srtc.Common.{◌⊎◌, inl, inr}
use native.Mathlib.Nat.{mod-eq_of_lt}
use srtc.Extended.{ExtendedValue, new, started, extend_from, extend, rollover_back}

-- A counter with `inc` values has seen `index` last; its first cycle starts at `inc`.
pub record Tracks (inc : ℕ) (e : ExtendedValue) (index : ℕ) : Type 0 where
  pub increment : e.rollover_increment ≡ inc
  pub cycle : e.rollover_value + index % inc ≡ inc + index
  pub last : e.last_value ≡ some (index % inc)

-- An index is near the last one if it is a quarter of the cycle away at most.
pub record IsNear (increment last index : ℕ) : Type 0 where
  pub ahead : index ≤ last + (increment - 1) / 4
  pub behind : last ≤ index + (increment - 1) / 4

abbrev state : ℕ → ℕ → ℕ → ℕ → ExtendedValue
state inc value time last = record {
  rollover_increment = inc;
  rollover_value = value;
  rollover_time = time;
  last_value = some last;
}

-- The highest index so far on the way over the end of a cycle and back.
abbrev pub seen : ℕ → ℕ → ℕ → ℕ
seen inc last index = if ltb (index / inc) (last / inc) then last else index

-- The numbers behind one step.
abbrev Step : ℕ → Type 0
Step inc =
    (value last index time now : ℕ)
    → value + last % inc ≡ inc + last
    → IsNear inc last index
    → index + 2 * inc < 2 ^ 64
    → (index / inc < last / inc → now ≤ time + rollover_back)
    → ((extend (state inc value time (last % inc)) (index % inc) now).0 ≡ inc + index)
      × Tracks inc (extend (state inc value time (last % inc)) (index % inc) now).1
          (seen inc last index)

step_16 : Step (2 ^ 16)
unfolding extend started extend_from
step_16 value last index time now cycle near room recent =
    let ahead = near.ahead in
    let behind = near.behind in
    (
      ground (arith, recent),
      record {
        increment = ground arith;
        cycle = ground (arith, recent);
        last = ground (arith, recent);
      },
    )

step_32 : Step (2 ^ 32)
unfolding extend started extend_from
step_32 value last index time now cycle near room recent =
    let ahead = near.ahead in
    let behind = near.behind in
    (
      ground (arith, recent),
      record {
        increment = ground arith;
        cycle = ground (arith, recent);
        last = ground (arith, recent);
      },
    )

module _ (inc : ℕ) (width : (inc ≡ 2 ^ 16) ⊎ (inc ≡ 2 ^ 32)) where
  step : Step inc
  step = elim width [ inl e ↦ subst Step (sym e) step_16 | inr e ↦ subst Step (sym e) step_32 ]

  -- Where a counter has seen the index `last`, `extend` recovers an index that lies a quarter of a cycle
  -- ahead or behind at most, if one behind the start of the cycle comes within a second of that start;
  -- the counter then has seen the new index, or still `last` if that is a cycle further.
  pub extend-Tracks :
      (e : ExtendedValue) (last index now : ℕ)
      → Tracks inc e last
      → IsNear inc last index
      → index + 2 * inc < 2 ^ 64
      → (index / inc < last / inc → now ≤ e.rollover_time + rollover_back)
      → ((extend e (index % inc) now).0 ≡ inc + index)
        × Tracks inc (extend e (index % inc) now).1 (seen inc last index)
  extend-Tracks e last index now tracks near room recent =
      let same : e ≡ state inc e.rollover_value e.rollover_time (last % inc) =
        ap₂ (λ i l. record e { rollover_increment = i; last_value = l }) tracks.increment
          tracks.last in
      subst
        (λ e.
          ((extend e (index % inc) now).0 ≡ inc + index)
          × Tracks inc (extend e (index % inc) now).1 (seen inc last index))
        (sym same)
        (step e.rollover_value last index e.rollover_time now tracks.cycle near room recent)

  -- A new counter starts in its first cycle.
  pub new-Tracks :
      (index now : ℕ)
      → index < inc
      → ((extend (new inc) index now).0 ≡ inc + index)
        × Tracks inc (extend (new inc) index now).1 index
  unfolding extend started extend_from new
  new-Tracks index now h = elim width [ inl e ↦ start (omega arith) | inr e ↦ start (omega arith) ]
    where
      start :
          0 < inc
          → ((extend (new inc) index now).0 ≡ inc + index)
            × Tracks inc (extend (new inc) index now).1 index
      start positive = (
        ground arith,
        record {
          increment = ground arith;
          cycle = ground (arith, mod-eq_of_lt h);
          last = ground (arith, mod-eq_of_lt h);
        },
      )
