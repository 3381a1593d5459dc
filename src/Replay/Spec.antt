-- ===== src/Replay/Spec.antt =====
-- The replay window of src/replay_protection.cpp with no bitmap: the highest index of the current cycle and
-- the set of the indices of that cycle that were accepted.
use srtc.Common.{ℕ, ◌+◌, ◌-◌, ◌/◌, Bool, false, not, ◌&&◌, ◌||◌, ltb, leb, ◌==◌}
use srtc.Common.{if◌then◌else◌, List, [], ◌∷◌}

pub record Window : Type 0 where
  pub cur : ℕ
  pub received : ℕ → Bool

module _ (mask size : ℕ) where
  -- The two ways to move forward, within a quarter of the window: in the cycle, or past its end.
  unfoldable pub moves_on : Window → ℕ → Bool
  moves_on w v = ltb w.cur v && leb (v - w.cur) (size / 4)

  unfoldable pub rolls_over : Window → ℕ → Bool
  rolls_over w v = ltb v w.cur && leb (mask - w.cur + 1 + v) (size / 4)

  unfoldable pub lies_behind : Window → ℕ → Bool
  unfolding rolls_over
  lies_behind w v = ltb v w.cur && not (rolls_over w v) && ltb (w.cur - v) size

  unfoldable pub accepts : Window → ℕ → Bool
  unfolding moves_on rolls_over lies_behind
  accepts w v = moves_on w v || rolls_over w v || (lies_behind w v && not (w.received v))

  -- The window after an accepted index.
  unfoldable pub record_value : Window → ℕ → Window
  unfolding moves_on rolls_over lies_behind
  record_value w v =
      if moves_on w v
      then record { cur = v; received = λ x. x == v || (leb x w.cur && w.received x) }
      else if rolls_over w v
      then record { cur = v; received = λ x. x == v }
      else record w { received = λ x. x == v || w.received x }

  -- A receiver asks first and records what was let through.
  unfoldable pub step : Window → ℕ → Window
  step w v = if accepts w v then record_value w v else w

  unfoldable pub run : Window → List ℕ → Window
  run w [] = w
  run w (v ∷ vs) = run (step w v) vs

  unfoldable pub decisions : Window → List ℕ → List Bool
  decisions w [] = []
  decisions w (v ∷ vs) = accepts w v ∷ decisions (step w v) vs

  -- Some index of the sequence starts a new cycle.
  unfoldable pub starts_cycle : Window → List ℕ → Bool
  starts_cycle w [] = false
  starts_cycle w (v ∷ vs) = (accepts w v && rolls_over w v) || starts_cycle (step w v) vs
