-- ===== src/Replay/Forward.antt =====
-- The loop of `setForward` of src/replay_protection.cpp.
use srtc.Common.{ℕ, zero, suc, ◌+◌, ◌*◌, ◌%◌, ◌≤◌, ◌<◌, ◌≡◌, refl, ◌∙◌, List, arith}
use srtc.Common.{false, inl, ◌⊎◌}
use native.Mathlib.Nat.{mod-eq_of_lt}
use native.Mathlib.Decide.{ℕ_discrete}
use srtc.Replay.{is_set, clear_impl, forward_loop}
use srtc.Replay.Bitmap

module _ (n mask value : ℕ) where
  -- One round, at an index that is not the last.
  next : ℕ → ℕ
  next cur = (cur + 1) % (mask + 1)

  next_below : (cur : ℕ) → cur < mask → next cur ≡ cur + 1
  unfolding next
  next_below cur h = mod-eq_of_lt (omega arith)

  next_wrap : (cur : ℕ) → cur ≡ mask → next cur ≡ 0
  unfolding next
  next_wrap cur h = grind arith

  loop_step :
      (fuel cur : ℕ) (st : List ℕ)
      → ¬ (cur ≡ value)
      → forward_loop n mask value (suc fuel) cur st
        ≡ forward_loop n mask value fuel (next cur) (clear_impl st n cur)
  unfolding forward_loop next
  loop_step fuel cur st h = ground arith

  loop_done : (fuel : ℕ) (st : List ℕ) → forward_loop n mask value fuel value st ≡ (value, st)
  unfolding forward_loop
  loop_done zero st = refl
  loop_done (suc fuel) st = ground arith

  -- How far the loop has to go: round the end of the range if it starts above `value`.
  pub data Way : ℕ → ℕ → Type 0 where
    straight : {fuel cur : ℕ} → cur ≤ value → value ≤ cur + fuel → Way fuel cur
    around :
        {fuel cur : ℕ} → value < cur → cur ≤ mask → mask + 1 + value ≤ cur + fuel → Way fuel cur

  Way-next :
      (fuel cur : ℕ) → value ≤ mask → ¬ (cur ≡ value) → Way (suc fuel) cur → Way fuel (next cur)
  Way-next fuel cur hv ne (straight le room) =
      rw (next_below cur (omega arith)) (straight (omega arith) (omega arith))
  Way-next fuel cur hv ne (around gt in_range room) = elim (ℕ_discrete cur mask) [
    | yes e ↦ rw (next_wrap cur e) (straight (omega arith) (omega arith))
    | no d ↦ rw (next_below cur (omega arith)) (around (omega arith) (omega arith) (omega arith))
  ]

  Way-zero : (cur : ℕ) → value ≤ mask → Way zero cur → cur ≡ value
  Way-zero cur hv (straight le room) = omega arith
  Way-zero cur hv (around gt in_range room) = absurd (omega arith)

  -- An index that the loop still has to clear.
  abbrev Ahead : ℕ → ℕ → Type 0
  Ahead cur w = (w < value) × ((cur ≤ w) ⊎ (value < cur))

  Ahead-next :
      (cur w : ℕ) → value ≤ mask → cur ≤ mask → ¬ (w ≡ cur) → Ahead cur w → Ahead (next cur) w
  Ahead-next cur w hv hc ne a = elim (ℕ_discrete cur mask) [
    | yes e ↦ rw (next_wrap cur e) (a.0, inl (omega arith))
    | no d ↦ rw (next_below cur (omega arith)) (omega arith)
  ]

  Way-in_range : (fuel cur : ℕ) → value ≤ mask → Way fuel cur → cur ≤ mask
  Way-in_range fuel cur hv (straight le room) = omega arith
  Way-in_range fuel cur hv (around gt in_range room) = in_range

  module _ (hv : value ≤ mask) where
    pub cur-forward_loop :
        (fuel cur : ℕ) (st : List ℕ)
        → Way fuel cur
        → (forward_loop n mask value fuel cur st).0 ≡ value
    cur-forward_loop zero cur st way = unfold forward_loop in Way-zero cur hv way
    cur-forward_loop (suc fuel) cur st way = elim (ℕ_discrete cur value) [
      | yes e ↦ rw (e, loop_done (suc fuel) st)
      | no d ↦
          rw (loop_step fuel cur st d)
            (cur-forward_loop fuel (next cur) (clear_impl st n cur) (Way-next fuel cur hv d way))
    ]

    pub forward_loop-IsBitmap :
        (fuel cur : ℕ) (st : List ℕ)
        → Bitmap.IsBitmap n st
        → Bitmap.IsBitmap n (forward_loop n mask value fuel cur st).1
    forward_loop-IsBitmap zero cur st b = unfold forward_loop in b
    forward_loop-IsBitmap (suc fuel) cur st b = elim (ℕ_discrete cur value) [
      | yes e ↦ rw (e, loop_done (suc fuel) st) b
      | no d ↦ rw (loop_step fuel cur st d) (
          forward_loop-IsBitmap fuel (next cur) (clear_impl st n cur)
            (Bitmap.clear_impl-IsBitmap n st b cur))
    ]

    forward_loop_keeps :
        (fuel cur : ℕ) (st : List ℕ) (w : ℕ)
        → Bitmap.IsBitmap n st
        → is_set st n w ≡ false
        → is_set (forward_loop n mask value fuel cur st).1 n w ≡ false
    forward_loop_keeps zero cur st w b h = unfold forward_loop in h
    forward_loop_keeps (suc fuel) cur st w b h = elim (ℕ_discrete cur value) [
      | yes e ↦ rw (e, loop_done (suc fuel) st) h
      | no d ↦ rw (loop_step fuel cur st d) (
          forward_loop_keeps fuel (next cur) (clear_impl st n cur) w
            (Bitmap.clear_impl-IsBitmap n st b cur) (Bitmap.is_set-clear_impl_keeps n st b cur w h))
    ]

    -- Every index on the way is cleared.
    pub forward_loop_clears :
        (fuel cur : ℕ) (st : List ℕ) (w : ℕ)
        → Bitmap.IsBitmap n st
        → Way fuel cur
        → Ahead cur w
        → is_set (forward_loop n mask value fuel cur st).1 n w ≡ false
    forward_loop_clears zero cur st w b way a =
        let e : cur ≡ value = Way-zero cur hv way in absurd (omega arith)
    forward_loop_clears (suc fuel) cur st w b way a = elim (ℕ_discrete cur value) [
      | yes e ↦ absurd (omega arith)
      | no d ↦ rw (loop_step fuel cur st d) (elim (ℕ_discrete w cur) [
        | yes e ↦
            forward_loop_keeps fuel (next cur) (clear_impl st n cur) w
              (Bitmap.clear_impl-IsBitmap n st b cur)
              (Bitmap.is_set-clear_impl_same n st b cur w (rw e (refl, refl)))
        | no ne ↦
            forward_loop_clears fuel (next cur) (clear_impl st n cur) w
              (Bitmap.clear_impl-IsBitmap n st b cur) (Way-next fuel cur hv d way)
              (Ahead-next cur w hv (Way-in_range (suc fuel) cur hv way) ne a)
      ])
    ]

    -- What lies behind, at most a bitmap below the new maximum, is left as it was.
    pub forward_loop_behind :
        (fuel cur : ℕ) (st : List ℕ) (w : ℕ)
        → Bitmap.IsBitmap n st
        → w < cur
        → cur ≤ value
        → value ≤ w + 8 * n
        → is_set (forward_loop n mask value fuel cur st).1 n w ≡ is_set st n w
    forward_loop_behind zero cur st w b lt le near = unfold forward_loop in refl
    forward_loop_behind (suc fuel) cur st w b lt le near = elim (ℕ_discrete cur value) [
      | yes e ↦ rw (e, loop_done (suc fuel) st) refl
      | no d ↦
          rw (loop_step fuel cur st d, next_below cur (omega arith))
            (forward_loop_behind fuel (cur + 1) (clear_impl st n cur) w
                (Bitmap.clear_impl-IsBitmap n st b cur) (omega arith) (omega arith) near
              ∙ Bitmap.is_set-clear_impl_other n st b cur w
                  (λ s. absurd (omega (arith, Bitmap.SameSlot-far n cur w s lt))))
    ]
