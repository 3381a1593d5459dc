-- ===== src/Replay/Tests.antt =====
-- The replay window at concrete inputs.
use srtc.Common.{ℕ, ◌≡◌, refl, List, [], ◌∷◌, arith, true, false}
use srtc.Replay.{
  ReplayProtection, new, set_value, can_proceed, forward_loop, set_forward,
  get_rollover_forward_distance, is_set, set_impl, clear_impl,
}
use srtc.Replay.Refine.{Represents}
use srtc.Replay.Window.{first, new-first, Recorded, can_proceed-accepts, set_value-record_value}
use srtc.Replay.Runs.{
  decisions, receive, decisions_refines, run, run_refuses_received, can_proceed-set_value,
}
use srtc.Replay.Spec
use srtc.Replay.Spec.{Window}

abbrev ten : ReplayProtection
ten = (set_value (new 65535 64) 10).0

new-first_example :
    (can_proceed (new 65535 64) 10 ≡ true) × Recorded (set_value (new 65535 64) 10) (first 10)
new-first_example = new-first 65535 64 10 (omega arith) (omega arith) (omega arith) (omega arith)

ten-Recorded : Recorded (set_value (new 65535 64) 10) (first 10)
ten-Recorded = (new-first 65535 64 10 (omega arith) (omega arith) (omega arith) (omega arith)).1

abbrev ten_bits : List ℕ
ten_bits = ten-Recorded.1.0

ten-Represents : Represents ten ten_bits (first 10)
ten-Represents = ten-Recorded.1.1

-- In order, repeated, behind, too far ahead, ahead, skipped, repeated.
abbrev indices : List ℕ
indices = 11 ∷ 11 ∷ 9 ∷ 40 ∷ 20 ∷ 15 ∷ 15 ∷ []

decisions-indices : decisions ten indices ≡ true ∷ false ∷ true ∷ false ∷ true ∷ true ∷ false ∷ []
unfolding decisions receive can_proceed set_value set_forward forward_loop new
    get_rollover_forward_distance is_set set_impl clear_impl
decisions-indices = refl

mask-ten : ten.max_possible_value ≡ 65535
unfolding set_value new
mask-ten = refl

lets_eleven_through : can_proceed ten 11 ≡ true
unfolding can_proceed set_value new get_rollover_forward_distance
lets_eleven_through = refl

can_proceed-accepts_example :
    can_proceed ten 9 ≡ Spec.accepts ten.max_possible_value ten.size (first 10) 9
can_proceed-accepts_example = can_proceed-accepts ten-Represents 9 (omega (arith, mask-ten))

set_value-record_value_example :
    Recorded (set_value ten 11) (Spec.record_value ten.max_possible_value ten.size (first 10) 11)
set_value-record_value_example =
    set_value-record_value ten-Represents 11 (omega (arith, mask-ten)) lets_eleven_through

decisions_refines_example :
    decisions ten (11 ∷ 11 ∷ [])
    ≡ Spec.decisions ten.max_possible_value ten.size (first 10) (11 ∷ 11 ∷ [])
decisions_refines_example =
    decisions_refines (11 ∷ 11 ∷ []) ten-Represents (omega (arith, mask-ten))

can_proceed-set_value_example : can_proceed (set_value ten 11).0 11 ≡ false
can_proceed-set_value_example =
    can_proceed-set_value 11 ten-Represents (omega (arith, mask-ten)) lets_eleven_through

no_new_cycle : Spec.starts_cycle ten.max_possible_value ten.size (first 10) (12 ∷ 11 ∷ []) ≡ false
unfolding Spec.starts_cycle Spec.step Spec.accepts Spec.record_value set_value new
no_new_cycle = refl

run_refuses_received_example :
    can_proceed (run ten (12 ∷ 11 ∷ [])) 10
    ≡ Spec.rolls_over ten.max_possible_value ten.size
        (Spec.run ten.max_possible_value ten.size (first 10) (12 ∷ 11 ∷ []))
        10
run_refuses_received_example =
    run_refuses_received (12 ∷ 11 ∷ []) 10 ten-Represents (omega (arith, mask-ten))
      (omega (arith, mask-ten)) (omega arith) refl no_new_cycle
