-- ===== src/Replay/Runs.antt =====
-- Sequences of indices: the receiver's loop over the bitmap window of src/replay_protection.cpp.
use srtc.Common.{ℕ, ◌≤◌, ◌≡◌, refl, ◌∙◌, List, [], ◌∷◌, arith, ap₂, sym, subst, All}
use srtc.Common.{true, false, Bool, ◌||◌, ◌&&◌, inl, inr, Bool-cases, if◌then◌else◌}
use srtc.Replay.{ReplayProtection, set_value, set_forward, can_proceed}
use srtc.Replay.Refine.{Represents}
use srtc.Replay.Window.{can_proceed-accepts, set_value-record_value}
use srtc.Replay.Spec
use srtc.Replay.Spec.{Window}

-- How `SrtpConnection` uses the window: ask, and record the index if the packet is good.
unfoldable pub receive : ReplayProtection → ℕ → ReplayProtection
receive r v = if can_proceed r v then (set_value r v).0 else r

unfoldable pub decisions : ReplayProtection → List ℕ → List Bool
decisions r [] = []
decisions r (v ∷ vs) = can_proceed r v ∷ decisions (receive r v) vs

pub constants-set_value :
    (r : ReplayProtection) (v : ℕ)
    → ((set_value r v).0.max_possible_value ≡ r.max_possible_value)
      × ((set_value r v).0.size ≡ r.size)
unfolding set_value set_forward
constants-set_value r v = ground arith

-- One step keeps the representation, and the constants.
receive-step :
    {r : ReplayProtection} {st : List ℕ} {w : Window} (rep : Represents r st w) (v : ℕ)
    → v ≤ r.max_possible_value
    → ((st' : List ℕ) × Represents (receive r v) st' (Spec.step r.max_possible_value r.size w v))
      × ((receive r v).max_possible_value ≡ r.max_possible_value)
      × ((receive r v).size ≡ r.size)
unfolding receive Spec.step
receive-step {r} {st} rep v hv = elim (Bool-cases (can_proceed r v)) [
  | inl h ↦
      rw (← can_proceed-accepts rep v hv, h)
        (let (mask, size) = constants-set_value r v in
          ((set_value-record_value rep v hv h).1, mask, size))
  | inr h ↦ rw (← can_proceed-accepts rep v hv, h) ((st, rep), refl, refl)
]

-- From a bitmap that represents an abstract window, a receiver that asks `canProceed` and then calls
-- `set` decides on every sequence of indices in range as the abstract window does.
pub decisions_refines :
    (vs : List ℕ) {r : ReplayProtection} {st : List ℕ} {w : Window}
    → Represents r st w
    → All (λ v. v ≤ r.max_possible_value) vs
    → decisions r vs ≡ Spec.decisions r.max_possible_value r.size w vs
unfolding decisions Spec.decisions
decisions_refines [] rep h = refl
decisions_refines (v ∷ vs) {r} {st} {w} rep h =
    let ((st', rep'), mask, size) = receive-step rep v h.0 in
    ap₂ ◌∷◌ (can_proceed-accepts rep v h.0) (
      decisions_refines vs rep' (subst (λ m. All (λ v. v ≤ m) vs) (sym mask) h.1)
      ∙ ap₂ (λ (m s : ℕ). Spec.decisions m s (Spec.step r.max_possible_value r.size w v) vs) mask
          size)

module _ (mask size : ℕ) where
  -- What one step does to an index that the cycle has received already.
  received-step :
      (w : Window) (v u : ℕ)
      → v ≤ w.cur
      → w.received v ≡ true
      → (Spec.accepts mask size w u && Spec.rolls_over mask size w u) ≡ false
      → (v ≤ (Spec.step mask size w u).cur) × ((Spec.step mask size w u).received v ≡ true)
  unfolding Spec.step Spec.accepts Spec.record_value
  received-step w v u le got same = ground arith

  received-accepts :
      (w : Window) (v : ℕ)
      → v ≤ w.cur
      → w.received v ≡ true
      → Spec.accepts mask size w v ≡ Spec.rolls_over mask size w v
  unfolding Spec.accepts
  received-accepts w v le got = ground arith

  or_false : (a b : Bool) → (a || b) ≡ false → (a ≡ false) × (b ≡ false)
  or_false a b h = ground arith

  -- In the abstract window, whatever arrives after an index that was received, as long as no index starts
  -- a new cycle, that index is accepted again only as the start of a new cycle.
  received_once :
      (us : List ℕ) (w : Window) (v : ℕ)
      → v ≤ w.cur
      → w.received v ≡ true
      → Spec.starts_cycle mask size w us ≡ false
      → Spec.accepts mask size (Spec.run mask size w us) v
        ≡ Spec.rolls_over mask size (Spec.run mask size w us) v
  unfolding Spec.starts_cycle Spec.run
  received_once [] w v le got same = received-accepts w v le got
  received_once (u ∷ us) w v le got same =
      let (now, later) = or_false _ _ same in
      let (le', got') = received-step w v u le got now in
      received_once us (Spec.step mask size w u) v le' got' later

refused :
    (mask size : ℕ) (w : Window) (v : ℕ)
    → Spec.accepts mask size w v ≡ true
    → Spec.accepts mask size (Spec.record_value mask size w v) v ≡ false
unfolding Spec.accepts Spec.record_value
refused mask size w v h = ground arith

-- From a bitmap that represents an abstract window, an index in range that was let through and that
-- `set` has just recorded is refused.
pub can_proceed-set_value :
    {r : ReplayProtection} {st : List ℕ} {w : Window} (v : ℕ)
    → Represents r st w
    → v ≤ r.max_possible_value
    → can_proceed r v ≡ true
    → can_proceed (set_value r v).0 v ≡ false
can_proceed-set_value {r} {st} {w} v rep hv h =
    let (_, (st', rep')) = set_value-record_value rep v hv h in
    let (mask, size) = constants-set_value r v in
    can_proceed-accepts rep' v (rw mask hv)
    ∙ ap₂ (λ (m s : ℕ). Spec.accepts m s (Spec.record_value r.max_possible_value r.size w v) v) mask
        size
    ∙ refused r.max_possible_value r.size w v (accepts_true rep v hv h)
  where
    accepts_true :
        (rep : Represents r st w) (v : ℕ)
        → v ≤ r.max_possible_value
        → can_proceed r v ≡ true
        → Spec.accepts r.max_possible_value r.size w v ≡ true
    accepts_true rep v hv h = sym (can_proceed-accepts rep v hv) ∙ h

-- What is left of a window after a sequence.
unfoldable pub run : ReplayProtection → List ℕ → ReplayProtection
run r [] = r
run r (v ∷ vs) = run (receive r v) vs

record Ran (r : ReplayProtection) (w : Window) (vs : List ℕ) : Type 0 where
  st : List ℕ
  represents : Represents (run r vs) st (Spec.run r.max_possible_value r.size w vs)
  same_mask : (run r vs).max_possible_value ≡ r.max_possible_value
  same_size : (run r vs).size ≡ r.size

run-Ran :
    (vs : List ℕ) {r : ReplayProtection} {st : List ℕ} {w : Window}
    → Represents r st w
    → All (λ v. v ≤ r.max_possible_value) vs
    → Ran r w vs
unfolding run Spec.run
run-Ran [] {st = st} rep h = record {
  st = st;
  represents = rep;
  same_mask = refl;
  same_size = refl;
}
run-Ran (v ∷ vs) {r} {st} {w} rep h =
    let ((st', rep'), mask, size) = receive-step rep v h.0 in
    let rest = run-Ran vs rep' (subst (λ m. All (λ v. v ≤ m) vs) (sym mask) h.1) in
    record {
      st = rest.st;
      represents =
          subst (Represents (run (receive r v) vs) rest.st)
            (ap₂ (λ (m s : ℕ). Spec.run m s (Spec.step r.max_possible_value r.size w v) vs) mask
              size)
            rest.represents;
      same_mask = rest.same_mask ∙ mask;
      same_size = rest.same_size ∙ size;
    }

-- From a bitmap that represents a window which has received an index of its cycle, and for any sequence
-- of indices in range none of which starts a new cycle: after the sequence, `canProceed` lets that index
-- through only as the start of a new cycle.
pub run_refuses_received :
    (us : List ℕ) {r : ReplayProtection} {st : List ℕ} {w : Window} (v : ℕ)
    → Represents r st w
    → All (λ u. u ≤ r.max_possible_value) us
    → v ≤ r.max_possible_value
    → v ≤ w.cur
    → w.received v ≡ true
    → Spec.starts_cycle r.max_possible_value r.size w us ≡ false
    → can_proceed (run r us) v
      ≡ Spec.rolls_over r.max_possible_value r.size (Spec.run r.max_possible_value r.size w us) v
run_refuses_received us {r} {st} {w} v rep range hv le got same =
    let ran = run-Ran us rep range in
    can_proceed-accepts ran.represents v (rw ran.same_mask hv)
    ∙ ap₂ (λ (m s : ℕ). Spec.accepts m s (Spec.run r.max_possible_value r.size w us) v)
        ran.same_mask ran.same_size
    ∙ received_once r.max_possible_value r.size us w v le got same
