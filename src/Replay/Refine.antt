-- ===== src/Replay/Refine.antt =====
-- The bitmap of src/replay_protection.cpp and the abstract window that it represents.
use srtc.Common.{ℕ, ◌+◌, ◌*◌, ◌/◌, ◌%◌, ◌≤◌, ◌<◌, ◌≡◌, refl, sym, ap, ◌∙◌, List, arith}
use srtc.Common.{false, inl, inr, Bool, ◌||◌, ◌&&◌, ◌==◌, leb, some}
use native.Mathlib.Nat.{mod-eq_of_lt}
use native.Mathlib.Decide.{ℕ_discrete, dec_lt, dec_le}
use srtc.Replay.{ReplayProtection, is_set, set_impl, forward_loop}
use srtc.Replay.Bitmap
use srtc.Replay.Bitmap.{IsBitmap}
use srtc.Replay.Forward
use srtc.Replay.Forward.{straight, around}
use srtc.Replay.Spec.{Window}

-- What the constructor's asserts say of the constants.
pub record Config (r : ReplayProtection) : Type 0 where
  pub wide : 65535 ≤ r.max_possible_value
  pub small : r.size ≤ 4096
  pub some_room : 0 < r.size
  pub bytes : r.storage_size ≡ (r.size + 7) / 8
  pub quarter : r.max_distance_forward ≡ r.size / 4

-- The bitmap agrees with the set wherever the window reaches.
abbrev pub Agrees : ℕ → ℕ → ℕ → List ℕ → (ℕ → Bool) → Type 0
Agrees n size cur st received = (x : ℕ) → x ≤ cur → cur < x + size → is_set st n x ≡ received x

pub record Represents (r : ReplayProtection) (st : List ℕ) (w : Window) : Type 0 where
  pub config : Config r
  pub allocated : r.storage ≡ some st
  pub bitmap : IsBitmap r.storage_size st
  pub same_cur : r.cur_max ≡ w.cur
  pub in_range : w.cur ≤ r.max_possible_value
  pub agrees : Agrees r.storage_size r.size w.cur st w.received

module _ (n mask size fuel : ℕ) (st : List ℕ) (b : IsBitmap n st) (room : size ≤ 8 * n) where
  not-SameSlot : (v x : ℕ) → x < v → v < x + size → ¬ (Bitmap.SameSlot n v x)
  not-SameSlot v x lt near s = omega (arith, Bitmap.SameSlot-far n v x s lt)

  -- Setting the bit of an index that the window reaches adds that index.
  pub set_impl-Agrees :
      (cur v : ℕ) (received : ℕ → Bool)
      → v ≤ cur
      → cur < v + size
      → Agrees n size cur st received
      → Agrees n size cur (set_impl st n v) (λ x. x == v || received x)
  set_impl-Agrees cur v received le near agrees x lx nx = elim (ℕ_discrete x v) [
    | yes e ↦ rw (e, Bitmap.is_set-set_impl_same n st b v v (refl, refl)) (ground arith)
    | no d ↦
        Bitmap.is_set-set_impl_other n st b v x (apart v x d le near lx nx)
        ∙ agrees x lx nx
        ∙ ground arith
  ]
    where
      apart :
          (v x : ℕ)
          → ¬ (x ≡ v)
          → v ≤ cur
          → cur < v + size
          → x ≤ cur
          → cur < x + size
          → ¬ (Bitmap.SameSlot n v x)
      apart v x d lv nv lx nx = elim (dec_lt x v) [
        | yes h ↦ not-SameSlot v x h (omega arith)
        | no h ↦ λ s. not-SameSlot x v (omega arith) (omega arith) (sym s.0, sym s.1)
      ]

  module _ (c v : ℕ) (hv : v ≤ mask) (hc : c ≤ mask) where
    abbrev pub after : List ℕ
    after = (forward_loop n mask v fuel ((c + 1) % (mask + 1)) st).1

    start_below : c < mask → (c + 1) % (mask + 1) ≡ c + 1
    start_below h = mod-eq_of_lt (omega arith)

    start_wrap : c ≡ mask → (c + 1) % (mask + 1) ≡ 0
    start_wrap h = grind arith

    pub after-IsBitmap : IsBitmap n after
    after-IsBitmap = Forward.forward_loop-IsBitmap n mask v hv fuel _ st b

    Way-straight : c < v → v ≤ c + fuel → Forward.Way n mask v fuel ((c + 1) % (mask + 1))
    Way-straight lt near = rw (start_below (omega arith)) (straight (omega arith) (omega arith))

    Way-around : v < c → mask + 1 + v ≤ c + fuel → Forward.Way n mask v fuel ((c + 1) % (mask + 1))
    Way-around lt near = elim (ℕ_discrete c mask) [
      | yes e ↦ rw (start_wrap e) (straight (omega arith) (omega arith))
      | no d ↦ rw (start_below (omega arith)) (around (omega arith) (omega arith) (omega arith))
    ]

    from :
        (s x : ℕ)
        → (c + 1) % (mask + 1) ≡ s
        → is_set after n x ≡ is_set (forward_loop n mask v fuel s st).1 n x
    from s x e = ap (λ (s : ℕ). is_set (forward_loop n mask v fuel s st).1 n x) e

    -- Moving on within the cycle.
    straight_bit :
        (received : ℕ → Bool)
        → c < v
        → v ≤ c + fuel
        → Agrees n size c st received
        → (x : ℕ) → x < v
        → v < x + size
        → is_set after n x ≡ (leb x c && received x)
    straight_bit received lt near agrees x lx nx =
        from (c + 1) x (start_below (omega arith)) ∙ elim (dec_le x c) [
          | yes h ↦
              Forward.forward_loop_behind n mask v hv fuel (c + 1) st x b (omega arith)
                (omega arith) (omega arith)
              ∙ agrees x h (omega arith)
              ∙ ground arith
          | no h ↦
              Forward.forward_loop_clears n mask v hv fuel (c + 1) st x b
                (straight (omega arith) (omega arith)) (lx, inl (omega arith))
              ∙ ground arith
        ]

    -- Rolling over.
    around_bit : v < c → mask + 1 + v ≤ c + fuel → (x : ℕ) → x < v → is_set after n x ≡ false
    around_bit lt near x lx = elim (ℕ_discrete c mask) [
      | yes e ↦
          from 0 x (start_wrap e)
          ∙ Forward.forward_loop_clears n mask v hv fuel 0 st x b
              (straight (omega arith) (omega arith)) (lx, inl (omega arith))
      | no d ↦
          from (c + 1) x (start_below (omega arith))
          ∙ Forward.forward_loop_clears n mask v hv fuel (c + 1) st x b
              (around (omega arith) (omega arith) (omega arith)) (lx, inr (omega arith))
    ]

    -- The last bit set, the bitmap agrees with what it agreed with below `v`, and `v`.
    last_bit :
        (received : ℕ → Bool)
        → ((x : ℕ) → x < v → v < x + size → is_set after n x ≡ received x)
        → Agrees n size v (set_impl after n v) (λ x. x == v || received x)
    last_bit received below x lx nx = elim (ℕ_discrete x v) [
      | yes e ↦
          rw (e, Bitmap.is_set-set_impl_same n after after-IsBitmap v v (refl, refl)) (ground arith)
      | no d ↦
          Bitmap.is_set-set_impl_other n after after-IsBitmap v x
            (not-SameSlot v x (omega arith) nx)
          ∙ below x (omega arith) nx
          ∙ ground arith
    ]

    pub straight-Agrees :
        (received : ℕ → Bool)
        → c < v
        → v ≤ c + fuel
        → Agrees n size c st received
        → Agrees n size v (set_impl after n v) (λ x. x == v || (leb x c && received x))
    straight-Agrees received lt near agrees =
        last_bit (λ x. leb x c && received x) (straight_bit received lt near agrees)

    pub around-Agrees :
        v < c → mask + 1 + v ≤ c + fuel → Agrees n size v (set_impl after n v) (λ x. x == v)
    around-Agrees lt near x lx nx =
        last_bit (λ x. false) (λ y ly ny. around_bit lt near y ly) x lx nx ∙ ground arith

    pub straight-cur :
        c < v → v ≤ c + fuel → (forward_loop n mask v fuel ((c + 1) % (mask + 1)) st).0 ≡ v
    straight-cur lt near = Forward.cur-forward_loop n mask v hv fuel _ st (Way-straight lt near)

    pub around-cur :
        v < c
        → mask + 1 + v ≤ c + fuel
        → (forward_loop n mask v fuel ((c + 1) % (mask + 1)) st).0 ≡ v
    around-cur lt near = Forward.cur-forward_loop n mask v hv fuel _ st (Way-around lt near)
