-- ===== src/Replay/Bitmap.antt =====
-- The bitmap of the replay window of src/replay_protection.cpp: the slot of an index, a byte and a bit of it.
use srtc.Common.{ℕ, ◌+◌, ◌*◌, ◌/◌, ◌%◌, ◌≤◌, ◌<◌, ◌≡◌, refl, ◌∙◌}
use srtc.Common.{true, false, List, arith, length, get_or, All}
use srtc.Common.{length-set, get_or-set_self, get_or-set_ne, All-set, All-get_or, replicate}
use srtc.Common.{length-replicate, zero, suc}
use srtc.Common.Bits.{test_bit-set_bit, test_bit-clear_bit}
use srtc.Common.Bits.{set_bit-lt, clear_bit-lt, no_bit}
use native.Mathlib.Decide.{ℕ_discrete}
use native.Mathlib.Nat.{div-add-mod}
use srtc.Replay.{is_set, set_impl, clear_impl}

abbrev IsByte : ℕ → Type 0
IsByte b = b < 256

-- A bitmap of `n` bytes.
pub record IsBitmap (n : ℕ) (st : List ℕ) : Type 0 where
  pub size : length st ≡ n
  pub bytes : All IsByte st
  pub nonempty : 0 < n

module _ (n : ℕ) where
  -- Two indices with the same slot.
  abbrev pub SameSlot : ℕ → ℕ → Type 0
  SameSlot v w = (v / 8 % n ≡ w / 8 % n) × (v % 8 ≡ w % 8)

  SameSlot-dec : (v w : ℕ) → Dec (SameSlot v w)
  SameSlot-dec v w = elim (ℕ_discrete (v / 8 % n) (w / 8 % n)) [
    | yes e ↦ elim (ℕ_discrete (v % 8) (w % 8)) [ yes d ↦ yes (e, d) | no d ↦ no (λ s. d s.1) ]
    | no d ↦ no (λ s. d s.0)
  ]

  mod_far : (a b : ℕ) → a % n ≡ b % n → b < a → b + n ≤ a
  mod_far a b e h = grind (arith, div-add-mod a n, div-add-mod b n)

  -- Different indices with one slot are a whole bitmap apart.
  pub SameSlot-far : (v w : ℕ) → SameSlot v w → w < v → w + 8 * n ≤ v
  SameSlot-far v w s h =
      let lower : w / 8 < v / 8 = omega arith in
      let far : w / 8 + n ≤ v / 8 = mod_far (v / 8) (w / 8) s.0 lower in omega arith

  module _ (st : List ℕ) (b : IsBitmap n st) where
    index-lt : (v : ℕ) → v / 8 % n < length st
    index-lt v = let h = b.nonempty in let e = b.size in omega arith

    byte-lt : (i : ℕ) → get_or st i 0 < 256
    byte-lt i = All-get_or IsByte st i 0 b.bytes (omega arith)

    pub set_impl-IsBitmap : (v : ℕ) → IsBitmap n (set_impl st n v)
    unfolding set_impl
    set_impl-IsBitmap v = record {
      size = length-set st (v / 8 % n) _ ∙ b.size;
      bytes = All-set IsByte st _ _ b.bytes (set_bit-lt _ (v % 8) (byte-lt _) (omega arith));
      nonempty = b.nonempty;
    }

    pub clear_impl-IsBitmap : (v : ℕ) → IsBitmap n (clear_impl st n v)
    unfolding clear_impl
    clear_impl-IsBitmap v = record {
      size = length-set st (v / 8 % n) _ ∙ b.size;
      bytes = All-set IsByte st _ _ b.bytes (clear_bit-lt _ (v % 8) (byte-lt _) (omega arith));
      nonempty = b.nonempty;
    }

    pub is_set-set_impl_same : (v w : ℕ) → SameSlot v w → is_set (set_impl st n v) n w ≡ true
    unfolding is_set set_impl
    is_set-set_impl_same v w s =
        rw (← s.0, ← s.1, get_or-set_self st (v / 8 % n) _ 0 (index-lt v))
          (ground (
            arith,
            test_bit-set_bit (get_or st (v / 8 % n) 0) (v % 8) (v % 8) (byte-lt _) (omega arith)
                (omega arith),
          ))

    pub is_set-clear_impl_same : (v w : ℕ) → SameSlot v w → is_set (clear_impl st n v) n w ≡ false
    unfolding is_set clear_impl
    is_set-clear_impl_same v w s =
        rw (← s.0, ← s.1, get_or-set_self st (v / 8 % n) _ 0 (index-lt v))
          (ground (
            arith,
            test_bit-clear_bit (get_or st (v / 8 % n) 0) (v % 8) (v % 8) (byte-lt _) (omega arith)
                (omega arith),
          ))

    pub is_set-set_impl_other :
        (v w : ℕ) → ¬ SameSlot v w → is_set (set_impl st n v) n w ≡ is_set st n w
    unfolding is_set set_impl
    is_set-set_impl_other v w s = elim (ℕ_discrete (v / 8 % n) (w / 8 % n)) [
      | yes e ↦
          rw (← e, get_or-set_self st (v / 8 % n) _ 0 (index-lt v))
            (ground (
              arith,
              test_bit-set_bit (get_or st (v / 8 % n) 0) (v % 8) (w % 8) (byte-lt _) (omega arith)
                  (omega arith),
              λ (d : v % 8 ≡ w % 8). s (e, d),
            ))
      | no d ↦ rw (get_or-set_ne st (v / 8 % n) (w / 8 % n) _ 0 d)
    ]

    pub is_set-clear_impl_other :
        (v w : ℕ) → ¬ SameSlot v w → is_set (clear_impl st n v) n w ≡ is_set st n w
    unfolding is_set clear_impl
    is_set-clear_impl_other v w s = elim (ℕ_discrete (v / 8 % n) (w / 8 % n)) [
      | yes e ↦
          rw (← e, get_or-set_self st (v / 8 % n) _ 0 (index-lt v))
            (ground (
              arith,
              test_bit-clear_bit (get_or st (v / 8 % n) 0) (v % 8) (w % 8) (byte-lt _) (omega arith)
                  (omega arith),
              λ (d : v % 8 ≡ w % 8). s (e, d),
            ))
      | no d ↦ rw (get_or-set_ne st (v / 8 % n) (w / 8 % n) _ 0 d)
    ]

    -- Clearing never sets a bit.
    pub is_set-clear_impl_keeps :
        (v w : ℕ) → is_set st n w ≡ false → is_set (clear_impl st n v) n w ≡ false
    is_set-clear_impl_keeps v w h = elim (SameSlot-dec v w) [
      | yes s ↦ is_set-clear_impl_same v w s
      | no d ↦ is_set-clear_impl_other v w d ∙ h
    ]

-- The fresh bitmap has no bit set.
get_or-replicate : (n i : ℕ) → ◌≡◌ {A = ℕ} (get_or (replicate n 0) i 0) 0
get_or-replicate zero i = refl
get_or-replicate (suc n) zero = refl
get_or-replicate (suc n) (suc i) = get_or-replicate n i

pub is_set-replicate : (n w : ℕ) → is_set (replicate n 0) n w ≡ false
unfolding is_set
is_set-replicate n w = rw get_or-replicate (no_bit (w % 8) (omega arith))

All-replicate : (n : ℕ) → All IsByte (replicate n 0)
All-replicate zero = tt
All-replicate (suc n) = (omega arith, All-replicate n)

pub replicate-IsBitmap : (n : ℕ) → 0 < n → IsBitmap n (replicate n 0)
replicate-IsBitmap n h = record {
  size = length-replicate n 0;
  bytes = All-replicate n;
  nonempty = h;
}
