-- ===== src/Jitter/Window.antt =====
-- The array of the jitter buffer as a window on the sequence numbers: what one write does to it.
use srtc.Common.{ℕ, ◌+◌, ◌%◌, ◌≤◌, ◌<◌, ◌≡◌, ◌≢◌, refl, ap, sym, ◌∙◌, Option, none, some}
use srtc.Common.{arith, ==_false, ==_true}
use native.Mathlib.Decide.{ℕ_discrete, dec_lt}
use native.Mathlib.Nat.{div-add-mod, add-mod_right}
use srtc.Jitter.{JitterBufferItem, Slots, put}

pub put_same : (slots : Slots) (k : ℕ) (v : Option JitterBufferItem) → put slots k v k ≡ v
unfolding put
put_same slots k v = rw (==_true k k refl) refl

pub put_other :
    (slots : Slots) (k j : ℕ) (v : Option JitterBufferItem) → j ≢ k → put slots k v j ≡ slots j
unfolding put
put_other slots k j v d = rw (==_false j k d) refl

-- The later of two writes to a place counts.
pub put-put :
    (slots : Slots) (k : ℕ) (v w : Option JitterBufferItem)
    → put (put slots k v) k w ≡ put slots k w
put-put slots k v w i j = pointwise j i
  where
    pointwise : (j : ℕ) → put (put slots k v) k w j ≡ put slots k w j
    pointwise j = elim (ℕ_discrete j k) [
      | yes e ↦
          ap (put (put slots k v) k w) e
          ∙ put_same _ k w
          ∙ sym (put_same slots k w)
          ∙ ap (put slots k w) (sym e)
      | no d ↦ put_other _ k j w d ∙ put_other slots k j v d ∙ sym (put_other slots k j w d)
    ]

-- Numbers that share a place are a whole capacity apart.
mod_far : (n a b : ℕ) → a % n ≡ b % n → b < a → b + n ≤ a
mod_far n a b e h = grind (arith, div-add-mod a n, div-add-mod b n)

module _ (capacity : ℕ) where
  pub apart : (i j : ℕ) → i ≢ j → i < j + capacity → j < i + capacity → i % capacity ≢ j % capacity
  apart i j d hi hj same = elim (dec_lt i j) [
    | yes less ↦ let far = mod_far capacity j i (sym same) less in omega arith
    | no other ↦ let far = mod_far capacity i j same (omega arith) in omega arith
  ]

  -- The places of the numbers from `low` up to `high` hold items with these numbers, and the rest of the
  -- array is free.
  pub record Filled (slots : Slots) (low high : ℕ) : Type 0 where
    pub ordered : low ≤ high
    pub fits : high ≤ low + capacity
    pub full :
        (i : ℕ)
        → low ≤ i
        → i < high
        → (item : JitterBufferItem) × (slots (i % capacity) ≡ some item) × (item.seq_ext ≡ i)
    pub free : (i : ℕ) → high ≤ i → i < low + capacity → slots (i % capacity) ≡ none

  module _ (slots : Slots) (low high : ℕ) (f : Filled slots low high) where
    pub erase_first : low < high → Filled (put slots (low % capacity) none) (low + 1) high
    erase_first h =
        let fits = f.fits in
        record {
          ordered = omega arith;
          fits = omega arith;
          full = λ i lo hi.
              let (item, there, same) = f.full i (omega arith) hi in
              (
                item,
                put_other slots (low % capacity) (i % capacity) none
                      (apart i low (λ e. omega arith) (omega arith) (omega arith))
                    ∙ there,
                same,
              );
          free = λ i lo hi. elim (ℕ_discrete i (low + capacity)) [
            | yes e ↦
                ap (λ n. put slots (low % capacity) none (n % capacity)) e
                ∙ ap (put slots (low % capacity) none) (add-mod_right low capacity)
                ∙ put_same slots (low % capacity) none
            | no d ↦
                put_other slots (low % capacity) (i % capacity) none
                  (apart i low (λ e. omega arith) (omega arith) (omega arith))
                ∙ f.free i lo (omega arith)
          ];
        }

    module _ (item : JitterBufferItem) (j : ℕ) (named : item.seq_ext ≡ j) where
      abbrev pub written : Slots
      written = put slots (j % capacity) (some item)

      -- A number of the new window other than `j` keeps its place.
      kept :
          (i : ℕ)
          → i ≢ j
          → i < j + capacity
          → j < i + capacity
          → written (i % capacity) ≡ slots (i % capacity)
      kept i d hi hj = put_other slots (j % capacity) (i % capacity) (some item) (apart i j d hi hj)

      found :
          (i : ℕ)
          → i ≡ j
          → (x : JitterBufferItem) × (written (i % capacity) ≡ some x) × (x.seq_ext ≡ i)
      found i e = (
        item,
        ap (λ n. written (n % capacity)) e ∙ put_same slots (j % capacity) (some item),
        named ∙ sym e,
      )

      pub replace : low ≤ j → j < high → Filled written low high
      replace lo hi =
          let fits = f.fits in
          record {
            ordered = f.ordered;
            fits = f.fits;
            full = λ i a b. elim (ℕ_discrete i j) [
              | yes e ↦ found i e
              | no d ↦
                  let (x, there, same) = f.full i a b in
                  (x, kept i d (omega arith) (omega arith) ∙ there, same)
            ];
            free = λ i a b. kept i (λ e. omega arith) (omega arith) (omega arith) ∙ f.free i a b;
          }

      pub add_above : j ≡ high → high < low + capacity → Filled written low (high + 1)
      add_above at h =
          let ordered = f.ordered in
          record {
            ordered = omega arith;
            fits = omega arith;
            full = λ i a b. elim (ℕ_discrete i j) [
              | yes e ↦ found i e
              | no d ↦
                  let (x, there, same) = f.full i a (omega arith) in
                  (x, kept i d (omega arith) (omega arith) ∙ there, same)
            ];
            free = λ i a b.
                kept i (λ e. omega arith) (omega arith) (omega arith) ∙ f.free i (omega arith) b;
          }

      pub add_below : j + 1 ≡ low → high ≤ j + capacity → Filled written j high
      add_below at h =
          let ordered = f.ordered in
          record {
            ordered = omega arith;
            fits = h;
            full = λ i a b. elim (ℕ_discrete i j) [
              | yes e ↦ found i e
              | no d ↦
                  let (x, there, same) = f.full i (omega arith) b in
                  (x, kept i d (omega arith) (omega arith) ∙ there, same)
            ];
            free = λ i a b.
                kept i (λ e. omega arith) (omega arith) (omega arith) ∙ f.free i a (omega arith);
          }

  pub one_item :
      (item : JitterBufferItem) (j : ℕ)
      → item.seq_ext ≡ j
      → 0 < capacity
      → Filled (put (λ i. none) (j % capacity) (some item)) j (j + 1)
  one_item item j named h = add_above (λ i. none) j j nothing item j named refl (omega arith)
    where
      nothing : Filled (λ i. none) j j
      nothing = record {
        ordered = omega arith;
        fits = omega arith;
        full = λ i a b. absurd (omega arith);
        free = λ i a b. refl;
      }
