-- ===== src/Jitter/Keeps.antt =====
-- The insertion that `consume` of src/jitter_buffer.cpp makes, from the checks of the range to the item.
use srtc.Common.{ℕ, ◌+◌, ◌-◌, ◌%◌, ◌≤◌, ◌<◌, ◌≡◌, ◌≢◌, refl, subst}
use srtc.Common.{
  none, some, none≢some, some_inj, arith, ltb, leb, ltb→lt, leb→le, Bool-cases, inl, inr, leb-false,
  ltb-false,
}
use srtc.Jitter.{JitterBufferItem, JitterBuffer, Slots, new_item, slots_of, put}
use srtc.Jitter.Window.{Filled, put-put, replace, add_above, add_below, one_item}
use srtc.Jitter.Store.{fill_up-Filled, fill_down-Filled, slots_of-some}
use srtc.Jitter.Consume.{fill_down, fill_up, first_packet, make_room}

module _ {D : Type 0} where
  -- The buffer with a place for a number: whatever item with that number is written there, the array is
  -- a window.
  pub record Ready (b : JitterBuffer D) (seq_ext : ℕ) : Type 0 where
    pub slots : Slots
    pub positive : 0 < b.capacity
    pub has : b.item_list ≡ some slots
    pub write :
        (x : JitterBufferItem)
        → x.seq_ext ≡ seq_ext
        → Filled b.capacity (put slots (seq_ext % b.capacity) (some x)) b.min_seq b.max_seq
    pub lower : b.min_seq ≤ seq_ext
    pub upper : seq_ext < b.max_seq

  pub first_packet-Ready :
      (b : JitterBuffer D) (seq_ext timestamp now : ℕ)
      → 0 < b.capacity
      → Ready (first_packet b seq_ext timestamp now) seq_ext
  unfolding first_packet
  first_packet-Ready b seq_ext timestamp now p = record {
    slots = put (λ i. none) (seq_ext % b.capacity) (some new_item);
    positive = p;
    has = refl;
    write = λ x named.
        rw (put-put (λ i. none) (seq_ext % b.capacity) (some new_item) (some x))
          (one_item b.capacity x seq_ext named p);
    lower = omega arith;
    upper = omega arith;
  }

  pub make_room_first :
      (b : JitterBuffer D) (lost : ℕ → JitterBufferItem) (seq_ext timestamp now : ℕ)
      → make_room (first_packet b seq_ext timestamp now) lost seq_ext
        ≡ some (first_packet b seq_ext timestamp now)
  unfolding make_room first_packet
  make_room_first b lost seq_ext timestamp now =
      rw (ltb-false seq_ext seq_ext (omega arith), leb-false (seq_ext + 1) seq_ext (omega arith))
        refl

  module _ (b : JitterBuffer D) (lost : ℕ → JitterBufferItem)
      (named : (i : ℕ) → (lost i).seq_ext ≡ i) (slots : Slots) (e : b.item_list ≡ some slots)
      (p : 0 < b.capacity) (f : Filled b.capacity slots b.min_seq b.max_seq) where
    room_below : ℕ → JitterBuffer D
    room_below seq_ext = record b {
      item_list = some (
          put (fill_down lost b.capacity (b.min_seq - 1 - seq_ext) (b.min_seq - 1) (slots_of b))
            (seq_ext % b.capacity) (some new_item));
      min_seq = seq_ext;
    }

    room_above : ℕ → JitterBuffer D
    room_above seq_ext = record b {
      item_list = some (
          put (fill_up lost b.capacity (seq_ext - b.max_seq) b.max_seq (slots_of b))
            (seq_ext % b.capacity) (some new_item));
      max_seq = seq_ext + 1;
    }

    room_below-Ready :
        (seq_ext : ℕ)
        → seq_ext < b.min_seq
        → b.max_seq ≤ seq_ext + b.capacity
        → Ready (room_below seq_ext) seq_ext
    unfolding room_below
    room_below-Ready seq_ext below fits =
        let count = b.min_seq - 1 - seq_ext in
        let filled = fill_down lost b.capacity count (b.min_seq - 1) (slots_of b) in
        let f' : Filled b.capacity filled (seq_ext + 1) b.max_seq = rw (slots_of-some b slots e) (
          subst
            (λ n.
              Filled b.capacity (fill_down lost b.capacity count (b.min_seq - 1) slots) n b.max_seq)
            (omega arith)
            (fill_down-Filled lost named b.capacity count slots b.min_seq b.max_seq f (omega arith)
              (omega arith))) in
        record {
          slots = put filled (seq_ext % b.capacity) (some new_item);
          positive = p;
          has = refl;
          write = λ x same.
              rw (put-put filled (seq_ext % b.capacity) (some new_item) (some x))
                (add_below b.capacity filled (seq_ext + 1) b.max_seq f' x seq_ext same refl fits);
          lower = omega arith;
          upper = let ordered = f.ordered in omega arith;
        }

    room_above-Ready :
        (seq_ext : ℕ)
        → b.max_seq ≤ seq_ext
        → seq_ext < b.min_seq + b.capacity
        → Ready (room_above seq_ext) seq_ext
    unfolding room_above
    room_above-Ready seq_ext above fits =
        let count = seq_ext - b.max_seq in
        let filled = fill_up lost b.capacity count b.max_seq (slots_of b) in
        let f' : Filled b.capacity filled b.min_seq seq_ext = rw (slots_of-some b slots e) (
          subst (λ n. Filled b.capacity (fill_up lost b.capacity count b.max_seq slots) b.min_seq n)
            (omega arith)
            (fill_up-Filled lost named b.capacity count slots b.min_seq b.max_seq f
              (omega arith))) in
        record {
          slots = put filled (seq_ext % b.capacity) (some new_item);
          positive = p;
          has = refl;
          write = λ x same.
              rw (put-put filled (seq_ext % b.capacity) (some new_item) (some x))
                (add_above b.capacity filled b.min_seq seq_ext f' x seq_ext same refl fits);
          lower = let ordered = f.ordered in omega arith;
          upper = omega arith;
        }

    -- Within the limits the place is there.
    inside-Ready : (seq_ext : ℕ) → b.min_seq ≤ seq_ext → seq_ext < b.max_seq → Ready b seq_ext
    inside-Ready seq_ext lo hi = record {
      slots = slots;
      positive = p;
      has = e;
      write = λ x same. replace b.capacity slots b.min_seq b.max_seq f x seq_ext same lo hi;
      lower = lo;
      upper = hi;
    }

    pub make_room-Ready :
        (seq_ext : ℕ) (room : JitterBuffer D)
        → seq_ext ≢ b.min_seq + b.capacity
        → make_room b lost seq_ext ≡ some room
        → Ready room seq_ext
    unfolding make_room
    make_room-Ready seq_ext room d h = elim (Bool-cases (ltb seq_ext b.min_seq)) [
      | inl below ↦ elim (Bool-cases (ltb (seq_ext + b.capacity) b.max_seq)) [
        | inl over ↦ absurd (none≢some (rw (below, over) at h))
        | inr fits ↦
            subst (λ r. Ready r seq_ext)
              (some_inj {A = JitterBuffer D} {a = room_below seq_ext}
                (unfold room_below in rw (below, fits) at h))
              (room_below-Ready seq_ext (ltb→lt _ _ below) (ground arith))
      ]
      | inr not_below ↦ elim (Bool-cases (leb b.max_seq seq_ext)) [
        | inl above ↦ elim (Bool-cases (ltb (b.min_seq + b.capacity) seq_ext)) [
          | inl over ↦ absurd (none≢some (rw (not_below, above, over) at h))
          | inr fits ↦
              subst (λ r. Ready r seq_ext)
                (some_inj {A = JitterBuffer D} {a = room_above seq_ext}
                  (unfold room_above in rw (not_below, above, fits) at h))
                (room_above-Ready seq_ext (leb→le _ _ above) (ground arith))
        ]
        | inr within ↦
            subst (λ r. Ready r seq_ext) (some_inj (rw (not_below, within) at h))
              (inside-Ready seq_ext (ground arith) (ground arith))
      ]
    ]
