-- ===== src/Jitter/Store.antt =====
-- The writes of `consume` of src/jitter_buffer.cpp to the array as a window on the sequence numbers.
use srtc.Common.{ℕ, zero, suc, ◌+◌, ◌-◌, ◌%◌, ◌≤◌, ◌<◌, ◌≡◌, refl, ap, sym, subst, ◌∙◌}
use srtc.Common.{some, some_inj, arith, ltb, ltb→lt, ◌==◌, if-elim}
use srtc.Jitter.{
  PacketKind, standalone, start, middle, last, JitterBufferItem, JitterBuffer, Slots, slots_of, put,
  item_at, set_item, or_new,
}
use srtc.Jitter.Window.{Filled, replace, add_above, add_below}
use srtc.Jitter.Consume.{fill_down, fill_up, fix_next, fix_start}

-- Where the buffer has an array, it is a window between the two limits.
abbrev pub IsLive : {D : Type 0} → JitterBuffer D → Type 0
IsLive b =
    (0 < b.capacity)
    × ((slots : Slots) → b.item_list ≡ some slots → Filled b.capacity slots b.min_seq b.max_seq)

abbrev Named : (ℕ → JitterBufferItem) → Type 0
Named lost = (i : ℕ) → (lost i).seq_ext ≡ i

module _ (lost : ℕ → JitterBufferItem) (named : Named lost) (capacity : ℕ) where
  pub fill_up-Filled :
      (count : ℕ) (slots : Slots) (low high : ℕ)
      → Filled capacity slots low high
      → high + count ≤ low + capacity
      → Filled capacity (fill_up lost capacity count high slots) low (high + count)
  unfolding fill_up
  fill_up-Filled zero slots low high f h = subst (λ n. Filled capacity slots low n) (omega arith) f
  fill_up-Filled (suc count) slots low high f h =
      subst (λ n. Filled capacity (fill_up lost capacity (suc count) high slots) low n)
        (omega arith)
        (fill_up-Filled count _ low (high + 1)
          (add_above capacity slots low high f (lost high) high (named high) refl (omega arith))
          (omega arith))

  pub fill_down-Filled :
      (count : ℕ) (slots : Slots) (low high : ℕ)
      → Filled capacity slots low high
      → count ≤ low
      → high + count ≤ low + capacity
      → Filled capacity (fill_down lost capacity count (low - 1) slots) (low - count) high
  unfolding fill_down
  fill_down-Filled zero slots low high f le h =
      subst (λ n. Filled capacity slots n high) (omega arith) f
  fill_down-Filled (suc count) slots low high f le h =
      subst (λ n. Filled capacity (fill_down lost capacity (suc count) (low - 1) slots) n high)
        (omega arith)
        (fill_down-Filled count _ (low - 1) high
          (add_below capacity slots low high f (lost (low - 1)) (low - 1) (named (low - 1))
            (omega arith) (omega arith))
          (omega arith) (omega arith))

module _ {D : Type 0} where
  pub filled-IsLive :
      (b : JitterBuffer D) (slots : Slots)
      → 0 < b.capacity
      → b.item_list ≡ some slots
      → Filled b.capacity slots b.min_seq b.max_seq
      → IsLive b
  filled-IsLive b slots p e f =
      (p, λ other h. subst (λ s. Filled b.capacity s b.min_seq b.max_seq) (some_inj (sym e ∙ h)) f)

  pub slots_of-some :
      (b : JitterBuffer D) (slots : Slots) → b.item_list ≡ some slots → slots_of b ≡ slots
  slots_of-some b slots e = rw e refl

  -- Another item for a number inside the limits.
  set_item-IsLive :
      (b : JitterBuffer D) (slots : Slots) (j : ℕ) (item : JitterBufferItem)
      → 0 < b.capacity
      → b.item_list ≡ some slots
      → Filled b.capacity slots b.min_seq b.max_seq
      → b.min_seq ≤ j
      → j < b.max_seq
      → item.seq_ext ≡ j
      → IsLive (set_item b j (some item))
  set_item-IsLive b slots j item p e f lo hi named =
      filled-IsLive (set_item b j (some item)) (put (slots_of b) (j % b.capacity) (some item)) p
        refl
        (rw (slots_of-some b slots e)
          (replace b.capacity slots b.min_seq b.max_seq f item j named lo hi))

  item_at_named :
      (b : JitterBuffer D) (slots : Slots) (j : ℕ)
      → b.item_list ≡ some slots
      → Filled b.capacity slots b.min_seq b.max_seq
      → b.min_seq ≤ j
      → j < b.max_seq
      → (item_at b j).seq_ext ≡ j
  item_at_named b slots j e f lo hi =
      let (item, there, same) = f.full j lo hi in
      ap (λ s. (or_new (s (j % b.capacity))).seq_ext) (slots_of-some b slots e)
      ∙ ap (λ o. (or_new o).seq_ext) there
      ∙ same

  if_start-IsLive :
      (kind : PacketKind) (x y : JitterBuffer D)
      → IsLive x
      → IsLive y
      → IsLive (elim kind [ start ↦ x | _ ↦ y ])
  if_start-IsLive standalone x y h k = k
  if_start-IsLive start x y h k = h
  if_start-IsLive middle x y h k = k
  if_start-IsLive last x y h k = k

  fix_start-IsLive :
      (b : JitterBuffer D) (slots : Slots) (seq_ext timestamp : ℕ)
      → b.item_list ≡ some slots
      → IsLive b
      → b.min_seq ≤ seq_ext
      → IsLive (fix_start b seq_ext timestamp)
  unfolding fix_start
  fix_start-IsLive b slots seq_ext timestamp e live lo =
      let f = live.1 slots e in
      if-elim IsLive (ltb (seq_ext + 1) b.max_seq) _ b
        (λ h.
          let hi : seq_ext + 1 < b.max_seq = ltb→lt _ _ h in
          let next = item_at b (seq_ext + 1) in
          if-elim IsLive (next.rtp_timestamp_ext == timestamp) _ b
            (λ same.
              if_start-IsLive next.kind _ b
                (set_item-IsLive b slots (seq_ext + 1) (record next { kind = middle }) live.0 e f
                  (omega arith) hi (item_at_named b slots (seq_ext + 1) e f (omega arith) hi))
                live)
            (λ differ. live))
        (λ h. live)

  pub fix_next-IsLive :
      (b : JitterBuffer D) (slots : Slots) (seq_ext timestamp : ℕ) (kind : PacketKind)
      → b.item_list ≡ some slots
      → IsLive b
      → b.min_seq ≤ seq_ext
      → IsLive (fix_next b seq_ext timestamp kind)
  unfolding fix_next
  fix_next-IsLive b slots seq_ext timestamp standalone e live lo = live
  fix_next-IsLive b slots seq_ext timestamp start e live lo =
      fix_start-IsLive b slots seq_ext timestamp e live lo
  fix_next-IsLive b slots seq_ext timestamp middle e live lo =
      fix_start-IsLive b slots seq_ext timestamp e live lo
  fix_next-IsLive b slots seq_ext timestamp last e live lo = live
