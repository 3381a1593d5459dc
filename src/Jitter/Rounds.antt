-- ===== src/Jitter/Rounds.antt =====
-- `processDeque` of src/jitter_buffer.cpp: its loop from the first round to the last.
use srtc.Common.{
  ℕ, zero, suc, ◌+◌, ◌-◌, ◌≤◌, ◌<◌, ◌≡◌, refl, ap, sym, subst, ◌∙◌, List, [], ◌++◌, Option, none,
  some,
}
use srtc.Common.{not, arith, ltb, ltb→lt, if-elim, Option-elim, ◌⊎◌, inl, inr, ◌&&◌, if◌then◌else◌}
use srtc.Jitter.{
  PacketKind, standalone, start, middle, last, Depacketizer, JitterBuffer, Slots, item_at,
}
use srtc.Jitter.Window.{Filled}
use srtc.Jitter.Time.{is_due}
use srtc.Jitter.Frames.{
  InOrder, InOrder-append, kind-elim, moved, Progress, drop_up_to_lem, drop_up_to-Progress,
  append_to_result_lem,
}
use srtc.Jitter.Deque.{
  EncodedFrame, SequenceResult, complete, gap, abandoned, drop_up_to, fill_item_list, find_from,
  find_multi_packet_sequence, find_next_to_dequeue, extract_up_to, process_start, process_item,
  deque_loop,
}

module _ {D : Type 0} where
  -- What the search behind the first item answers.
  abbrev Found : JitterBuffer D → SequenceResult × JitterBuffer D → Type 0
  Found b (complete seq, c) = (c ≡ b) × (b.min_seq ≤ seq) × (seq < b.max_seq)
  Found b (gap, c) = c ≡ b
  Found b (abandoned, c) =
      (seq : ℕ) × (c ≡ drop_up_to b seq) × (b.min_seq ≤ seq) × (seq < b.max_seq)

  search_kind :
      (b : JitterBuffer D) (kind : PacketKind) (x y z : SequenceResult × JitterBuffer D)
      → Found b x
      → Found b y
      → Found b z
      → Found b (elim kind [ last ↦ x | middle ↦ y | _ ↦ z ])
  search_kind b standalone x y z h k l = l
  search_kind b start x y z h k l = l
  search_kind b middle x y z h k l = k
  search_kind b last x y z h k l = h

  find_from-Found :
      (b : JitterBuffer D) (count seq : ℕ)
      → b.min_seq ≤ seq
      → count ≤ b.max_seq - seq
      → Found b (find_from b count seq)
  unfolding find_from
  find_from-Found b zero seq lo hi = refl
  find_from-Found b (suc count) seq lo hi =
      if-elim (Found b) (not (item_at b seq).received) (gap, b) _ (λ missing. refl)
        (λ there.
          search_kind b (item_at b seq).kind (complete seq, b) (find_from b count (seq + 1))
            (abandoned, drop_up_to b seq) (refl, lo, omega arith)
            (find_from-Found b count (seq + 1) (omega arith) (omega arith))
            (seq, refl, lo, omega arith))

module _ {D : Type 0} (dep : Depacketizer D) (now : ℕ) where
  extract_up_to-Progress :
      (b : JitterBuffer D) (slots : Slots) (seq : ℕ)
      → b.item_list ≡ some slots
      → Filled b.capacity slots b.min_seq b.max_seq
      → b.min_seq ≤ seq
      → seq < b.max_seq
      → Progress b (extract_up_to dep b seq now)
  unfolding extract_up_to
  extract_up_to-Progress b slots seq e f lo hi =
      let extracted =
        dep.extract b.depacketizer (fill_item_list b (seq + 1 - b.min_seq) b.min_seq) in
      let b' = record b { depacketizer = extracted.1 } in
      let (after, same, ordered) =
        append_to_result_lem b' (item_at b b.min_seq) (item_at b seq) now extracted.0 in
      let (left, dropped, filled) =
        drop_up_to_lem (record b' { last_frame_timestamp = after }) slots seq e f lo hi in
      record {
        slots = left;
        low = seq + 1;
        after = after;
        depacketizer = extracted.1;
        buffer = ap {B = JitterBuffer D} (λ (c : JitterBuffer D). drop_up_to c seq) same ∙ dropped;
        filled = filled;
        ahead = omega arith;
        ordered = ordered;
      }

  -- A round that goes on makes progress.
  abbrev GoesOn : JitterBuffer D → Option (List EncodedFrame × JitterBuffer D) → Type 0
  GoesOn b none = Unit
  GoesOn b (some r) = Progress b r

  module _ (b : JitterBuffer D) (slots : Slots) (e : b.item_list ≡ some slots)
      (f : Filled b.capacity slots b.min_seq b.max_seq) (some_left : b.min_seq < b.max_seq) where
    drop_first : (c : JitterBuffer D) → c ≡ b → Progress b ([], drop_up_to c c.min_seq)
    drop_first c same =
        subst (λ (c : JitterBuffer D). Progress b ([], drop_up_to c c.min_seq)) (sym same)
          (drop_up_to-Progress b slots b.min_seq e f (omega arith) some_left)

    after_search :
        (result : SequenceResult) (c : JitterBuffer D)
        → Found b (result, c)
        → GoesOn b (elim result [
          | complete max_seq ↦ some (extract_up_to dep c max_seq now)
          | gap ↦ if find_next_to_dequeue c now then some ([], drop_up_to c c.min_seq) else none
          | abandoned ↦ some ([], c)
        ])
    after_search (complete seq) c (same, lo, hi) =
        subst (λ (c : JitterBuffer D). Progress b (extract_up_to dep c seq now)) (sym same)
          (extract_up_to-Progress b slots seq e f lo hi)
    after_search gap c same =
        if-elim (GoesOn b) (find_next_to_dequeue c now) _ none (λ ready. drop_first c same)
          (λ wait. tt)
    after_search abandoned c (seq, same, lo, hi) =
        subst (λ (c : JitterBuffer D). Progress b ([], c)) (sym same)
          (drop_up_to-Progress b slots seq e f lo hi)

    process_start-GoesOn : GoesOn b (process_start dep b now)
    unfolding process_start find_multi_packet_sequence
    process_start-GoesOn =
        let found = find_from b (b.max_seq - (b.min_seq + 1)) (b.min_seq + 1) in
        after_search found.0 found.1
          (find_from-Found b _ (b.min_seq + 1) (omega arith) (omega arith))

    process_item-GoesOn : GoesOn b (process_item dep b now)
    unfolding process_item
    process_item-GoesOn =
        let item = item_at b b.min_seq in
        let dropped = drop_first b refl in
        if-elim (GoesOn b) (item.received && is_due item.when_dequeue now) _ _
          (λ due.
            kind-elim (GoesOn b) item.kind _ _ _
              (extract_up_to-Progress b slots b.min_seq e f (omega arith) some_left)
              process_start-GoesOn dropped)
          (λ later.
            if-elim (GoesOn b) (not item.received && is_due item.when_nack_abandon now) _ none
              (λ given_up. dropped) (λ wait. tt))

  -- The loop ends with an empty window, or at an item for which the code leaves it.
  pub record Ended (b : JitterBuffer D) (r : List EncodedFrame × JitterBuffer D) : Type 0 where
    pub slots : Slots
    pub low : ℕ
    pub after : Option ℕ
    pub depacketizer : D
    pub buffer : r.1 ≡ moved b slots low after depacketizer
    pub filled : Filled b.capacity slots low b.max_seq
    pub ordered : InOrder b.last_frame_timestamp r.0 after
    pub stopped : (low ≡ b.max_seq) ⊎ (process_item dep r.1 now ≡ none)

  pub stays :
      (b : JitterBuffer D) (slots : Slots)
      → b.item_list ≡ some slots
      → Filled b.capacity slots b.min_seq b.max_seq
      → (b.min_seq ≡ b.max_seq) ⊎ (process_item dep b now ≡ none)
      → Ended b ([], b)
  stays b slots e f why = record {
    slots = slots;
    low = b.min_seq;
    after = b.last_frame_timestamp;
    depacketizer = b.depacketizer;
    buffer = ap {B = JitterBuffer D} (λ o. record b { item_list = o }) e;
    filled = f;
    ordered = refl;
    stopped = why;
  }

  -- The rounds after the first.
  goes_on :
      (b c : JitterBuffer D) (frames : List EncodedFrame) (r : List EncodedFrame × JitterBuffer D)
      (progress : Progress b (frames, c))
      → Ended (moved b progress.slots progress.low progress.after progress.depacketizer) r
      → Ended b (frames ++ r.0, r.1)
  goes_on b c frames r progress ended = record {
    slots = ended.slots;
    low = ended.low;
    after = ended.after;
    depacketizer = ended.depacketizer;
    buffer = ended.buffer;
    filled = ended.filled;
    ordered =
        InOrder-append frames r.0 b.last_frame_timestamp progress.after ended.after progress.ordered
          ended.ordered;
    stopped = ended.stopped;
  }

  pub deque_loop-Ended :
      (fuel : ℕ) (b : JitterBuffer D) (slots : Slots)
      → b.item_list ≡ some slots
      → Filled b.capacity slots b.min_seq b.max_seq
      → b.max_seq - b.min_seq ≤ fuel
      → Ended b (deque_loop dep fuel b now)
  unfolding deque_loop
  deque_loop-Ended zero b slots e f h =
      stays b slots e f (inl (let ordered = f.ordered in omega arith))
  deque_loop-Ended (suc fuel) b slots e f h =
      if-elim (Ended b) (ltb b.min_seq b.max_seq) _ ([], b)
        (λ left.
          let some_left : b.min_seq < b.max_seq = ltb→lt _ _ left in
          Option-elim (Ended b) (process_item dep b now) ([], b) _
            (λ stop. stays b slots e f (inr stop))
            (λ (frames, c) went.
              let progress : Progress b (frames, c) =
                subst (GoesOn b) went (process_item-GoesOn b slots e f some_left) in
              let next = moved b progress.slots progress.low progress.after progress.depacketizer in
              let ahead = progress.ahead in
              goes_on b c frames (deque_loop dep fuel c now) progress (
                subst (λ (c : JitterBuffer D). Ended next (deque_loop dep fuel c now))
                  (sym progress.buffer)
                  (deque_loop-Ended fuel next progress.slots refl progress.filled (omega arith)))))
        (λ empty. stays b slots e f (inl (let ordered = f.ordered in ground arith)))
