-- ===== src/Jitter/Delivery.antt =====
-- `processDeque` of src/jitter_buffer.cpp: what it delivers, and when it stops.
use srtc.Common.{
  ℕ, zero, suc, ◌+◌, ◌-◌, ◌≤◌, ◌<◌, ◌≡◌, refl, ap, sym, subst, ◌∙◌, List, [], ◌∷◌, ◌++◌, none, some,
  some_inj, none≢some,
}
use srtc.Common.{
  true, false, arith, lt→ltb, if-elim, Option-elim, Option-cases, ◌⊎◌, inl, inr, ◌==◌,
}
use srtc.Jitter.{start, middle, last, Depacketizer, JitterBuffer, Slots, item_at}
use srtc.Jitter.Window.{Filled}
use srtc.Jitter.Store.{IsLive}
use srtc.Jitter.Consume.{is_too_late}
use srtc.Jitter.Time.{is_due}
use srtc.Jitter.Frames.{InOrder}
use srtc.Jitter.Rounds.{Ended, stays, deque_loop-Ended}
use srtc.Jitter.Deque.{
  EncodedFrame, append_to_result, frames_of, abs_capture_time, SequenceResult, complete,
  fill_item_list, find_from, find_multi_packet_sequence, extract_up_to, process_start, process_item,
  deque_loop, process_deque,
}

module _ {D : Type 0} (dep : Depacketizer D) (b : JitterBuffer D) (now : ℕ) where
  process_deque-Ended :
      (slots : Slots)
      → b.item_list ≡ some slots
      → Filled b.capacity slots b.min_seq b.max_seq
      → Ended dep now b (process_deque dep b now)
  unfolding process_deque
  process_deque-Ended slots e f =
      Option-elim (Ended dep now b) b.item_list ([], b) _
        (λ empty. absurd (none≢some (sym empty ∙ e)))
        (λ other k.
          if-elim (Ended dep now b) (b.min_seq == b.max_seq) ([], b) _
            (λ same. stays dep now b slots e f (inl (ground arith)))
            (λ differ. deque_loop-Ended dep now (b.max_seq - b.min_seq) b slots e f (omega arith)))

  nothing_without_items : b.item_list ≡ none → process_deque dep b now ≡ ([], b)
  unfolding process_deque
  nothing_without_items empty =
      Option-elim (λ r. r ≡ ([], b)) b.item_list ([], b) _ (λ e. refl)
        (λ slots e. absurd (none≢some (sym empty ∙ e)))

  -- `processDeque` keeps the array a window between the two limits.
  pub process_deque-IsLive : IsLive b → IsLive (process_deque dep b now).1
  process_deque-IsLive live = elim (Option-cases b.item_list) [
    | inl empty ↦
        subst (λ (r : List EncodedFrame × JitterBuffer D). IsLive r.1)
          (sym (nothing_without_items empty)) live
    | inr (slots, e) ↦
        let ended = process_deque-Ended slots e (live.1 slots e) in
        subst IsLive (sym ended.buffer) (
          live.0,
          λ other h. subst (λ s. Filled b.capacity s ended.low b.max_seq) (some_inj h) ended.filled,
        )
  ]

  -- The frames that one call of `processDeque` on a window delivers have timestamps that never go back, not
  -- before the last timestamp of earlier calls either; the last timestamp becomes that of the last frame.
  pub process_deque-InOrder :
      IsLive b
      → InOrder b.last_frame_timestamp
          (process_deque dep b now).0
          (process_deque dep b now).1.last_frame_timestamp
  process_deque-InOrder live = elim (Option-cases b.item_list) [
    | inl empty ↦
        subst
          (λ (r : List EncodedFrame × JitterBuffer D).
            InOrder b.last_frame_timestamp r.0 r.1.last_frame_timestamp)
          (sym (nothing_without_items empty)) refl
    | inr (slots, e) ↦
        let ended = process_deque-Ended slots e (live.1 slots e) in
        subst
          (λ (c : JitterBuffer D).
            InOrder b.last_frame_timestamp (process_deque dep b now).0 c.last_frame_timestamp)
          (sym ended.buffer) ended.ordered
  ]

  -- The loop of `processDeque` on a window ends by itself, within as many rounds as there are numbers in
  -- the window: afterwards the window is empty, or its first item makes the code leave the loop.
  pub process_deque_stops :
      IsLive b
      → (slots : Slots) → b.item_list ≡ some slots
      → ((process_deque dep b now).1.min_seq ≡ (process_deque dep b now).1.max_seq)
        ⊎ (process_item dep (process_deque dep b now).1 now ≡ none)
  process_deque_stops live slots e =
      let ended = process_deque-Ended slots e (live.1 slots e) in
      elim ended.stopped [
        | inl empty ↦ inl (
            ap {A = JitterBuffer D} (λ (c : JitterBuffer D). c.min_seq) ended.buffer
            ∙ empty
            ∙ sym (ap {A = JitterBuffer D} (λ (c : JitterBuffer D). c.max_seq) ended.buffer))
        | inr wait ↦ inr wait
      ]

  -- The packets of a frame from the lower limit up to `seq`, all received.
  pub record IsFrame (seq : ℕ) : Type 0 where
    pub more : b.min_seq < seq
    pub inside : seq < b.max_seq
    pub first : (item_at b b.min_seq).kind ≡ start
    pub received : (i : ℕ) → b.min_seq ≤ i → i ≤ seq → (item_at b i).received ≡ true
    pub between : (i : ℕ) → b.min_seq < i → i < seq → (item_at b i).kind ≡ middle
    pub end : (item_at b seq).kind ≡ last

  module _ (seq : ℕ) (frame : IsFrame seq) where
    -- The search stops at the last packet.
    find_frame :
        (count before i : ℕ)
        → before < count
        → b.min_seq < i
        → i + before ≡ seq
        → find_from b count i ≡ (complete seq, b)
    unfolding find_from
    find_frame zero before i enough lo at = absurd (omega arith)
    find_frame (suc count) zero i enough lo at =
        let here : seq ≡ i = omega arith in
        subst (λ s. find_from b (suc count) i ≡ (complete s, b)) (sym here)
          (rw
            (subst (λ s. (item_at b s).received ≡ true) here
              (frame.received seq (omega arith) (omega arith)))
            (rw (subst (λ s. (item_at b s).kind ≡ last) here frame.end, find_from) refl))
    find_frame (suc count) (suc before) i enough lo at =
        rw (frame.received i (omega arith) (omega arith)) (
          rw (frame.between i lo (omega arith), find_from)
            (find_frame count before (i + 1) (omega arith) (omega arith) (omega arith)))

    process_item-frame :
        is_due (item_at b b.min_seq).when_dequeue now ≡ true
        → process_item dep b now ≡ some (extract_up_to dep b seq now)
    unfolding process_item process_start
    process_item-frame due =
        let more = frame.more in
        rw (frame.received b.min_seq (omega arith) (omega arith), due)
          (rw (frame.first, process_item)
            (rw (found, process_start)
              (ap (λ (r : SequenceResult × JitterBuffer D). some (extract_up_to dep r.1 seq now))
                found)))
      where
        found : find_multi_packet_sequence b ≡ (complete seq, b)
        found =
            unfold find_multi_packet_sequence in
            (let more = frame.more in
              let inside = frame.inside in
              find_frame (b.max_seq - (b.min_seq + 1)) (seq - (b.min_seq + 1)) (b.min_seq + 1)
                (omega arith) (omega arith) (omega arith))

    process_deque-first :
        (slots : Slots)
        → b.item_list ≡ some slots
        → is_due (item_at b b.min_seq).when_dequeue now ≡ true
        → (rest : List EncodedFrame) × ((process_deque dep b now).0
            ≡ (extract_up_to dep b seq now).0 ++ rest)
    unfolding process_deque
    process_deque-first slots e due =
        let more = frame.more in
        let inside = frame.inside in
        Option-elim Begins b.item_list ([], b) _ (λ empty. absurd (none≢some (sym empty ∙ e)))
          (λ other k.
            if-elim Begins (b.min_seq == b.max_seq) ([], b) _ (λ same. absurd (ground arith))
              (λ differ. loop_begins (b.max_seq - b.min_seq) (omega arith)))
      where
        Begins : List EncodedFrame × JitterBuffer D → Type 0
        Begins r = (rest : List EncodedFrame) × (r.0 ≡ (extract_up_to dep b seq now).0 ++ rest)

        loop_begins : (fuel : ℕ) → 0 < fuel → Begins (deque_loop dep fuel b now)
        loop_begins zero h = absurd (omega arith)
        loop_begins (suc fuel) h =
            unfold deque_loop in
            (let more = frame.more in
              let inside = frame.inside in
              rw (lt→ltb b.min_seq b.max_seq (omega arith), process_item-frame due) (_, refl))

    -- A frame of several packets, all received, whose time has come and which is not older than the last one
    -- delivered, is delivered first: as the blocks that the depacketizer extracts from exactly its packets,
    -- in the order of their numbers.
    pub process_deque-frame :
        (slots : Slots)
        → b.item_list ≡ some slots
        → is_due (item_at b b.min_seq).when_dequeue now ≡ true
        → is_too_late b.last_frame_timestamp (item_at b b.min_seq).rtp_timestamp_ext ≡ false
        → (rest : List EncodedFrame) × ((process_deque dep b now).0
            ≡ frames_of b.track
                (item_at b b.min_seq)
                (item_at b seq)
                now
                (abs_capture_time b.abs_capture_time_extension_id (item_at b b.min_seq).extension)
                (dep.extract b.depacketizer (fill_item_list b (seq + 1 - b.min_seq) b.min_seq)).0
              ++ rest)
    process_deque-frame slots e due in_time =
        let (rest, begins) = process_deque-first slots e due in
        (rest, begins ∙ ap (λ (f : List EncodedFrame). f ++ rest) extracted_lem)
      where
        appended :
            (c : JitterBuffer D) (list : List (List ℕ))
            → is_too_late c.last_frame_timestamp (item_at b b.min_seq).rtp_timestamp_ext ≡ false
            → (append_to_result c (item_at b b.min_seq) (item_at b seq) now list).0
              ≡ frames_of c.track
                  (item_at b b.min_seq)
                  (item_at b seq)
                  now
                  (abs_capture_time c.abs_capture_time_extension_id (item_at b b.min_seq).extension)
                  list
        appended c [] h = unfold append_to_result frames_of in refl
        appended c (bytes ∷ list) h =
            unfold append_to_result in
            if-elim
              (λ (r : List EncodedFrame × JitterBuffer D).
                r.0
                ≡ frames_of c.track (item_at b b.min_seq) (item_at b seq) now
                    (abs_capture_time c.abs_capture_time_extension_id
                      (item_at b b.min_seq).extension)
                    (bytes ∷ list))
              (is_too_late c.last_frame_timestamp (item_at b b.min_seq).rtp_timestamp_ext) _ _
              (λ late. ground (arith, late, h)) (λ fine. refl)

        extracted_lem :
            (extract_up_to dep b seq now).0
            ≡ frames_of b.track
                (item_at b b.min_seq)
                (item_at b seq)
                now
                (abs_capture_time b.abs_capture_time_extension_id (item_at b b.min_seq).extension)
                (dep.extract b.depacketizer (fill_item_list b (seq + 1 - b.min_seq) b.min_seq)).0
        extracted_lem = unfold extract_up_to in appended _ _ in_time
