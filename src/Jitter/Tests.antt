-- ===== src/Jitter/Tests.antt =====
-- The jitter buffer at concrete inputs: a frame of two packets, and a lost one.
use srtc.Common.{
  ℕ, zero, suc, ◌+◌, ◌-◌, ◌%◌, ◌≤◌, ◌<◌, ◌≡◌, ◌≢◌, ◌↔◌, ◌⊎◌, inl, inr, refl, ap, sym, subst, List,
  [], ◌∷◌, ◌++◌, none, some, some_inj, true, arith, All, if◌then◌else◌,
}
use srtc.Extended
use srtc.Extended.{extend, started, extend_from}
use srtc.Extension.{no_extension}
use srtc.Rtp.{Track, RtpPacket}
use srtc.Jitter.{
  start, last, JitterBufferItem, Depacketizer, JitterBuffer, Slots, put, new_item, new_buffer,
  item_at,
}
use srtc.Jitter.Time.{pos, diff_millis, is_due}
use srtc.Jitter.Window.{Filled, one_item, add_above}
use srtc.Jitter.Store.{IsLive, filled-IsLive}
use srtc.Jitter.Invariant.{consume-IsLive}
use srtc.Jitter.Consume.{unwrap_rtx, consume, insert, new_lost_item, is_out_of_range, is_too_late}
use srtc.Jitter.Deque.{
  EncodedFrame, frames_of, abs_capture_time, fill_item_list, process_item, process_deque,
}
use srtc.Jitter.Frames.{InOrder}
use srtc.Jitter.Delivery.{
  IsFrame, process_deque-IsLive, process_deque-InOrder, process_deque_stops, process_deque-frame,
}
use srtc.Jitter.Nack.{process_nack, get_timeout_millis}
use srtc.Jitter.Requests.{AsksFor, process_nack_once}
use srtc.Jitter.Bounds.{is_due_iff, AtMost, get_timeout_millis-AtMost}
use srtc.Jitter.Taken.{Holds, insert-Holds, insert_overruns}

-- A depacketizer that joins the payloads, whose state counts the calls.
join : List JitterBufferItem → List ℕ
join [] = []
join (item ∷ rest) = item.payload ++ join rest

abbrev joiner : Depacketizer ℕ
joiner = record {
  get_packet_kind = λ n payload marker. if marker then last else start;
  reset = λ n. 0;
  extract = λ n items. (join items ∷ [], n + 1);
}

abbrev track : Track
track = record {
  ssrc = 77;
  payload_id = 96;
  rtx_ssrc = 78;
  rtx_payload_id = 97;
  clock_rate = 90000;
  has_nack = true;
}

abbrev now : ℕ
now = 9000000000000000000

abbrev first_item : JitterBufferItem
first_item = record new_item {
  when_received = now;
  when_dequeue = now;
  when_nack_request = now;
  when_nack_abandon = now;
  received = true;
  kind = start;
  seq_ext = 65541;
  rtp_timestamp_ext = 3000;
  payload = 1 ∷ 2 ∷ [];
}

abbrev last_item : JitterBufferItem
last_item = record first_item { kind = last; seq_ext = 65542; payload = 3 ∷ []; marker = true }

abbrev two_slots : JitterBufferItem → Slots
two_slots second = put (put (λ i. none) (65541 % 8) (some first_item)) (65542 % 8) (some second)

abbrev with_second : JitterBufferItem → JitterBuffer ℕ
with_second second = record (new_buffer track 0 8 100 20 0) {
  item_list = some (two_slots second);
  min_seq = 65541;
  max_seq = 65543;
}

-- Both packets are there, or the second is lost.
abbrev whole : JitterBuffer ℕ
whole = with_second last_item

abbrev lost_item : JitterBufferItem
lost_item = new_lost_item now now 65542

abbrev broken : JitterBuffer ℕ
broken = with_second lost_item

with_second-IsLive :
    (second : JitterBufferItem) → second.seq_ext ≡ 65542 → IsLive (with_second second)
unfolding new_buffer
with_second-IsLive second named =
    filled-IsLive (with_second second) (two_slots second) (omega arith) refl (
      add_above 8 _ 65541 65542 (one_item 8 first_item 65541 refl (omega arith)) second 65542 named
        refl (omega arith))

whole-IsLive : IsLive whole
whole-IsLive = with_second-IsLive last_item refl

broken-IsLive : IsLive broken
broken-IsLive = with_second-IsLive lost_item (unfold new_lost_item in refl)

abbrev third : RtpPacket
third = record {
  track = track;
  ssrc = 77;
  payload_id = 96;
  marker = true;
  rollover = 0;
  sequence = 7;
  timestamp = 6000;
  padding_size = 0;
  payload = 4 ∷ [];
  extension = no_extension;
}

third_number : (seq : ℕ) → 7 ≡ seq → (extend whole.ext_value_seq seq now).0 ≡ 65536 + seq
unfolding extend started extend_from new_buffer Extended.new
third_number seq h = refl

not_far :
    (seq : ℕ) (payload : List ℕ)
    → unwrap_rtx whole.track third ≡ some (seq, payload)
    → (extend whole.ext_value_seq seq now).0 ≢ whole.min_seq + whole.capacity
unfolding unwrap_rtx new_buffer
not_far seq payload h same =
    let seven : 7 ≡ seq = ap {A = ℕ × List ℕ} (λ (p : ℕ × List ℕ). p.0) (some_inj h) in
    let number = third_number seq seven in absurd (omega arith)

consume-IsLive_example : IsLive (consume joiner whole third now)
consume-IsLive_example = consume-IsLive joiner whole third now whole-IsLive not_far

process_deque-IsLive_example : IsLive (process_deque joiner whole now).1
process_deque-IsLive_example = process_deque-IsLive joiner whole now whole-IsLive

process_deque-InOrder_example :
    InOrder whole.last_frame_timestamp
      (process_deque joiner whole now).0
      (process_deque joiner whole now).1.last_frame_timestamp
process_deque-InOrder_example = process_deque-InOrder joiner whole now whole-IsLive

process_deque_stops_example :
    ((process_deque joiner broken now).1.min_seq ≡ (process_deque joiner broken now).1.max_seq)
    ⊎ (process_item joiner (process_deque joiner broken now).1 now ≡ none)
process_deque_stops_example =
    process_deque_stops joiner broken now broken-IsLive (two_slots lost_item) refl

whole-IsFrame : IsFrame joiner whole now 65542
unfolding put new_buffer
whole-IsFrame = record {
  more = omega arith;
  inside = omega arith;
  first = refl;
  received = λ i lo hi. elim (which i lo hi) [
    | inl e ↦ subst (λ n. (item_at whole n).received ≡ true) (sym e) refl
    | inr e ↦ subst (λ n. (item_at whole n).received ≡ true) (sym e) refl
  ];
  between = λ i lo hi. absurd (omega arith);
  end = refl;
}
  where
    which : (i : ℕ) → 65541 ≤ i → i ≤ 65542 → (i ≡ 65541) ⊎ (i ≡ 65542)
    which i lo hi = ground arith

due_now : is_due (item_at whole 65541).when_dequeue now ≡ true
unfolding put is_due diff_millis new_buffer
due_now = refl

process_deque-frame_example :
    (rest : List EncodedFrame) × ((process_deque joiner whole now).0
      ≡ frames_of track
          (item_at whole 65541)
          (item_at whole 65542)
          now
          (abs_capture_time 0 (item_at whole 65541).extension)
          (joiner.extract 0 (fill_item_list whole (65542 + 1 - 65541) 65541)).0
        ++ rest)
unfolding new_buffer
process_deque-frame_example =
    process_deque-frame joiner whole now 65542 whole-IsFrame (two_slots last_item) refl due_now
      (unfold is_too_late in refl)

process_nack_once_example :
    All (AsksFor broken now) (process_nack broken now).0
    × ((process_nack (process_nack broken now).1 now).0 ≡ [])
    × IsLive (process_nack broken now).1
process_nack_once_example = process_nack_once broken now broken-IsLive

is_due_iff_example : (is_due now (now + 7000000) ≡ true) ↔ (now < now + 7000000 + 500000)
is_due_iff_example = is_due_iff now (now + 7000000) (omega arith) (omega arith)

get_timeout_millis-AtMost_example :
    AtMost (get_timeout_millis whole 1000 now) (pos 1000)
    × ((slots : Slots)
        → whole.item_list ≡ some slots
        → whole.min_seq < whole.max_seq
        → (item_at whole whole.min_seq).received ≡ true
        → AtMost
            (get_timeout_millis whole 1000 now)
            (diff_millis (item_at whole whole.min_seq).when_dequeue now))
get_timeout_millis-AtMost_example = get_timeout_millis-AtMost whole now 1000

insert-Holds_example :
    Holds (insert joiner whole third (4 ∷ []) 65543 6000 now) third (4 ∷ []) 65543 6000
unfolding new_buffer is_out_of_range
insert-Holds_example =
    insert-Holds joiner whole third (4 ∷ []) 65543 6000 now whole-IsLive (two_slots last_item) refl
      refl (omega arith) (omega arith)

-- A window with an item in each of its four places.
abbrev numbered : ℕ → JitterBufferItem
numbered n = record first_item { seq_ext = n }

full_slots : ℕ → Slots
full_slots zero = put (λ i. none) (65541 % 4) (some (numbered 65541))
full_slots (suc n) = put (full_slots n) ((65542 + n) % 4) (some (numbered (65542 + n)))

full-Filled : (n : ℕ) → n < 4 → Filled 4 (full_slots n) 65541 (65542 + n)
unfolding full_slots
full-Filled zero h = one_item 4 (numbered 65541) 65541 refl (omega arith)
full-Filled (suc n) h =
    subst (λ high. Filled 4 (full_slots (suc n)) 65541 high) (omega arith)
      (add_above 4 (full_slots n) 65541 (65542 + n) (full-Filled n (omega arith))
        (numbered (65542 + n)) (65542 + n) refl refl (omega arith))

abbrev full : JitterBuffer ℕ
full = record (new_buffer track 0 4 100 20 0) {
  item_list = some (full_slots 3);
  min_seq = 65541;
  max_seq = 65545;
}

full-IsLive : IsLive full
unfolding new_buffer
full-IsLive = filled-IsLive full (full_slots 3) (omega arith) refl (full-Filled 3 (omega arith))

insert_overruns_example :
    ((insert joiner full third (4 ∷ []) 65545 6000 now).min_seq ≡ 65541)
    × ((insert joiner full third (4 ∷ []) 65545 6000 now).max_seq ≡ 65541 + 4 + 1)
    × ((item_at (insert joiner full third (4 ∷ []) 65545 6000 now) 65541).seq_ext ≡ 65541 + 4)
unfolding new_buffer is_out_of_range
insert_overruns_example =
    insert_overruns joiner full third (4 ∷ []) 65545 6000 now full-IsLive (full_slots 3) refl refl
      refl
