-- ===== src/Jitter/Deque.antt =====
-- `JitterBuffer::processDeque` of src/jitter_buffer.cpp and what it calls: the frames that are ready.
use srtc.Common.{ℕ, zero, suc, ◌+◌, ◌-◌, List, [], ◌∷◌, ◌++◌, length, Option, none, some}
use srtc.Common.{Bool, false, not, ◌&&◌, ◌||◌, ltb, leb, ◌==◌, if◌then◌else◌}
use srtc.Bytes.Reader.{ByteReader, reader, remaining, read_u64}
use srtc.Extension.{RtpExtension, find_any}
use srtc.Rtp.{Track}
use srtc.Jitter.{
  standalone, start, middle, last, JitterBufferItem, Depacketizer, JitterBuffer, item_at, set_item,
}
use srtc.Jitter.Consume.{is_too_late}
use srtc.Jitter.Time.{ℤ, diff_millis, is_due, to_signed}

pub record EncodedFrame : Type 0 where
  pub track : Track
  pub seq_ext : ℕ
  pub rtp_timestamp_ext : ℕ
  pub abs_capture_time_ntp : ℕ
  pub abs_capture_time_offset : ℤ
  pub marker : Bool
  pub first_to_last_packet_millis : ℤ
  pub wait_time_millis : ℤ
  pub bytes : List ℕ

-- The two numbers of the absolute capture time, zero where the extension is absent or too short. (The
-- reads that abort are behind the tests.)
unfoldable second_u64 : ℕ × ByteReader → ℕ × ℕ
second_u64 (ntp, r) =
    if leb 8 (remaining r)
    then elim (read_u64 r) [ none ↦ (ntp, 0) | some (offset, r') ↦ (ntp, offset) ]
    else (ntp, 0)

unfoldable capture_time_of : Option (List ℕ) → ℕ × ℕ
unfolding second_u64
capture_time_of none = (0, 0)
capture_time_of (some value) =
    if leb 8 (length value)
    then elim (read_u64 (reader value)) [ none ↦ (0, 0) | some first ↦ second_u64 first ]
    else (0, 0)

unfoldable pub abs_capture_time : ℕ → RtpExtension → ℕ × ℕ
unfolding capture_time_of
abs_capture_time ext_id extension =
    if ext_id == 0
    then (0, 0)
    else elim (find_any extension ext_id) [ none ↦ (0, 0) | some value ↦ capture_time_of value ]

-- One frame for each block of data; the last of them has the marker of the last packet.
unfoldable pub frames_of :
    Track → JitterBufferItem → JitterBufferItem → ℕ → ℕ × ℕ → List (List ℕ) → List EncodedFrame
frames_of track item last_item now capture [] = []
frames_of track item last_item now capture (bytes ∷ rest) =
    record {
      track = track;
      seq_ext = item.seq_ext;
      rtp_timestamp_ext = item.rtp_timestamp_ext;
      abs_capture_time_ntp = capture.0;
      abs_capture_time_offset = to_signed 64 capture.1;
      marker = last_item.marker && length rest == 0;
      first_to_last_packet_millis = diff_millis last_item.when_received item.when_received;
      wait_time_millis = diff_millis now last_item.when_received;
      bytes = bytes;
    }
    ∷ frames_of track item last_item now capture rest

pub data SequenceResult : Type 0 where
  complete : ℕ → SequenceResult
  gap : SequenceResult
  abandoned : SequenceResult

module _ {D : Type 0} where
  -- The frames to append, and the buffer with its new last timestamp.
  unfoldable pub append_to_result :
      JitterBuffer D
      → JitterBufferItem
      → JitterBufferItem
      → ℕ
      → List (List ℕ)
      → List EncodedFrame × JitterBuffer D
  unfolding is_too_late abs_capture_time frames_of
  append_to_result b item last_item now [] = ([], b)
  append_to_result b item last_item now (bytes ∷ rest) =
      if is_too_late b.last_frame_timestamp item.rtp_timestamp_ext then ([], b) else (
        frames_of b.track item last_item now
            (abs_capture_time b.abs_capture_time_extension_id item.extension) (bytes ∷ rest),
        record b { last_frame_timestamp = some item.rtp_timestamp_ext },
      )

  -- Both lists take `count` items from a number on.
  unfoldable pub fill_item_list : JitterBuffer D → ℕ → ℕ → List JitterBufferItem
  fill_item_list b zero seq = []
  fill_item_list b (suc count) seq = item_at b seq ∷ fill_item_list b count (seq + 1)

  unfoldable pub delete_item_list : JitterBuffer D → ℕ → ℕ → JitterBuffer D
  delete_item_list b zero seq = b
  delete_item_list b (suc count) seq = delete_item_list (set_item b seq none) count (seq + 1)

  -- The items up to a number are deleted, and the lower limit moves past it.
  unfoldable pub drop_up_to : JitterBuffer D → ℕ → JitterBuffer D
  unfolding delete_item_list
  drop_up_to b seq = record (delete_item_list b (seq + 1 - b.min_seq) b.min_seq) {
    min_seq = seq + 1;
  }

  -- The search behind the first item. There are `count` numbers left.
  unfoldable pub find_from : JitterBuffer D → ℕ → ℕ → SequenceResult × JitterBuffer D
  unfolding drop_up_to
  find_from b zero seq = (gap, b)
  find_from b (suc count) seq =
      let item = item_at b seq in
      let later = find_from b count (seq + 1) in
      if not item.received then (gap, b) else elim item.kind [
        | last ↦ (complete seq, b)
        | middle ↦ later
        | _ ↦ (abandoned, drop_up_to b seq)
      ]

  unfoldable pub find_multi_packet_sequence : JitterBuffer D → SequenceResult × JitterBuffer D
  unfolding find_from
  find_multi_packet_sequence b = find_from b (b.max_seq - (b.min_seq + 1)) (b.min_seq + 1)

  unfoldable next_from : JitterBuffer D → ℕ → ℕ → ℕ → ℕ → Bool
  next_from b start_timestamp now zero seq = false
  next_from b start_timestamp now (suc count) seq =
      let item = item_at b seq in
      (item.received && ltb start_timestamp item.rtp_timestamp_ext && is_due item.when_dequeue now)
      || next_from b start_timestamp now count (seq + 1)

  unfoldable pub find_next_to_dequeue : JitterBuffer D → ℕ → Bool
  unfolding next_from
  find_next_to_dequeue b now =
      next_from b (item_at b b.min_seq).rtp_timestamp_ext now (b.max_seq - (b.min_seq + 1))
        (b.min_seq + 1)

module _ {D : Type 0} (dep : Depacketizer D) where
  -- Extraction of the packets up to a number, and their cleanup.
  unfoldable pub extract_up_to : JitterBuffer D → ℕ → ℕ → List EncodedFrame × JitterBuffer D
  unfolding append_to_result fill_item_list drop_up_to
  extract_up_to b max_seq now =
      let packets = fill_item_list b (max_seq + 1 - b.min_seq) b.min_seq in
      let (list, depacketizer) = dep.extract b.depacketizer packets in
      let (frames, b') =
        append_to_result (record b { depacketizer = depacketizer }) (item_at b b.min_seq)
          (item_at b max_seq) now list in
      (frames, drop_up_to b' max_seq)

  -- What becomes of a first packet of several; `none` is the exit from the loop.
  unfoldable pub process_start : JitterBuffer D → ℕ → Option (List EncodedFrame × JitterBuffer D)
  unfolding find_multi_packet_sequence find_next_to_dequeue extract_up_to drop_up_to
  process_start b now =
      let (result, b') = find_multi_packet_sequence b in
      elim result [
        | complete max_seq ↦ some (extract_up_to b' max_seq now)
        | gap ↦ if find_next_to_dequeue b' now then some ([], drop_up_to b' b'.min_seq) else none
        | abandoned ↦ some ([], b')
      ]

  -- One round of the loop.
  unfoldable pub process_item : JitterBuffer D → ℕ → Option (List EncodedFrame × JitterBuffer D)
  unfolding extract_up_to process_start drop_up_to
  process_item b now =
      let item = item_at b b.min_seq in
      if item.received && is_due item.when_dequeue now
      then elim item.kind [
        | standalone ↦ some (extract_up_to b b.min_seq now)
        | start ↦ process_start b now
        | _ ↦ some ([], drop_up_to b b.min_seq)
      ]
      else if not item.received && is_due item.when_nack_abandon now
      then some ([], drop_up_to b b.min_seq)
      else none

  unfoldable pub deque_loop : ℕ → JitterBuffer D → ℕ → List EncodedFrame × JitterBuffer D
  unfolding process_item
  deque_loop zero b now = ([], b)
  deque_loop (suc fuel) b now =
      if ltb b.min_seq b.max_seq
      then elim (process_item b now) [
        | none ↦ ([], b)
        | some (frames, b') ↦ let (rest, b'') = deque_loop fuel b' now in (frames ++ rest, b'')
      ]
      else ([], b)

  -- Each round moves the lower limit towards the upper one.
  unfoldable pub process_deque : JitterBuffer D → ℕ → List EncodedFrame × JitterBuffer D
  unfolding deque_loop
  process_deque b now = elim b.item_list [
    | none ↦ ([], b)
    | some slots ↦
        if b.min_seq == b.max_seq then ([], b) else deque_loop (b.max_seq - b.min_seq) b now
  ]
