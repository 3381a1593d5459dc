-- ===== src/Jitter/Consume.antt =====
-- `JitterBuffer::consume` of src/jitter_buffer.cpp, which adds a packet.
use srtc.Common.{ℕ, zero, suc, ◌+◌, ◌-◌, ◌*◌, ◌/◌, ◌%◌, ◌^◌, List, drop, Option, none, some}
use srtc.Common.{Bool, true, false, ◌&&◌, ◌||◌, ltb, leb, ◌==◌, if◌then◌else◌}
use srtc.Bytes.Reader.{reader, read_u16}
use srtc.Extended.{extend}
use srtc.Rtp.{Track, RtpPacket}
use srtc.Jitter.{
  PacketKind, start, middle, JitterBufferItem, Depacketizer, JitterBuffer, Slots, new_item,
  slots_of, put, item_at, set_item, free_everything,
}

-- `kNoPacketsResetDelay`
abbrev no_packets_reset_delay : ℕ
no_packets_reset_delay = 2000000000

abbrev time_max : ℕ
time_max = 2 ^ 64 - 1

-- The sequence number and the payload, those inside a retransmission where the packet is one; `none`
-- where that is cut short. The assert that the packet is of the buffer's own track is not modelled: packets of
-- other tracks are taken too.
unfoldable pub unwrap_rtx : Track → RtpPacket → Option (ℕ × List ℕ)
unwrap_rtx track packet =
    if packet.ssrc == track.rtx_ssrc && packet.payload_id == track.rtx_payload_id
    then elim (read_u16 (reader packet.payload)) [
      | none ↦ none
      | some (seq, r) ↦ some (seq, drop 2 packet.payload)
    ]
    else some (packet.sequence, packet.payload)

unfoldable pub is_too_late : Option ℕ → ℕ → Bool
is_too_late none rtp_timestamp_ext = false
is_too_late (some last_timestamp) rtp_timestamp_ext = ltb rtp_timestamp_ext last_timestamp

-- `newLostItem`
unfoldable pub new_lost_item : ℕ → ℕ → ℕ → JitterBufferItem
new_lost_item when_nack_request when_nack_abandon seq_lost = record new_item {
  when_received = 0;
  when_dequeue = time_max;
  when_nack_request = when_nack_request;
  when_nack_abandon = when_nack_abandon;
  received = false;
  nack_needed = true;
  seq_ext = seq_lost;
  rtp_timestamp_ext = 0;
}

-- The loops that store lost items, downwards from a number and upwards: one round for each of the
-- `count` numbers.
module _ (lost : ℕ → JitterBufferItem) (capacity : ℕ) where
  unfoldable pub fill_down : ℕ → ℕ → Slots → Slots
  fill_down zero seq_lost slots = slots
  fill_down (suc count) seq_lost slots =
      fill_down count (seq_lost - 1) (put slots (seq_lost % capacity) (some (lost seq_lost)))

  unfoldable pub fill_up : ℕ → ℕ → Slots → Slots
  fill_up zero seq_lost slots = slots
  fill_up (suc count) seq_lost slots =
      fill_up count (seq_lost + 1) (put slots (seq_lost % capacity) (some (lost seq_lost)))

module _ {D : Type 0} where
  -- The first packet makes the array.
  unfoldable pub first_packet : JitterBuffer D → ℕ → ℕ → ℕ → JitterBuffer D
  first_packet b seq_ext rtp_timestamp_ext now = record b {
    min_seq = seq_ext;
    max_seq = seq_ext + 1;
    item_list = some (put (λ i. none) (seq_ext % b.capacity) (some new_item));
    base_time = now;
    base_rtp_timestamp = rtp_timestamp_ext;
  }

  unfoldable pub is_out_of_range : JitterBuffer D → ℕ → Bool
  is_out_of_range b seq_ext =
      leb (seq_ext + b.capacity / 4) b.min_seq || leb (b.max_seq + b.capacity / 4) seq_ext

  -- `none` is an early return.
  unfoldable pub admit : JitterBuffer D → ℕ → ℕ → ℕ → Option (JitterBuffer D)
  unfolding first_packet is_out_of_range
  admit b seq_ext rtp_timestamp_ext now = elim b.item_list [
    | none ↦ some (first_packet b seq_ext rtp_timestamp_ext now)
    | some slots ↦ if is_out_of_range b seq_ext then none else some b
  ]

  -- The delta is unsigned and wraps. A sum of times that overflows, which is undefined, wraps too.
  unfoldable pub when_dequeue : JitterBuffer D → ℕ → ℕ
  when_dequeue b rtp_timestamp_ext =
      let delta = (rtp_timestamp_ext + 2 ^ 64 - b.base_rtp_timestamp) % 2 ^ 64 in
      let time_delta = 1000 * delta % 2 ^ 64 / b.track.clock_rate in
      (b.base_time + time_delta * 1000000 + b.length_ms * 1000000) % 2 ^ 64

  -- A place for the number, with the numbers in between as lost items; `none` is an early return.
  unfoldable pub make_room : JitterBuffer D → (ℕ → JitterBufferItem) → ℕ → Option (JitterBuffer D)
  unfolding fill_down fill_up
  make_room b lost seq_ext =
      if ltb seq_ext b.min_seq
      then (if ltb (seq_ext + b.capacity) b.max_seq
          then none
          else some (record b {
            item_list = some (
                put
                  (fill_down lost b.capacity (b.min_seq - 1 - seq_ext) (b.min_seq - 1) (slots_of b))
                  (seq_ext % b.capacity) (some new_item));
            min_seq = seq_ext;
          }))
      else if leb b.max_seq seq_ext
      then (if ltb (b.min_seq + b.capacity) seq_ext
          then none
          else some (record b {
            item_list = some (
                put (fill_up lost b.capacity (seq_ext - b.max_seq) b.max_seq (slots_of b))
                  (seq_ext % b.capacity) (some new_item));
            max_seq = seq_ext + 1;
          }))
      else some b

  -- A packet that seems to start a frame continues the one before it, by the timestamp.
  unfoldable kind_after : JitterBuffer D → ℕ → ℕ → PacketKind → PacketKind
  kind_after b seq_ext rtp_timestamp_ext start =
      if ltb b.min_seq seq_ext
      then (let prev = item_at b (seq_ext - 1) in
          if prev.rtp_timestamp_ext == rtp_timestamp_ext
          then elim prev.kind [ start ↦ middle | middle ↦ middle | _ ↦ start ]
          else start)
      else start
  kind_after b seq_ext rtp_timestamp_ext kind = kind

  -- And the packet after this one.
  unfoldable pub fix_start : JitterBuffer D → ℕ → ℕ → JitterBuffer D
  fix_start b seq_ext rtp_timestamp_ext =
      if ltb (seq_ext + 1) b.max_seq
      then (let next = item_at b (seq_ext + 1) in
          if next.rtp_timestamp_ext == rtp_timestamp_ext
          then elim next.kind [
            | start ↦ set_item b (seq_ext + 1) (some (record next { kind = middle }))
            | _ ↦ b
          ]
          else b)
      else b

  unfoldable pub fix_next : JitterBuffer D → ℕ → ℕ → PacketKind → JitterBuffer D
  unfolding fix_start
  fix_next b seq_ext rtp_timestamp_ext start = fix_start b seq_ext rtp_timestamp_ext
  fix_next b seq_ext rtp_timestamp_ext middle = fix_start b seq_ext rtp_timestamp_ext
  fix_next b seq_ext rtp_timestamp_ext kind = b

module _ {D : Type 0} (dep : Depacketizer D) where
  -- The reset after a long pause.
  unfoldable pub reset_if_idle : JitterBuffer D → ℕ → ℕ → JitterBuffer D
  unfolding free_everything
  reset_if_idle b seq_ext now = elim b.item_list [
    | none ↦ b
    | some slots ↦
        if leb (b.last_packet_time + no_packets_reset_delay) now
          && leb (b.max_seq + b.capacity / 8) seq_ext
        then record (free_everything b) { depacketizer = dep.reset b.depacketizer }
        else b
  ]

  -- All fields of the item are assigned.
  unfoldable pub store : JitterBuffer D → RtpPacket → List ℕ → ℕ → ℕ → ℕ → JitterBuffer D
  unfolding when_dequeue kind_after fix_next
  store b packet payload seq_ext rtp_timestamp_ext now =
      let when = when_dequeue b rtp_timestamp_ext in
      let item : PacketKind → JitterBufferItem = λ kind. record {
        when_received = now;
        when_dequeue = when;
        when_nack_request = now + b.nack_delay_ms * 1000000;
        when_nack_abandon = when;
        received = true;
        nack_needed = false;
        kind = kind;
        seq_ext = seq_ext;
        rtp_timestamp_ext = rtp_timestamp_ext;
        marker = packet.marker;
        extension = packet.extension;
        payload = payload;
      } in
      let told = dep.get_packet_kind b.depacketizer payload packet.marker in
      let kind =
        kind_after (set_item b seq_ext (some (item told))) seq_ext rtp_timestamp_ext told in
      let stored = set_item b seq_ext (some (item kind)) in
      fix_next stored seq_ext rtp_timestamp_ext kind

  -- From the admission on.
  unfoldable pub insert : JitterBuffer D → RtpPacket → List ℕ → ℕ → ℕ → ℕ → JitterBuffer D
  unfolding admit make_room when_dequeue new_lost_item store
  insert b packet payload seq_ext rtp_timestamp_ext now =
      elim (admit b seq_ext rtp_timestamp_ext now) [
        | none ↦ b
        | some a ↦
            let lost =
              new_lost_item (now + a.nack_delay_ms * 1000000) (when_dequeue a rtp_timestamp_ext) in
            elim (make_room a lost seq_ext) [
              | none ↦ a
              | some room ↦ store room packet payload seq_ext rtp_timestamp_ext now
            ]
      ]

  -- The clock is read once. The extended counters move on every branch past the unwrapping.
  unfoldable pub consume : JitterBuffer D → RtpPacket → ℕ → JitterBuffer D
  unfolding unwrap_rtx extend is_too_late reset_if_idle insert
  consume b packet now = elim (unwrap_rtx b.track packet) [
    | none ↦ b
    | some (seq, payload) ↦
        let (seq_ext, ext_seq) = extend b.ext_value_seq seq now in
        let (rtp_timestamp_ext, ext_timestamp) =
          extend b.ext_value_rtp_timestamp packet.timestamp now in
        let b' = record b { ext_value_seq = ext_seq; ext_value_rtp_timestamp = ext_timestamp } in
        if is_too_late b'.last_frame_timestamp rtp_timestamp_ext
        then b'
        else insert (record (reset_if_idle b' seq_ext now) { last_packet_time = now }) packet
            payload seq_ext rtp_timestamp_ext now
  ]
