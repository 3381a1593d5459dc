-- ===== src/Jitter.antt =====
-- src/jitter_buffer.cpp, include/srtc/jitter_buffer.h and jitter_buffer_item.h: the packets of a track,
-- put in order and kept for a while. A time point is the number of nanoseconds since `time_point::min()`.
-- The sequence numbers and the timestamps, extended to 64 bits, stay far below 2 ^ 64, so that only the
-- difference of two timestamps wraps. The capacity is a power of two: the code asserts it, and `&` with
-- the mask is a remainder.
pub mod Time
pub mod Window
pub mod Consume
pub mod Deque
pub mod Nack
pub mod Store
pub mod Keeps
pub mod Invariant
pub mod Frames
pub mod Rounds
pub mod Delivery
pub mod Requests
pub mod Bounds
pub mod Taken
mod Tests
use srtc.Common.{ℕ, ◌+◌, ◌%◌, ◌^◌, List, [], Option, none, some, Bool, false, ◌==◌, if◌then◌else◌}
use srtc.Extended
use srtc.Extended.{ExtendedValue}
use srtc.Extension.{RtpExtension, no_extension}
use srtc.Rtp.{Track}

pub data PacketKind : Type 0 where
  standalone : PacketKind
  start : PacketKind
  middle : PacketKind
  last : PacketKind

pub record JitterBufferItem : Type 0 where
  pub when_received : ℕ
  pub when_dequeue : ℕ
  pub when_nack_request : ℕ
  pub when_nack_abandon : ℕ
  pub received : Bool
  pub nack_needed : Bool
  pub kind : PacketKind
  pub seq_ext : ℕ
  pub rtp_timestamp_ext : ℕ
  pub marker : Bool
  pub extension : RtpExtension
  pub payload : List ℕ

-- The clock's epoch.
abbrev epoch : ℕ
epoch = 2 ^ 63

-- An item as the pool makes it.
unfoldable pub new_item : JitterBufferItem
new_item = record {
  when_received = epoch;
  when_dequeue = epoch;
  when_nack_request = epoch;
  when_nack_abandon = epoch;
  received = false;
  nack_needed = false;
  kind = standalone;
  seq_ext = 0;
  rtp_timestamp_ext = 0;
  marker = false;
  extension = no_extension;
  payload = [];
}

-- What the buffer needs of a depacketizer, whose state is a `D`.
pub record Depacketizer (D : Type 0) : Type 0 where
  pub get_packet_kind : D → List ℕ → Bool → PacketKind
  pub reset : D → D
  pub extract : D → List JitterBufferItem → List (List ℕ) × D

-- The array of item pointers, by index.
abbrev pub Slots : Type 0
Slots = ℕ → Option JitterBufferItem

pub record JitterBuffer (D : Type 0) : Type 0 where
  pub track : Track
  pub depacketizer : D
  pub capacity : ℕ
  pub length_ms : ℕ
  pub nack_delay_ms : ℕ
  pub abs_capture_time_extension_id : ℕ
  pub last_packet_time : ℕ
  pub item_list : Option Slots
  pub min_seq : ℕ
  pub max_seq : ℕ
  pub ext_value_seq : ExtendedValue
  pub ext_value_rtp_timestamp : ExtendedValue
  pub base_time : ℕ
  pub base_rtp_timestamp : ℕ
  pub last_frame_timestamp : Option ℕ

-- The constructor, with the extension id that the track's map gives.
unfoldable pub new_buffer : {D : Type 0} → Track → D → ℕ → ℕ → ℕ → ℕ → JitterBuffer D
new_buffer track depacketizer capacity length_ms nack_delay_ms extension_id = record {
  track = track;
  depacketizer = depacketizer;
  capacity = capacity;
  length_ms = length_ms;
  nack_delay_ms = nack_delay_ms;
  abs_capture_time_extension_id = extension_id;
  last_packet_time = 0;
  item_list = none;
  min_seq = 0;
  max_seq = 0;
  ext_value_seq = Extended.new (2 ^ 16);
  ext_value_rtp_timestamp = Extended.new (2 ^ 32);
  base_time = 0;
  base_rtp_timestamp = 0;
  last_frame_timestamp = none;
}

-- Without an array there is nothing in any place.
abbrev pub slots_of : {D : Type 0} → JitterBuffer D → Slots
slots_of b = elim b.item_list [ none ↦ λ i. none | some slots ↦ slots ]

abbrev pub or_new : Option JitterBufferItem → JitterBufferItem
or_new none = new_item
or_new (some item) = item

unfoldable pub put : Slots → ℕ → Option JitterBufferItem → Slots
put slots key value i = if i == key then value else slots i

-- The item of a sequence number. Where the pointer is null, which crashes, it is a new item here.
abbrev pub item_at : {D : Type 0} → JitterBuffer D → ℕ → JitterBufferItem
item_at b seq = or_new (slots_of b (seq % b.capacity))

abbrev pub set_item : {D : Type 0} → JitterBuffer D → ℕ → Option JitterBufferItem → JitterBuffer D
set_item b seq value = record b { item_list = some (put (slots_of b) (seq % b.capacity) value) }

-- The freed items go back to the pool; the limits stay as they are.
unfoldable pub free_everything : {D : Type 0} → JitterBuffer D → JitterBuffer D
free_everything b = record b { item_list = none; last_frame_timestamp = none }
