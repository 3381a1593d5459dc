-- ===== src/Rtp/Source.antt =====
-- src/rtp_packet_source.cpp and src/rtcp_packet_source.cpp: the counters that number packets. The random
-- start values are parameters.
use srtc.Common.{ℕ, ◌+◌, ◌%◌, ◌^◌, ltb, ◌==◌, ◌&&◌, if◌then◌else◌}

pub record RtpPacketSource : Type 0 where
  pub ssrc : ℕ
  pub payload_id : ℕ
  pub generated_count : ℕ  -- uint32
  pub rollover : ℕ  -- uint32
  pub next_sequence : ℕ  -- uint16

-- `start` is what `mRandom.next()` gives, between 0 and 30000.
unfoldable new_source : ℕ → ℕ → ℕ → RtpPacketSource
new_source ssrc payload_id start = record {
  ssrc = ssrc;
  payload_id = payload_id;
  generated_count = 0;
  rollover = 0;
  next_sequence = start;
}

unfoldable pub get_next_sequence : RtpPacketSource → (ℕ × ℕ) × RtpPacketSource
get_next_sequence s =
    let generated_count = (s.generated_count + 1) % 2 ^ 32 in
    let next_sequence = (s.next_sequence + 1) % 2 ^ 16 in
    let rollover =
      if ltb 1 generated_count && next_sequence == 0
      then (s.rollover + 1) % 2 ^ 32
      else s.rollover in
    (
      (rollover, next_sequence),
      record s {
        generated_count = generated_count;
        rollover = rollover;
        next_sequence = next_sequence;
      },
    )

unfoldable pub clear : RtpPacketSource → ℕ → RtpPacketSource
clear s start = record s { generated_count = 0; rollover = 0; next_sequence = start }

pub record RtcpPacketSource : Type 0 where
  pub ssrc : ℕ
  pub next_sequence : ℕ  -- uint32

unfoldable next_control_sequence : RtcpPacketSource → ℕ × RtcpPacketSource
next_control_sequence s =
    let next = (s.next_sequence + 1) % 2 ^ 32 in (next, record s { next_sequence = next })

unfoldable clear_control : RtcpPacketSource → RtcpPacketSource
clear_control s = record s { next_sequence = 0 }
