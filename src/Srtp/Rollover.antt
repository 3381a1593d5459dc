-- ===== src/Srtp/Rollover.antt =====
-- The rollover count of a media channel: the index of a packet is 65536 times the count plus its
-- sequence number.
use srtc.Common.{
  ℕ, ◌+◌, ◌-◌, ◌/◌, ◌%◌, ◌^◌, ◌≤◌, ◌<◌, ◌≡◌, refl, arith, true, List, Option, none, some,
}
use srtc.Common.{ltb-false, leb-true, leb-false, length}
use srtc.Replay.{can_proceed}
use srtc.Srtp.{
  ChannelValue, SrtpConnection, find, put, u16_at, media_rollover, finish, receive_media,
  unprotect_receive_media, get_media_sequence_number,
}
use srtc.Srtp.Channels.{find-put, ensure_there}
use srtc.Srtp.Media.{key_of}
use srtc.Extended.Recovery.{seen}

-- The channel has counted up to the packet with this index.
pub record Counts (channel : ChannelValue) (index : ℕ) : Type 0 where
  pub count : channel.rollover_count ≡ index / 2 ^ 16
  pub last : channel.last_sequence16 ≡ some (index % 2 ^ 16)

-- Where a channel has counted up to the index `last`, the count for a packet at most 4096 ahead or
-- behind is that of its own index, as long as counts stay below 2 ^ 32; the channel then has counted up
-- to the new index, or still to `last` if that is a cycle further.
pub media_rollover-Counts :
    (channel : ChannelValue) (last index : ℕ)
    → Counts channel last
    → index ≤ last + 0x1000
    → last ≤ index + 0x1000
    → index < 2 ^ 48
    → ((media_rollover channel (index % 2 ^ 16)).0 ≡ index / 2 ^ 16)
      × Counts (media_rollover channel (index % 2 ^ 16)).1 (seen (2 ^ 16) last index)
unfolding media_rollover
media_rollover-Counts channel last index counts ahead behind room =
    let count = counts.count in
    let seq = counts.last in (ground arith, record { count = ground arith; last = ground arith })

module _ (uc : List ℕ → Option (List ℕ)) (um : List ℕ → ℕ → Option (List ℕ)) where
  counted :
      (channel : ChannelValue) (last sequence : ℕ)
      → channel.last_sequence16 ≡ some last
      → 0xf000 ≤ last
      → sequence ≤ 0x1000
      → media_rollover channel sequence ≡ (
        (channel.rollover_count + 1) % 2 ^ 32,
        record channel {
          rollover_count = (channel.rollover_count + 1) % 2 ^ 32;
          last_sequence16 = some sequence;
        },
      )
  unfolding media_rollover
  counted channel last sequence h hi lo =
      rw
        (
          h,
          leb-false last 0x1000 (omega arith),
          leb-true 0xf000 last hi,
          leb-true sequence 0x1000 lo,
        )
        refl

  rejected :
      (c : SrtpConnection) (packet : List ℕ) (channel channel' : ChannelValue) (count : ℕ)
      → 12 ≤ length packet
      → find c.channels (key_of packet) ≡ some channel
      → can_proceed channel.replay_protection (u16_at packet 2) ≡ true
      → media_rollover channel (u16_at packet 2) ≡ (count, channel')
      → um packet count ≡ none
      → unprotect_receive_media uc um c packet
        ≡ (record c { channels = put c.channels (key_of packet) channel' }, none)
  unfolding unprotect_receive_media receive_media get_media_sequence_number finish
  rejected c packet channel channel' count long found go rollover refused =
      rw
        (
          ltb-false (length packet) 12 long,
          ensure_there c.channels (key_of packet) (2 ^ 16 - 1) channel found,
          go,
          rollover,
          refused,
          receive_media,
          finish,
        )
        (rw (ensure_there c.channels (key_of packet) (2 ^ 16 - 1) channel found) (rw rollover refl))

  -- A packet that the window lets through and that is not authentic is rejected, but it counts: on a
  -- channel that is at the end of a cycle, a low sequence number in it adds one to the rollover count.
  pub forged_packet_counts :
      (c : SrtpConnection) (packet : List ℕ) (channel : ChannelValue) (last : ℕ)
      → 12 ≤ length packet
      → find c.channels (key_of packet) ≡ some channel
      → can_proceed channel.replay_protection (u16_at packet 2) ≡ true
      → channel.last_sequence16 ≡ some last
      → 0xf000 ≤ last
      → u16_at packet 2 ≤ 0x1000
      → um packet ((channel.rollover_count + 1) % 2 ^ 32) ≡ none
      → ((unprotect_receive_media uc um c packet).1 ≡ none)
        × ((after : ChannelValue) × (find
                (unprotect_receive_media uc um c packet).0.channels
                (key_of packet)
              ≡ some after)
            × (after.rollover_count ≡ (channel.rollover_count + 1) % 2 ^ 32))
  forged_packet_counts c packet channel last long found go h hi lo refused =
      let counted' = record channel {
        rollover_count = (channel.rollover_count + 1) % 2 ^ 32;
        last_sequence16 = some (u16_at packet 2);
      } in
      rw
        (rejected c packet channel counted' _ long found go
          (counted channel last (u16_at packet 2) h hi lo) refused)
        (refl, (counted', find-put c.channels (key_of packet) counted', refl))
