-- ===== src/Srtp.antt =====
-- src/srtp_connection.cpp: which packets a secure connection lets through. The channels of the
-- incoming packets each have a replay window and a count of sequence rollovers.
pub mod Channels
pub mod Outcome
pub mod Control
pub mod Media
pub mod Rollover
mod Tests
use srtc.Common.{ℕ, zero, suc, ◌+◌, ◌-◌, ◌*◌, ◌/◌, ◌%◌, ◌^◌, Bool, true, false, ◌&&◌, List, [], ◌∷◌}
use srtc.Common.{Option, none, some, ltb, leb, ◌==◌, if◌then◌else◌, length, get_or}
use srtc.Replay
use srtc.Replay.{ReplayProtection, can_proceed, set_value}

-- The SRTP profiles that `create` accepts.
pub data Profile : Type 0 where
  aes_256_gcm : Profile
  aes_128_gcm : Profile
  aes128_sha1_80 : Profile
  aes128_sha1_32 : Profile

pub record ChannelKey : Type 0 where
  pub ssrc : ℕ
  pub payload_id : ℕ

pub record ChannelValue : Type 0 where
  pub replay_protection : ReplayProtection
  pub rollover_count : ℕ
  pub last_sequence16 : Option ℕ

-- A channel map is an association list, since no operation depends on its order. Only
-- `mSrtpInMap` is ever filled.
pub record SrtpConnection : Type 0 where
  pub profile : Profile
  pub channels : List (ChannelKey × ChannelValue)

abbrev pub same_key : ChannelKey → ChannelKey → Bool
same_key a b = a.ssrc == b.ssrc && a.payload_id == b.payload_id

unfoldable pub find : List (ChannelKey × ChannelValue) → ChannelKey → Option ChannelValue
find [] key = none
find ((k, v) ∷ rest) key = if same_key k key then some v else find rest key

-- The assignment through the reference that `ensureSrtpChannel` returns.
unfoldable pub put :
    List (ChannelKey × ChannelValue) → ChannelKey → ChannelValue → List (ChannelKey × ChannelValue)
put [] key value = (key, value) ∷ []
put ((k, v) ∷ rest) key value =
    if same_key k key then (k, value) ∷ rest else (k, v) ∷ put rest key value

abbrev pub window_size : ℕ
window_size = 2048

unfoldable pub new_channel : ℕ → ChannelValue
new_channel max_possible_value = record {
  replay_protection = Replay.new max_possible_value window_size;
  rollover_count = 0;
  last_sequence16 = none;
}

-- The channel of a key, new if there is none.
unfoldable pub ensure_srtp_channel :
    List (ChannelKey × ChannelValue)
    → ChannelKey
    → ℕ
    → ChannelValue × List (ChannelKey × ChannelValue)
ensure_srtp_channel channels key max_possible_value = elim (find channels key) [
  | none ↦ let value = new_channel max_possible_value in (value, put channels key value)
  | some value ↦ (value, channels)
]

-- A big-endian number of two or four bytes at a position, where the packet is long enough.
abbrev pub u16_at : List ℕ → ℕ → ℕ
u16_at bytes at = get_or bytes at 0 * 2 ^ 8 + get_or bytes (at + 1) 0

abbrev pub u32_at : List ℕ → ℕ → ℕ
u32_at bytes at =
    get_or bytes at 0 * 2 ^ 24
    + get_or bytes (at + 1) 0 * 2 ^ 16
    + get_or bytes (at + 2) 0 * 2 ^ 8
    + get_or bytes (at + 3) 0

unfoldable pub offset_from_end : Profile → ℕ
offset_from_end aes_256_gcm = 4
offset_from_end aes_128_gcm = 4
offset_from_end aes128_sha1_80 = 14
offset_from_end aes128_sha1_32 = 14

-- The SRTCP index, without the encryption bit.
unfoldable pub get_control_sequence_number : Profile → List ℕ → Option ℕ
get_control_sequence_number profile packet =
    let offset = offset_from_end profile in
    if ltb (length packet) (offset + 8)
    then none
    else some (u32_at packet (length packet - offset) % 2 ^ 31)

unfoldable pub get_media_sequence_number : List ℕ → Option ℕ
get_media_sequence_number packet = if ltb (length packet) 12 then none else some (u16_at packet 2)

unfoldable on_peer_connected : SrtpConnection → SrtpConnection
on_peer_connected c = record c { channels = [] }

-- The rollover count for a packet, and the channel after the count.
unfoldable pub media_rollover : ChannelValue → ℕ → ℕ × ChannelValue
media_rollover channel sequence = elim channel.last_sequence16 [
  | none ↦ (channel.rollover_count, record channel { last_sequence16 = some sequence })
  | some last ↦
      if leb last 0x1000 && leb 0xf000 sequence
      then (
        if ltb 0 channel.rollover_count then channel.rollover_count - 1 else channel.rollover_count,
        channel,
      )
      else if leb 0xf000 last && leb sequence 0x1000
      then (let count = (channel.rollover_count + 1) % 2 ^ 32 in
          (count, record channel { rollover_count = count; last_sequence16 = some sequence }))
      else (channel.rollover_count, record channel { last_sequence16 = some sequence })
]

-- `SrtpCrypto`, which calls OpenSSL: the plain packet, or nothing if a packet is not authentic.
module _ (unprotect_control : List ℕ → Option (List ℕ))
    (unprotect_media : List ℕ → ℕ → Option (List ℕ)) where
  -- The end of either receive function: the packet is decrypted, and recorded if it is long enough.
  unfoldable pub finish :
      SrtpConnection
      → ChannelKey
      → ChannelValue
      → ℕ
      → ℕ
      → Option (List ℕ)
      → SrtpConnection × Option (List ℕ)
  finish c key channel sequence min_size none = (c, none)
  finish c key channel sequence min_size (some output) =
      if ltb (length output) min_size then (c, none) else (
        record c {
          channels = put c.channels key (record channel {
            replay_protection = (set_value channel.replay_protection sequence).0;
          });
        },
        some output,
      )

  unfoldable pub receive_control :
      SrtpConnection → List ℕ → ChannelKey → SrtpConnection × Option (List ℕ)
  receive_control c packet key =
      let (channel, channels) = ensure_srtp_channel c.channels key (2 ^ 32 - 1) in
      let c' = record c { channels = channels } in
      elim (get_control_sequence_number c.profile packet) [
        | none ↦ (c', none)
        | some sequence ↦
            if can_proceed channel.replay_protection sequence
            then finish c' key channel sequence 8 (unprotect_control packet)
            else (c', none)
      ]

  unfoldable pub unprotect_receive_control :
      SrtpConnection → List ℕ → SrtpConnection × Option (List ℕ)
  unprotect_receive_control c packet =
      if ltb (length packet) 12
      then (c, none)
      else receive_control c packet (record { ssrc = u32_at packet 4; payload_id = 0 })

  unfoldable pub receive_media :
      SrtpConnection → List ℕ → ChannelKey → SrtpConnection × Option (List ℕ)
  receive_media c packet key =
      let (channel, channels) = ensure_srtp_channel c.channels key (2 ^ 16 - 1) in
      let c' = record c { channels = channels } in
      elim (get_media_sequence_number packet) [
        | none ↦ (c', none)
        | some sequence ↦
            if can_proceed channel.replay_protection sequence
            then (let (rollover, channel') = media_rollover channel sequence in
                let counted = record c { channels = put channels key channel' } in
                finish counted key channel' sequence 12 (unprotect_media packet rollover))
            else (c', none)
      ]

  unfoldable pub unprotect_receive_media :
      SrtpConnection → List ℕ → SrtpConnection × Option (List ℕ)
  unprotect_receive_media c packet =
      if ltb (length packet) 12
      then (c, none)
      else receive_media c packet
          (record { ssrc = u32_at packet 8; payload_id = u16_at packet 0 % 128 })

-- Sending: the guards on the size, and the cipher's two other functions.
module _ (protect_control protect_media : List ℕ → ℕ → Option (List ℕ)) where
  unfoldable protect_send_control : List ℕ → ℕ → Option (List ℕ)
  protect_send_control packet sequence =
      if ltb (length packet) 8 then none else protect_control packet sequence

  unfoldable protect_send_media : List ℕ → ℕ → Option (List ℕ)
  protect_send_media packet rollover =
      if ltb (length packet) 12 then none else protect_media packet rollover
