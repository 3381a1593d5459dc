-- ===== src/Srtp/Tests.antt =====
-- A connection at concrete packets, with a cipher that takes every packet as it is.
use srtc.Common.{
  ℕ, ◌+◌, ◌-◌, ◌*◌, ◌/◌, ◌%◌, ◌^◌, ◌<◌, ◌≡◌, ◌≢◌, refl, List, [], ◌∷◌, ◌++◌, arith, some, none,
  Option, true, false, replicate, if◌then◌else◌, length,
}
use srtc.Replay
use srtc.Replay.{can_proceed, set_value, can_proceed_at}
use srtc.Srtp.{
  Profile, aes_128_gcm, ChannelKey, ChannelValue, SrtpConnection, same_key, find, put, u16_at,
  u32_at, new_channel, ensure_srtp_channel, get_media_sequence_number, get_control_sequence_number,
  offset_from_end, media_rollover, finish, receive_media, unprotect_receive_media, receive_control,
  unprotect_receive_control,
}
use srtc.Srtp.Channels.{AllLive}
use srtc.Srtp.Outcome.{SameWindow}
use srtc.Srtp.Media.{
  key_of, unprotect_receive_media-AllLive, rejected_keeps_window, media_accepted_once,
}
use srtc.Srtp.Control.{control_accepted_once}
use srtc.Srtp.Rollover.{Counts, media_rollover-Counts, forged_packet_counts}
use srtc.Extended.Recovery.{seen}

abbrev uc : List ℕ → Option (List ℕ)
uc packet = some packet

abbrev um : List ℕ → ℕ → Option (List ℕ)
um packet rollover = some packet

abbrev fresh : SrtpConnection
fresh = record { profile = aes_128_gcm; channels = [] }

fresh-AllLive : AllLive fresh.channels
unfolding find
fresh-AllLive k v found = absurd (srtc.Common.none≢some found)

-- Payload type 96, sequence 5, SSRC 7.
abbrev packet : List ℕ
packet = 128 ∷ 96 ∷ 0 ∷ 5 ∷ 0 ∷ 0 ∷ 0 ∷ 1 ∷ 0 ∷ 0 ∷ 0 ∷ 7 ∷ 1 ∷ []

abbrev short_packet : List ℕ
short_packet = 128 ∷ 96 ∷ 0 ∷ 5 ∷ []

media_accepted : (unprotect_receive_media uc um fresh packet).1 ≡ some packet
unfolding unprotect_receive_media receive_media ensure_srtp_channel get_media_sequence_number
    media_rollover finish find new_channel can_proceed Replay.new
media_accepted = refl

not_zero : ¬ (u16_at packet 0 % 128 ≡ 0)
not_zero h = absurd (omega arith)

bytes : srtc.Srtp.Media.IsBytes packet
bytes = ground arith

media_accepted_once_example :
    (unprotect_receive_media uc um (unprotect_receive_media uc um fresh packet).0 packet).1 ≡ none
media_accepted_once_example =
    media_accepted_once uc um fresh packet packet packet fresh-AllLive bytes not_zero media_accepted
      refl refl

after : SrtpConnection
after = (unprotect_receive_media uc um fresh packet).0

after-AllLive : AllLive after.channels
unfolding after
after-AllLive = (unprotect_receive_media-AllLive uc um fresh packet fresh-AllLive bytes not_zero).0

unprotect_receive_media-AllLive_example :
    AllLive (unprotect_receive_media uc um fresh packet).0.channels
    × ((j : ChannelKey)
        → same_key (key_of packet) j ≡ false
        → find (unprotect_receive_media uc um fresh packet).0.channels j ≡ find fresh.channels j)
unprotect_receive_media-AllLive_example =
    unprotect_receive_media-AllLive uc um fresh packet fresh-AllLive bytes not_zero

repeated : (unprotect_receive_media uc um after packet).1 ≡ none
unfolding after
repeated =
    media_accepted_once uc um fresh packet packet packet fresh-AllLive bytes not_zero media_accepted
      refl refl

rejected_keeps_window_example :
    SameWindow after.channels
      (unprotect_receive_media uc um after packet).0.channels
      (key_of packet)
rejected_keeps_window_example =
    rejected_keeps_window uc um after packet after-AllLive bytes not_zero repeated

-- A control packet of SSRC 7, with a tag of 16 bytes and the SRTCP index 9.
abbrev control_packet : List ℕ
control_packet = 128 ∷ 200 ∷ 0 ∷ 1 ∷ 0 ∷ 0 ∷ 0 ∷ 7 ∷ (replicate 16 0 ++ (128 ∷ 0 ∷ 0 ∷ 9 ∷ []))

control_index : get_control_sequence_number aes_128_gcm control_packet ≡ some 9
unfolding get_control_sequence_number offset_from_end
control_index = refl

control_accepted : (unprotect_receive_control uc um fresh control_packet).1 ≡ some control_packet
unfolding unprotect_receive_control receive_control ensure_srtp_channel get_control_sequence_number
    offset_from_end finish find new_channel can_proceed Replay.new
control_accepted = refl

control_accepted_once_example :
    (unprotect_receive_control uc um
      (unprotect_receive_control uc um fresh control_packet).0
      control_packet).1
    ≡ none
control_accepted_once_example =
    control_accepted_once uc um fresh control_packet control_packet control_packet 9 fresh-AllLive
      control_index control_accepted refl control_index

abbrev counting : ChannelValue
counting = record {
  replay_protection = Replay.new 65535 2048;
  rollover_count = 2;
  last_sequence16 = some 65530;
}

media_rollover-Counts_example :
    ((media_rollover counting (196610 % 2 ^ 16)).0 ≡ 196610 / 2 ^ 16)
    × Counts (media_rollover counting (196610 % 2 ^ 16)).1 (seen (2 ^ 16) 196602 196610)
media_rollover-Counts_example =
    media_rollover-Counts counting 196602 196610 (record { count = refl; last = refl })
      (omega arith) (omega arith) (omega arith)

-- A channel at the end of a cycle, and a cipher that takes no packet.
abbrev at_end : ChannelValue
at_end = record counting { replay_protection = (set_value (Replay.new 65535 2048) 65530).0 }

abbrev connected : SrtpConnection
connected = record { profile = aes_128_gcm; channels = (key_of packet, at_end) ∷ [] }

abbrev none_authentic : List ℕ → ℕ → Option (List ℕ)
none_authentic plain rollover = none

at_end_found : find connected.channels (key_of packet) ≡ some at_end
unfolding find
at_end_found = refl

at_end_proceeds : can_proceed at_end.replay_protection (u16_at packet 2) ≡ true
unfolding can_proceed set_value can_proceed_at Replay.new Replay.get_rollover_forward_distance
at_end_proceeds = refl

forged_packet_counts_example :
    ((unprotect_receive_media uc none_authentic connected packet).1 ≡ none)
    × ((v : ChannelValue) × (find
            (unprotect_receive_media uc none_authentic connected packet).0.channels
            (key_of packet)
          ≡ some v)
        × (v.rollover_count ≡ (2 + 1) % 2 ^ 32))
forged_packet_counts_example =
    forged_packet_counts uc none_authentic connected packet at_end 65530 (omega arith) at_end_found
      at_end_proceeds refl (omega arith) (omega arith) refl
