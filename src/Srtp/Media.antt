-- ===== src/Srtp/Media.antt =====
-- Media packets through `unprotectReceiveMedia` of src/srtp_connection.cpp.
use srtc.Common.{
  ℕ, ◌-◌, ◌%◌, ◌^◌, ◌≤◌, ◌<◌, ◌≡◌, ◌≢◌, refl, ap, sym, subst, ◌∙◌, true, false, List, Option, none,
  some,
}
use srtc.Common.{ltb, length, All, Bool-cases, inl, inr, arith, ==_false, All-get_or}
use srtc.Replay.{can_proceed}
use srtc.Srtp.{
  ChannelKey, ChannelValue, SrtpConnection, same_key, find, put, ensure_srtp_channel, u16_at,
  u32_at, get_media_sequence_number, media_rollover, finish, receive_media, unprotect_receive_media,
}
use srtc.Srtp.Channels.{
  AllLive, IsLive, mask_of, put-AllLive, find-put, find-put_other, Ensured, ensure_there,
  ensure_srtp_channel-Ensured, ensure_there,
}
use srtc.Srtp.Outcome.{
  SameWindow, Outcome, Outcome-refused, finish-Outcome, Outcome-before, refused-Outcome,
}

-- The key of a packet's channel, and its sequence number.
abbrev pub key_of : List ℕ → ChannelKey
key_of packet = record { ssrc = u32_at packet 8; payload_id = u16_at packet 0 % 128 }

abbrev pub IsBytes : List ℕ → Type 0
IsBytes = All (λ b. b < 256)

sequence_in_range : (packet : List ℕ) → IsBytes packet → u16_at packet 2 ≤ 2 ^ 16 - 1
sequence_in_range packet bytes =
    let hi = All-get_or (λ b. b < 256) packet 2 0 bytes (omega arith) in
    let lo = All-get_or (λ b. b < 256) packet 3 0 bytes (omega arith) in omega arith

media_rollover-replay :
    (channel : ChannelValue) (sequence : ℕ)
    → (media_rollover channel sequence).1.replay_protection ≡ channel.replay_protection
unfolding media_rollover
media_rollover-replay channel sequence = ground arith

module _ (uc : List ℕ → Option (List ℕ)) (um : List ℕ → ℕ → Option (List ℕ)) where
  -- Where the guards and the window let the packet through.
  proceed-Outcome :
      (c : SrtpConnection) (packet : List ℕ) (key : ChannelKey)
      → AllLive c.channels
      → IsBytes packet
      → mask_of key ≡ 2 ^ 16 - 1
      → (ensured : Ensured c.channels key (ensure_srtp_channel c.channels key (2 ^ 16 - 1)))
      → can_proceed
          (ensure_srtp_channel c.channels key (2 ^ 16 - 1)).0.replay_protection
          (u16_at packet 2)
        ≡ true
      → let channel = (ensure_srtp_channel c.channels key (2 ^ 16 - 1)).0 in
        let out = media_rollover channel (u16_at packet 2) in
        Outcome key (u16_at packet 2) c.channels (
          finish uc um
            (record c {
              channels = put (ensure_srtp_channel c.channels key (2 ^ 16 - 1)).1 key out.1;
            })
            key
            out.1
            (u16_at packet 2)
            12
            (um packet out.0))
  proceed-Outcome c packet key all bytes mask ensured h =
      let (channel, channels) = ensure_srtp_channel c.channels key (2 ^ 16 - 1) in
      let (rollover, counted) = media_rollover channel (u16_at packet 2) in
      let same = media_rollover-replay channel (u16_at packet 2) in
      let live : IsLive (mask_of key) counted.replay_protection =
        subst (IsLive (mask_of key)) (sym same) ensured.live in
      let middle = put channels key counted in
      Outcome-before key (u16_at packet 2) c.channels middle _
        (finish-Outcome uc um (record c { channels = middle }) key counted (u16_at packet 2) 12
          (um packet rollover) (put-AllLive channels key counted ensured.all live) live
          (omega (arith, sequence_in_range packet bytes, mask))
          (ap (λ r. can_proceed r (u16_at packet 2)) same ∙ h))
        (λ j d. find-put_other channels key counted j d ∙ ensured.others j d)
        (λ v found. (
          counted,
          find-put channels key counted,
          same ∙ ap (λ x. x.replay_protection) (ensured.kept v found),
        ))

  receive_media-Outcome :
      (c : SrtpConnection) (packet : List ℕ) (key : ChannelKey)
      → AllLive c.channels
      → IsBytes packet
      → mask_of key ≡ 2 ^ 16 - 1
      → ltb (length packet) 12 ≡ false
      → Outcome key (u16_at packet 2) c.channels (receive_media uc um c packet key)
  unfolding receive_media get_media_sequence_number
  receive_media-Outcome c packet key all bytes mask long =
      let ensured = ensure_srtp_channel-Ensured c.channels key (2 ^ 16 - 1) all (sym mask) in
      rw (long, receive_media)
        (elim (Bool-cases (
          can_proceed (ensure_srtp_channel c.channels key (2 ^ 16 - 1)).0.replay_protection
            (u16_at packet 2))) [
              | inl h ↦
                  rw (h, receive_media) (proceed-Outcome c packet key all bytes mask ensured h)
              | inr h ↦
                  rw (h, receive_media)
                    (refused-Outcome c key (u16_at packet 2) (2 ^ 16 - 1) ensured)
            ])

  media_key : (packet : List ℕ) → u16_at packet 0 % 128 ≢ 0 → mask_of (key_of packet) ≡ 2 ^ 16 - 1
  media_key packet d = rw (==_false (u16_at packet 0 % 128) 0 d) refl

  outcome :
      (c : SrtpConnection) (packet : List ℕ)
      → AllLive c.channels
      → IsBytes packet
      → u16_at packet 0 % 128 ≢ 0
      → Outcome
          (key_of packet)
          (u16_at packet 2)
          c.channels
          (unprotect_receive_media uc um c packet)
  unfolding unprotect_receive_media
  outcome c packet all bytes d = elim (Bool-cases (ltb (length packet) 12)) [
    | inl h ↦
        rw (h, unprotect_receive_media) (Outcome-refused (key_of packet) (u16_at packet 2) c all)
    | inr h ↦
        rw (h, unprotect_receive_media)
          (receive_media-Outcome c packet (key_of packet) all bytes (media_key packet d) h)
  ]

  refuses :
      (c : SrtpConnection) (packet : List ℕ) (v : ChannelValue)
      → find c.channels (key_of packet) ≡ some v
      → can_proceed v.replay_protection (u16_at packet 2) ≡ false
      → (unprotect_receive_media uc um c packet).1 ≡ none
  unfolding unprotect_receive_media receive_media get_media_sequence_number
  refuses c packet v found h = elim (Bool-cases (ltb (length packet) 12)) [
    | inl short ↦ rw short refl
    | inr long ↦
        rw (long, ensure_there c.channels (key_of packet) (2 ^ 16 - 1) v found, h, receive_media)
          refl
  ]

  -- On well-formed channels, a media packet, whatever its bytes, with a payload type other than 0, leaves
  -- all the channels with well-formed replay windows of their kinds, and no channel but its own changes.
  pub unprotect_receive_media-AllLive :
      (c : SrtpConnection) (packet : List ℕ)
      → AllLive c.channels
      → IsBytes packet
      → u16_at packet 0 % 128 ≢ 0
      → AllLive (unprotect_receive_media uc um c packet).0.channels
        × ((j : ChannelKey)
            → same_key (key_of packet) j ≡ false
            → find (unprotect_receive_media uc um c packet).0.channels j ≡ find c.channels j)
  unprotect_receive_media-AllLive c packet all bytes d =
      let o = outcome c packet all bytes d in (o.all, o.others)

  -- On well-formed channels, a packet with a payload type other than 0 that is not accepted, be it short,
  -- a repetition or not authentic, leaves the replay window of its channel as it was.
  pub rejected_keeps_window :
      (c : SrtpConnection) (packet : List ℕ)
      → AllLive c.channels
      → IsBytes packet
      → u16_at packet 0 % 128 ≢ 0
      → (unprotect_receive_media uc um c packet).1 ≡ none
      → SameWindow c.channels (unprotect_receive_media uc um c packet).0.channels (key_of packet)
  rejected_keeps_window c packet all bytes d h = (outcome c packet all bytes d).refused h

  -- On well-formed channels, once a packet with a payload type other than 0 was accepted, the next packet
  -- with the same SSRC, payload type and sequence number is rejected.
  pub media_accepted_once :
      (c : SrtpConnection) (packet again output : List ℕ)
      → AllLive c.channels
      → IsBytes packet
      → u16_at packet 0 % 128 ≢ 0
      → (unprotect_receive_media uc um c packet).1 ≡ some output
      → key_of again ≡ key_of packet
      → u16_at again 2 ≡ u16_at packet 2
      → (unprotect_receive_media uc um (unprotect_receive_media uc um c packet).0 again).1 ≡ none
  media_accepted_once c packet again output all bytes d h same_channel same_sequence =
      let (v, found, refused) = (outcome c packet all bytes d).accepted output h in
      refuses (unprotect_receive_media uc um c packet).0 again v (rw same_channel found)
        (rw same_sequence refused)
