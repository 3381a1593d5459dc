-- ===== src/Srtp/Control.antt =====
-- Control packets through `unprotectReceiveControl` of src/srtp_connection.cpp.
use srtc.Common.{ℕ, ◌-◌, ◌^◌, ◌≤◌, ◌≡◌, refl, ap, ◌∙◌, true, false, List, Option, none, some}
use srtc.Common.{ltb, length, Bool-cases, inl, inr, arith}
use srtc.Replay.{can_proceed}
use srtc.Srtp.{
  Profile, ChannelKey, ChannelValue, SrtpConnection, find, ensure_srtp_channel, u32_at,
  get_control_sequence_number, finish, receive_control, unprotect_receive_control,
}
use srtc.Srtp.Channels.{AllLive, mask_of, Ensured, ensure_srtp_channel-Ensured, ensure_there}
use srtc.Srtp.Outcome.{Outcome, Outcome-refused, finish-Outcome, Outcome-before, refused-Outcome}

abbrev control_key : List ℕ → ChannelKey
control_key packet = record { ssrc = u32_at packet 4; payload_id = 0 }

index_in_range :
    (profile : Profile) (packet : List ℕ) (index : ℕ)
    → get_control_sequence_number profile packet ≡ some index
    → index ≤ 2 ^ 32 - 1
unfolding get_control_sequence_number
index_in_range profile packet index h = ground (arith, h)

module _ (uc : List ℕ → Option (List ℕ)) (um : List ℕ → ℕ → Option (List ℕ)) where
  proceed-Outcome :
      (c : SrtpConnection) (key : ChannelKey) (index : ℕ) (output : Option (List ℕ))
      → index ≤ mask_of key
      → Ensured c.channels key (ensure_srtp_channel c.channels key (2 ^ 32 - 1))
      → can_proceed (ensure_srtp_channel c.channels key (2 ^ 32 - 1)).0.replay_protection index
        ≡ true
      → Outcome key index c.channels (
          finish uc um
            (record c { channels = (ensure_srtp_channel c.channels key (2 ^ 32 - 1)).1 })
            key
            (ensure_srtp_channel c.channels key (2 ^ 32 - 1)).0
            index
            8
            output)
  proceed-Outcome c key index output hv ensured h =
      let (channel, channels) = ensure_srtp_channel c.channels key (2 ^ 32 - 1) in
      Outcome-before key index c.channels channels _
        (finish-Outcome uc um (record c { channels = channels }) key channel index 8 output
          ensured.all ensured.live hv h)
        ensured.others
        (λ v found. (channel, ensured.there, ap (λ x. x.replay_protection) (ensured.kept v found)))

  -- What a packet with an index leaves behind.
  outcome :
      (c : SrtpConnection) (packet : List ℕ) (index : ℕ)
      → AllLive c.channels
      → get_control_sequence_number c.profile packet ≡ some index
      → Outcome (control_key packet) index c.channels (unprotect_receive_control uc um c packet)
  unfolding unprotect_receive_control receive_control
  outcome c packet index all h = elim (Bool-cases (ltb (length packet) 12)) [
    | inl short ↦
        rw (short, unprotect_receive_control) (Outcome-refused (control_key packet) index c all)
    | inr long ↦
        let key = control_key packet in
        let ensured = ensure_srtp_channel-Ensured c.channels key (2 ^ 32 - 1) all refl in
        rw (long, h, unprotect_receive_control, receive_control)
          (elim (Bool-cases (
            can_proceed (ensure_srtp_channel c.channels key (2 ^ 32 - 1)).0.replay_protection
              index)) [
                | inl go ↦ rw go (
                    proceed-Outcome c key index (uc packet)
                      (index_in_range c.profile packet index h) ensured go)
                | inr stop ↦ rw stop (refused-Outcome c key index (2 ^ 32 - 1) ensured)
              ])
  ]

  refuses :
      (c : SrtpConnection) (packet : List ℕ) (index : ℕ) (v : ChannelValue)
      → get_control_sequence_number c.profile packet ≡ some index
      → find c.channels (control_key packet) ≡ some v
      → can_proceed v.replay_protection index ≡ false
      → (unprotect_receive_control uc um c packet).1 ≡ none
  unfolding unprotect_receive_control receive_control
  refuses c packet index v at found h = elim (Bool-cases (ltb (length packet) 12)) [
    | inl short ↦ rw short refl
    | inr long ↦
        rw
          (
            long,
            at,
            ensure_there c.channels (control_key packet) (2 ^ 32 - 1) v found,
            h,
            receive_control,
          )
          refl
  ]

  profile_kept :
      (c : SrtpConnection) (packet : List ℕ)
      → (unprotect_receive_control uc um c packet).0.profile ≡ c.profile
  unfolding unprotect_receive_control receive_control finish
  profile_kept c packet = ground arith

  -- On well-formed channels, once a control packet was accepted, the next one with the same SSRC and the
  -- same SRTCP index is rejected.
  pub control_accepted_once :
      (c : SrtpConnection) (packet again output : List ℕ) (index : ℕ)
      → AllLive c.channels
      → get_control_sequence_number c.profile packet ≡ some index
      → (unprotect_receive_control uc um c packet).1 ≡ some output
      → u32_at again 4 ≡ u32_at packet 4
      → get_control_sequence_number c.profile again ≡ some index
      → (unprotect_receive_control uc um (unprotect_receive_control uc um c packet).0 again).1
        ≡ none
  control_accepted_once c packet again output index all h accepted same_ssrc h' =
      let (v, found, refused) = (outcome c packet index all h).accepted output accepted in
      refuses (unprotect_receive_control uc um c packet).0 again index v
        (ap (λ p. get_control_sequence_number p again) (profile_kept c packet) ∙ h')
        (rw (ap {B = ChannelKey} (λ s. record { ssrc = s; payload_id = 0 }) same_ssrc) found)
        refused
