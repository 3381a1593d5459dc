-- ===== src/Srtp/Outcome.antt =====
-- What either receive function of src/srtp_connection.cpp leaves behind of the channels.
use srtc.Common.{ℕ, ◌≤◌, ◌≡◌, refl, ap, sym, ◌∙◌, true, false, List, Option, none, some, ltb}
use srtc.Common.{none≢some, Bool-cases, inl, inr, length}
use srtc.Replay.{can_proceed, set_value}
use srtc.Srtp.{
  ChannelKey, ChannelValue, SrtpConnection, same_key, find, finish, ensure_srtp_channel,
}
use srtc.Srtp.Channels.{
  AllLive, IsLive, Ensured, mask_of, mask_of-wide, set_value-IsLive, put-AllLive, find-put,
  find-put_other,
}

abbrev pub Channels : Type 0
Channels = List (ChannelKey × ChannelValue)

-- The window of a key is the same in both maps, if the first map has one.
abbrev pub SameWindow : Channels → Channels → ChannelKey → Type 0
SameWindow before after key =
    (v : ChannelValue)
    → find before key ≡ some v
    → (v' : ChannelValue) × (find after key ≡ some v')
      × (v'.replay_protection ≡ v.replay_protection)

pub record Outcome (key : ChannelKey) (sequence : ℕ) (before : Channels)
    (out : SrtpConnection × Option (List ℕ)) : Type 0 where
  pub all : AllLive out.0.channels
  pub others : (j : ChannelKey) → same_key key j ≡ false → find out.0.channels j ≡ find before j
  pub accepted :
      (o : List ℕ)
      → out.1 ≡ some o
      → (v : ChannelValue) × (find out.0.channels key ≡ some v)
        × (can_proceed v.replay_protection sequence ≡ false)
  pub refused : out.1 ≡ none → SameWindow before out.0.channels key

pub Outcome-refused :
    (key : ChannelKey) (sequence : ℕ) (c : SrtpConnection)
    → AllLive c.channels
    → Outcome key sequence c.channels (c, none)
Outcome-refused key sequence c all = record {
  all = all;
  others = λ j d. refl;
  accepted = λ o h. absurd (none≢some h);
  refused = λ h v found. (v, found, refl);
}

-- The end of either function.
pub finish-Outcome :
    (uc : List ℕ → Option (List ℕ)) (um : List ℕ → ℕ → Option (List ℕ)) (c : SrtpConnection)
    (key : ChannelKey) (channel : ChannelValue) (sequence min_size : ℕ) (output : Option (List ℕ))
    → AllLive c.channels
    → IsLive (mask_of key) channel.replay_protection
    → sequence ≤ mask_of key
    → can_proceed channel.replay_protection sequence ≡ true
    → Outcome key sequence c.channels (finish uc um c key channel sequence min_size output)
unfolding finish
finish-Outcome uc um c key channel sequence min_size none all live hv h =
    Outcome-refused key sequence c all
finish-Outcome uc um c key channel sequence min_size (some o) all live hv h =
    elim (Bool-cases (ltb (length o) min_size)) [
      | inl short ↦ rw short (Outcome-refused key sequence c all)
      | inr long ↦
          let (live', refused) =
            set_value-IsLive (mask_of key) (mask_of-wide key) channel.replay_protection sequence
              live hv h in
          let v' = record channel {
            replay_protection = (set_value channel.replay_protection sequence).0;
          } in
          rw long record {
            all = put-AllLive c.channels key v' all live';
            others = λ j d. find-put_other c.channels key v' j d;
            accepted = λ o e. (v', find-put c.channels key v', refused);
            refused = λ e. absurd (none≢some (sym e));
          }
    ]

-- An outcome against an earlier map with the same windows.
pub Outcome-before :
    (key : ChannelKey) (sequence : ℕ) (before middle : Channels)
    (out : SrtpConnection × Option (List ℕ))
    → Outcome key sequence middle out
    → ((j : ChannelKey) → same_key key j ≡ false → find middle j ≡ find before j)
    → SameWindow before middle key
    → Outcome key sequence before out
Outcome-before key sequence before middle out outcome others same = record {
  all = outcome.all;
  others = λ j d. outcome.others j d ∙ others j d;
  accepted = outcome.accepted;
  refused = λ e v found.
      let (v1, found1, same1) = same v found in
      let (v2, found2, same2) = outcome.refused e v1 found1 in (v2, found2, same2 ∙ same1);
}

-- The channel is there, new or not, and the packet is refused.
pub refused-Outcome :
    (c : SrtpConnection) (key : ChannelKey) (sequence mask : ℕ)
    → Ensured c.channels key (ensure_srtp_channel c.channels key mask)
    → Outcome key sequence c.channels
        (record c { channels = (ensure_srtp_channel c.channels key mask).1 }, none)
refused-Outcome c key sequence mask ensured =
    let (channel, channels) = ensure_srtp_channel c.channels key mask in
    Outcome-before key sequence c.channels channels _
      (Outcome-refused key sequence (record c { channels = channels }) ensured.all) ensured.others
      (λ v found. (channel, ensured.there, ap (λ x. x.replay_protection) (ensured.kept v found)))
