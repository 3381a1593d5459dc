-- ===== src/History.antt =====
-- src/send_rtp_history.cpp: the packets that were sent lately, for retransmission. The two maps are
-- functions of their keys.
pub mod Retained
pub mod Reports
mod Tests
use srtc.Common.{ℕ, zero, suc, ◌+◌, ◌-◌, List, [], ◌∷◌, length, Option, none, some, Bool, leb, ◌==◌}
use srtc.Common.{if◌then◌else◌}
use srtc.Rtp.{RtpPacket}

-- `kMaxHistory`
abbrev pub max_history : ℕ
max_history = 512

-- The newest packet is at the front of the list.
pub record TrackHistory : Type 0 where
  pub packet_list : List RtpPacket
  pub packet_map : ℕ → Option RtpPacket

pub record SendRtpHistory : Type 0 where
  pub track_map : ℕ → Option TrackHistory

unfoldable pub new_history : SendRtpHistory
new_history = record { track_map = λ ssrc. none }

unfoldable pub assign : {A : Type 0} → (ℕ → Option A) → ℕ → Option A → ℕ → Option A
assign map key value k = if k == key then value else map k

-- `mTrackMap[ssrc]` makes an empty entry.
abbrev pub entry : Option TrackHistory → TrackHistory
entry none = record { packet_list = []; packet_map = λ sequence. none }
entry (some item) = item

-- `back` and `pop_back`, of a list that is not empty.
unfoldable pub back_of : RtpPacket → List RtpPacket → RtpPacket
back_of p [] = p
back_of p (q ∷ rest) = back_of q rest

unfoldable pub pop_back : RtpPacket → List RtpPacket → List RtpPacket
pop_back p [] = []
pop_back p (q ∷ rest) = p ∷ pop_back q rest

unfoldable pub evict : TrackHistory → TrackHistory
unfolding assign back_of pop_back
evict item = elim item.packet_list [
  | [] ↦ item
  | p ∷ rest ↦ record {
    packet_list = pop_back p rest;
    packet_map = assign item.packet_map (back_of p rest).sequence none;
  }
]

-- Each round makes the list shorter.
unfoldable pub evict_loop : ℕ → TrackHistory → TrackHistory
unfolding evict
evict_loop zero item = item
evict_loop (suc fuel) item =
    let later = evict_loop fuel (evict item) in
    if leb max_history (length item.packet_list) then later else item

unfoldable pub save : SendRtpHistory → RtpPacket → SendRtpHistory
unfolding assign evict_loop
save h packet =
    let item = entry (h.track_map packet.ssrc) in
    let kept = evict_loop (length item.packet_list) item in
    record {
      track_map = assign h.track_map packet.ssrc (
          some (record {
            packet_list = packet ∷ kept.packet_list;
            packet_map = assign kept.packet_map packet.sequence (some packet);
          }));
    }

unfoldable pub find : SendRtpHistory → ℕ → ℕ → Option RtpPacket
find h ssrc sequence = elim (h.track_map ssrc) [
  | none ↦ none
  | some item ↦ item.packet_map sequence
]
