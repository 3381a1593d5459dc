-- ===== src/History/Tests.antt =====
-- The histories at concrete inputs.
use srtc.Common.{ℕ, ◌*◌, ◌≡◌, refl, List, [], ◌∷◌, none, some, arith, true, false}
use srtc.Extension.{no_extension}
use srtc.Rtp.{RtpPacket}
use srtc.History.{new_history, save, find}
use srtc.History.Retained.{AllMirror, lookup, sent, save-AllMirror, find-lookup}
use srtc.History.Reports
use srtc.History.Reports.{calculate_rtt}

abbrev packet : ℕ → RtpPacket
packet sequence = record {
  track = record {
    ssrc = 77;
    payload_id = 96;
    rtx_ssrc = 78;
    rtx_payload_id = 97;
    clock_rate = 90000;
    has_nack = true;
  };
  ssrc = 77;
  payload_id = 96;
  marker = false;
  rollover = 0;
  sequence = sequence;
  timestamp = 3000;
  padding_size = 0;
  payload = 1 ∷ [];
  extension = no_extension;
}

abbrev nothing : ℕ → List RtpPacket
nothing ssrc = []

new_history-AllMirror : AllMirror new_history nothing
unfolding new_history
new_history-AllMirror ssrc = record {
  list = refl;
  map = λ sequence. refl;
  distinct = tt;
  bounded = omega arith;
}

abbrev first_sent : ℕ → List RtpPacket
first_sent = sent nothing (packet 5)

first_saved : AllMirror (save new_history (packet 5)) first_sent
first_saved = save-AllMirror new_history nothing (packet 5) new_history-AllMirror refl

save-AllMirror_example :
    AllMirror (save (save new_history (packet 5)) (packet 6)) (sent first_sent (packet 6))
save-AllMirror_example =
    save-AllMirror (save new_history (packet 5)) first_sent (packet 6) first_saved refl

find-lookup_example : find (save new_history (packet 5)) 77 5 ≡ lookup (first_sent 77) 5
find-lookup_example = find-lookup (save new_history (packet 5)) first_sent 77 5 first_saved

-- A report that was sent at 1000 and answered with a delay of half a second.
abbrev reports : Reports.ReportMap
reports = Reports.save (λ ssrc. none) 77 (record { seconds = 3; fraction = 0 }) 1000

half_second : (calculate_rtt reports 77 (3 * 65536) 32768 601000).0 ≡ some 100000
unfolding calculate_rtt Reports.take_report Reports.middle_marker Reports.time_since Reports.save
half_second = refl
