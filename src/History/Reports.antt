-- ===== src/History/Reports.antt =====
-- src/sender_reports_history.cpp: the sender reports of each track that may still be answered, and the round
-- trip time from an answer. Times are microseconds of the steady clock.
use srtc.Common.{ℕ, ◌+◌, ◌-◌, ◌*◌, ◌/◌, ◌%◌, ◌^◌, List, [], ◌∷◌, ◌++◌, length, Option, none, some}
use srtc.Common.{leb, ◌==◌, if◌then◌else◌}
use srtc.History.{assign}

abbrev max_reports : ℕ
max_reports = 16

-- The seconds and the fraction of a second, 32 bits each.
pub record NtpTime : Type 0 where
  pub seconds : ℕ
  pub fraction : ℕ

-- `getNtpTimeMiddleMarker`: the middle 32 bits.
unfoldable pub middle_marker : NtpTime → ℕ
middle_marker t = t.seconds % 2 ^ 16 * 2 ^ 16 + t.fraction / 2 ^ 16

pub record Report : Type 0 where
  pub ntp : NtpTime
  pub sent : ℕ

abbrev pub ReportMap : Type 0
ReportMap = ℕ → Option (List Report)

abbrev reports_of : Option (List Report) → List Report
reports_of none = []
reports_of (some reports) = reports

-- `pop_front` while the list is full; each round makes it shorter.
unfoldable pop_front_loop : List Report → List Report
pop_front_loop [] = []
pop_front_loop (r ∷ rest) =
    let later = pop_front_loop rest in
    if leb max_reports (length (r ∷ rest)) then later else r ∷ rest

unfoldable pub save : ReportMap → ℕ → NtpTime → ℕ → ReportMap
unfolding assign pop_front_loop
save reports ssrc ntp now =
    assign reports ssrc
      (some (pop_front_loop (reports_of (reports ssrc)) ++ (record { ntp = ntp; sent = now } ∷ [])))

-- The first report with the marker, and the list without it.
unfoldable pub take_report : List Report → ℕ → Option (Report × List Report)
unfolding middle_marker
take_report [] ntp_marker = none
take_report (r ∷ rest) ntp_marker =
    let later = take_report rest ntp_marker in
    if middle_marker r.ntp == ntp_marker
    then some (r, rest)
    else elim later [ none ↦ none | some (found, left) ↦ some (found, r ∷ left) ]

-- The round trip time in microseconds; the code gives twice as many milliseconds as a float.
unfoldable pub time_since : Report → ℕ → ℕ → Option ℕ
time_since r delay now =
    let received = r.sent + delay * 1000000 / 65536 in
    if leb received now then some (now - received) else none

unfoldable pub calculate_rtt : ReportMap → ℕ → ℕ → ℕ → ℕ → Option ℕ × ReportMap
unfolding take_report time_since assign
calculate_rtt reports ssrc ntp_marker delay now = elim (reports ssrc) [
  | none ↦ (none, reports)
  | some list ↦ elim (take_report list ntp_marker) [
    | none ↦ (none, reports)
    | some (r, left) ↦ (time_since r delay now, assign reports ssrc (some left))
  ]
]
