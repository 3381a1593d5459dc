-- ===== src/Rtcp/Tests.antt =====
-- Control packets at concrete inputs.
use srtc.Common.{◌≡◌, refl, [], ◌∷◌, ◌++◌, none, some, All, arith}
use srtc.Rtcp.{RtcpPacket, combine, from_udp_packet}
use srtc.Rtcp.Lengths.{no_length, from_udp_packet_crashes}
use srtc.Rtcp.RoundTrip.{Carries, from_udp_packet-combine}

abbrev report : RtcpPacket
report = record { ssrc = 7; rc = 1; payload_id = 201; payload = 1 ∷ 2 ∷ 3 ∷ 4 ∷ [] }

abbrev bye : RtcpPacket
bye = record { ssrc = 0xdeadbeef; rc = 0; payload_id = 203; payload = [] }

reports-Carries : All Carries (report ∷ bye ∷ [])
reports-Carries = (
  record {
    count = omega arith;
    type = omega arith;
    source = omega arith;
    words = refl;
    short = omega arith;
  },
  (
    record {
      count = omega arith;
      type = omega arith;
      source = omega arith;
      words = refl;
      short = omega arith;
    },
    tt,
  ),
)

from_udp_packet-combine_example :
    from_udp_packet (combine (report ∷ bye ∷ [])) ≡ some (report ∷ bye ∷ [])
from_udp_packet-combine_example = from_udp_packet-combine (report ∷ bye ∷ []) reports-Carries

from_udp_packet_crashes_example :
    from_udp_packet (combine (report ∷ bye ∷ []) ++ no_length 128 201 0 0 0 7 []) ≡ none
from_udp_packet_crashes_example =
    from_udp_packet_crashes (report ∷ bye ∷ []) 128 201 0 0 0 7 [] reports-Carries
