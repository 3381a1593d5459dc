-- ===== src/Rtp/Tests.antt =====
-- Packets at concrete inputs.
use srtc.Common.{◌≡◌, refl, List, [], ◌∷◌, arith, inr, none, some, true}
use srtc.Bytes.Reader.{reader, read_u16, read_u32}
use srtc.Extension.{Element, two_byte, is_empty, is_valid_extension_id}
use srtc.Extension.Build.{element}
use srtc.Extension.Lookup.{encode_all}
use srtc.Rtp.{Track, RtpPacket, is_of_track, read_rest, read_packet, generate, from_udp_packet}
use srtc.Rtp.Carried.{Carries, IsCarried}
use srtc.Rtp.RoundTrip.{from_udp_packet-generate}

abbrev video : Track
video = record {
  ssrc = 77;
  payload_id = 96;
  rtx_ssrc = 78;
  rtx_payload_id = 97;
  clock_rate = 90000;
  has_nack = true;
}

abbrev elements : List Element
elements = element 1 (0x12 ∷ 0x34 ∷ []) ∷ element 2 (7 ∷ []) ∷ []

carries : Carries two_byte elements
unfolding is_empty is_valid_extension_id
carries = record {
  valid = refl;
  fits = (
    (omega arith, omega arith, omega arith, omega arith),
    ((omega arith, omega arith, omega arith, omega arith), tt),
  );
  filled = refl;
  short = omega arith;
}

abbrev packet : RtpPacket
packet = record {
  track = video;
  ssrc = 77;
  payload_id = 96;
  marker = true;
  rollover = 3;
  sequence = 65535;
  timestamp = 1000;
  padding_size = 5;
  payload = 1 ∷ 2 ∷ 3 ∷ [];
  extension = record { id = two_byte; bytes = encode_all two_byte elements };
}

packet-is_of_track : is_of_track video 77 96 ≡ true
unfolding is_of_track
packet-is_of_track = refl

packet-IsCarried : IsCarried packet.extension
unfolding IsCarried
packet-IsCarried = inr (two_byte, (elements, (carries, refl)))

-- A packet of another track fails the assert.
foreign : from_udp_packet video (128 ∷ 96 ∷ 0 ∷ 1 ∷ 0 ∷ 0 ∷ 0 ∷ 5 ∷ 0 ∷ 0 ∷ 0 ∷ 78 ∷ 9 ∷ []) ≡ none
unfolding from_udp_packet read_packet read_u16 reader read_u32 read_rest is_of_track
foreign = refl

from_udp_packet-generate_example :
    from_udp_packet video (generate packet).0
    ≡ some (some (record packet { padding_size = 0; rollover = 0 }))
from_udp_packet-generate_example =
    from_udp_packet-generate packet (omega arith) (omega arith) (omega arith) (omega arith)
      (omega arith) packet-is_of_track packet-IsCarried
