-- ===== src/H264/Tests.antt =====
-- H.264 packets at concrete inputs.
use srtc.Common.{
  ℕ, ◌+◌, ◌%◌, ◌≤◌, ◌≡◌, refl, ap, List, [], ◌∷◌, map, length, replicate, length-replicate, none,
  some, true, false, arith,
}
use srtc.Extension.{no_extension}
use srtc.H264.{nalu_parser, find_next_nalu, find_from, is_nalu_4, is_nalu_3, curr_data, next}
use srtc.H264.Depacketizer.{new_depacketizer, extract_impl, extract}
use srtc.H264.Packetizer.{ExtensionSources, PacketizerH264, add_nalu, adjust_packet_size}
use srtc.H264.Fragments.{stamp, received, item_of}
use srtc.Jitter.{JitterBufferItem}
use srtc.Rtp.{RtpPacket}
use srtc.H264.Plain.{plain, extract-sent}
use srtc.H264.Sizes.{adjust_packet_size-Within}
use srtc.H264.Crash.{extract_crashes}

-- No extensions, and four bytes of padding.
abbrev padded : ExtensionSources ℕ
padded = record {
  get_padding = λ n size. (4, n);
  build_extension = λ n is_key number. (no_extension, n + 1);
}

abbrev packetizer : PacketizerH264 ℕ
packetizer = record {
  track = record {
    ssrc = 77;
    payload_id = 96;
    rtx_ssrc = 78;
    rtx_payload_id = 97;
    clock_rate = 90000;
    has_nack = true;
  };
  sps_data = [];
  pps_data = [];
  source = record {
    ssrc = 77;
    payload_id = 96;
    generated_count = 0;
    rollover = 0;
    next_sequence = 17;
  };
  extensions = 0;
}

-- A unit of 1501 bytes, which takes two fragments.
body : List ℕ
body = replicate 1500 9

body-length : length body ≡ 1500
unfolding body
body-length = length-replicate {A = ℕ} 1500 9

-- Items with other times and numbers than the plain ones.
sent : List JitterBufferItem
sent =
    map (λ packet. record (item_of 3000 packet) { seq_ext = 65553; when_received = 5 })
      (add_nalu padded packetizer 16 3000 true (0x65 % 32) (0x65 ∷ body)).0

sent-plain :
    (packets : List RtpPacket)
    → map plain (
        map (λ packet. record (item_of 3000 packet) { seq_ext = 65553; when_received = 5 }) packets)
      ≡ map (item_of 3000) packets
sent-plain [] = refl
sent-plain (packet ∷ rest) =
    ap (λ (items : List JitterBufferItem). item_of 3000 packet ∷ items) (sent-plain rest)

extract-sent_example :
    extract new_depacketizer sent
    ≡ some (extract_impl new_depacketizer (stamp 3000 true) (0x65 ∷ body))
extract-sent_example =
    extract-sent padded packetizer new_depacketizer 16 3000 3000 true 0x65 body sent (omega arith)
      (omega arith) (omega arith) (omega (arith, body-length)) (λ e n. omega arith)
      (unfold sent in sent-plain _)

adjust_packet_size-Within_example :
    (345 ≤ adjust_packet_size 1172 4 no_extension) × (adjust_packet_size 1172 4 no_extension ≤ 1172)
adjust_packet_size-Within_example =
    adjust_packet_size-Within 1172 4 no_extension (omega arith) (omega arith) (omega arith)

-- A parameter set, and a fragment from the middle of a key frame.
extract_crashes_example :
    extract new_depacketizer
      (received 3000 false (0x67 ∷ 1 ∷ []) ∷ received 3000 true (0x7c ∷ 0x45 ∷ 7 ∷ []) ∷ [])
    ≡ none
extract_crashes_example =
    extract_crashes new_depacketizer (received 3000 false (0x67 ∷ 1 ∷ []))
      (received 3000 true (0x7c ∷ 0x45 ∷ 7 ∷ [])) [] 0x67 1 0x7c 0x45 [] (7 ∷ []) (omega arith) refl
      refl refl refl (omega arith)

-- Two units, with both start codes.
abbrev two_units : List ℕ
two_units = 0 ∷ 0 ∷ 0 ∷ 1 ∷ 0x67 ∷ 5 ∷ 0 ∷ 0 ∷ 1 ∷ 0x68 ∷ []

two_units_first : curr_data (nalu_parser two_units) ≡ 0x67 ∷ 5 ∷ []
unfolding curr_data nalu_parser find_next_nalu find_from is_nalu_4 is_nalu_3
two_units_first = refl

two_units_second : curr_data (next (nalu_parser two_units)) ≡ 0x68 ∷ []
unfolding curr_data next nalu_parser find_next_nalu find_from is_nalu_4 is_nalu_3
two_units_second = refl
