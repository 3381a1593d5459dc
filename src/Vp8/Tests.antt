-- ===== src/Vp8/Tests.antt =====
-- VP8 packets at concrete inputs.
use srtc.Common.{ℕ, ◌+◌, ◌≡◌, refl, List, [], ◌∷◌, map, none, some, true, false, arith}
use srtc.Extension.{no_extension}
use srtc.H264.Packetizer.{ExtensionSources}
use srtc.H264.Fragments.{item_of}
use srtc.Video.{PacketizerVideo}
use srtc.Vp8.{
  tag_frame_type, is_key_frame, generate, extract_payload, extract_frame, is_frame_start,
}
use srtc.Vp8.RoundTrip.{extract_frame-generate}

-- No extensions, and four bytes of padding.
abbrev padded : ExtensionSources ℕ
padded = record {
  get_padding = λ n size. (4, n);
  build_extension = λ n is_key number. (no_extension, n + 1);
}

abbrev packetizer : PacketizerVideo ℕ
packetizer = record {
  track = record {
    ssrc = 55;
    payload_id = 98;
    rtx_ssrc = 56;
    rtx_payload_id = 99;
    clock_rate = 90000;
    has_nack = true;
  };
  source = record {
    ssrc = 55;
    payload_id = 98;
    generated_count = 0;
    rollover = 0;
    next_sequence = 65535;
  };
  extensions = 0;
}

-- A key frame.
abbrev frame : List ℕ
frame = 16 ∷ 2 ∷ 0 ∷ 157 ∷ 1 ∷ 42 ∷ []

frame-is_key_frame : is_key_frame frame ≡ true
unfolding is_key_frame tag_frame_type
frame-is_key_frame = refl

extract_frame-generate_example :
    extract_frame false (map (item_of 3000) (generate padded packetizer 14 3000 frame).0)
    ≡ (frame ∷ [], true)
extract_frame-generate_example =
    extract_frame-generate padded packetizer 14 3000 3000 false frame (omega arith) (omega arith)
      (λ e n. omega arith) frame-is_key_frame

-- A picture id of two bytes, and a layer index.
extract_payload_long : extract_payload (144 ∷ 192 ∷ 130 ∷ 5 ∷ 7 ∷ 8 ∷ 9 ∷ []) ≡ some (8 ∷ 9 ∷ [])
unfolding extract_payload
extract_payload_long = refl

extract_payload_short : extract_payload (144 ∷ 192 ∷ 130 ∷ []) ≡ none
unfolding extract_payload
extract_payload_short = refl

starts : is_frame_start (144 ∷ 1 ∷ []) ≡ true
unfolding is_frame_start
starts = refl
