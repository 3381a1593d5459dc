-- ===== src/Vp9/Tests.antt =====
-- VP9 packets at concrete inputs.
use srtc.Common.{ℕ, ◌+◌, ◌≡◌, refl, List, [], ◌∷◌, map, none, some, true, false, arith}
use srtc.Extension.{no_extension}
use srtc.H264.Packetizer.{ExtensionSources}
use srtc.H264.Fragments.{item_of}
use srtc.Vp9.{is_key_frame, extract_dimensions}
use srtc.Vp9.Packets.{
  PacketizerVp9, generate, extract_payload, extract_frame, is_frame_start,
  extract_frame-generate_vp9,
}

-- No extensions, and four bytes of padding.
abbrev padded : ExtensionSources ℕ
padded = record {
  get_padding = λ n size. (4, n);
  build_extension = λ n is_key number. (no_extension, n + 1);
}

abbrev packetizer : PacketizerVp9 ℕ
packetizer = record {
  video = record {
    track = record {
      ssrc = 55;
      payload_id = 98;
      rtx_ssrc = 56;
      rtx_payload_id = 99;
      clock_rate = 90000;
      has_nack = true;
    };
    source = record {
      ssrc = 55;
      payload_id = 98;
      generated_count = 0;
      rollover = 0;
      next_sequence = 65535;
    };
    extensions = 0;
  };
  picture_id = 32767;
}

-- The head of a key frame of 640 by 360.
abbrev frame : List ℕ
frame = 130 ∷ 73 ∷ 131 ∷ 66 ∷ 0 ∷ 39 ∷ 240 ∷ 22 ∷ 112 ∷ []

frame-is_key_frame : is_key_frame frame ≡ true
unfolding is_key_frame
frame-is_key_frame = refl

frame-extract_dimensions : extract_dimensions frame ≡ some (640, 360)
unfolding extract_dimensions
frame-extract_dimensions = refl

extract_frame-generate_vp9_example :
    extract_frame false (map (item_of 3000) (generate padded packetizer 14 3000 frame).0)
    ≡ (frame ∷ [], true)
extract_frame-generate_vp9_example =
    extract_frame-generate_vp9 padded packetizer 14 3000 3000 false frame (omega arith)
      (omega arith) (omega arith) (λ e n. omega arith) frame-is_key_frame

-- A scalability structure with one layer's size and a group of two pictures.
extract_payload_long :
    extract_payload (138 ∷ 5 ∷ 24 ∷ 1 ∷ 64 ∷ 0 ∷ 180 ∷ 2 ∷ 0 ∷ 4 ∷ 1 ∷ 7 ∷ 8 ∷ [])
    ≡ some (7 ∷ 8 ∷ [])
unfolding extract_payload
extract_payload_long = refl

extract_payload_short : extract_payload (138 ∷ 5 ∷ 24 ∷ 1 ∷ 64 ∷ []) ≡ none
unfolding extract_payload
extract_payload_short = refl

starts : is_frame_start (136 ∷ 1 ∷ []) ≡ true
unfolding is_frame_start
starts = refl
