-- ===== src/H264.antt =====
-- src/codec_h264.cpp and include/srtc/codec_h264.h: the units of an H.264 byte stream, and where a frame
-- starts.
pub mod Depacketizer
pub mod Packetizer
pub mod Sizes
pub mod Fragments
pub mod RoundTrip
pub mod Crash
pub mod Plain
mod Aggregates
mod Tests
use srtc.Common.{
  ℕ, zero, suc, ◌+◌, ◌-◌, ◌%◌, ◌^◌, List, [], ◌∷◌, length, take, drop, get_or, get_elem?,
}
use srtc.Common.{Option, none, some, Bool, true, false, ltb, leb, ◌==◌, ◌&&◌, ◌||◌, if◌then◌else◌}
use srtc.BitReader.{bit_reader, read_unsigned_exp_golomb}

abbrev pub packet_stap_a : ℕ
packet_stap_a = 24

abbrev pub packet_fu_a : ℕ
packet_fu_a = 28

-- The types of units.
abbrev pub non_key_frame : ℕ
non_key_frame = 1

abbrev pub key_frame : ℕ
key_frame = 5

abbrev pub sps : ℕ
sps = 7

abbrev pub pps : ℕ
pps = 8

-- A comparison of a byte of the buffer. One past the end, which only a buffer shorter than the start code
-- leads to, is undefined; it differs from every value here.
abbrev byte_is : List ℕ → ℕ → ℕ → Bool
byte_is buf i value = elim (get_elem? buf i) [ none ↦ false | some byte ↦ byte == value ]

-- `end - 4` wraps as a `size_t`.
unfoldable pub is_nalu_4 : List ℕ → ℕ → Bool
is_nalu_4 buf pos =
    ltb pos ((length buf + 2 ^ 64 - 4) % 2 ^ 64)
    && byte_is buf pos 0
    && byte_is buf (pos + 1) 0
    && byte_is buf (pos + 2) 0
    && byte_is buf (pos + 3) 1

unfoldable pub is_nalu_3 : List ℕ → ℕ → Bool
is_nalu_3 buf pos =
    ltb pos ((length buf + 2 ^ 64 - 3) % 2 ^ 64)
    && byte_is buf pos 0
    && byte_is buf (pos + 1) 0
    && byte_is buf (pos + 2) 1

-- The position of the next start code and its size, with `count` positions left.
unfoldable pub find_from : List ℕ → ℕ → ℕ → ℕ × ℕ
unfolding is_nalu_4 is_nalu_3
find_from buf zero pos = (length buf, 0)
find_from buf (suc count) pos =
    let later = find_from buf count (pos + 1) in
    if is_nalu_4 buf pos then (pos, 4) else if is_nalu_3 buf pos then (pos, 3) else later

unfoldable pub find_next_nalu : List ℕ → ℕ → ℕ × ℕ
unfolding find_from
find_next_nalu buf pos = find_from buf (length buf - pos) pos

pub record NaluParser : Type 0 where
  pub buf : List ℕ
  pub pos : ℕ
  pub skip : ℕ
  pub next_pos : ℕ
  pub next_skip : ℕ

unfoldable pub nalu_parser : List ℕ → NaluParser
unfolding find_next_nalu
nalu_parser buf =
    let (pos, skip) = find_next_nalu buf 0 in
    let (next_pos, next_skip) = find_next_nalu buf (pos + skip) in
    record { buf = buf; pos = pos; skip = skip; next_pos = next_pos; next_skip = next_skip }

unfoldable pub has_nalu : NaluParser → Bool
has_nalu p = ltb p.pos (length p.buf)

unfoldable pub is_at_end : NaluParser → Bool
is_at_end p = leb (length p.buf) p.next_pos

unfoldable pub next : NaluParser → NaluParser
unfolding find_next_nalu
next p =
    let (next_pos, next_skip) = find_next_nalu p.buf (p.next_pos + p.next_skip) in
    record p { pos = p.next_pos; skip = p.next_skip; next_pos = next_pos; next_skip = next_skip }

unfoldable pub curr_type : NaluParser → ℕ
curr_type p = get_or p.buf (p.pos + p.skip) 0 % 32

unfoldable pub curr_data : NaluParser → List ℕ
curr_data p = take (p.next_pos - p.pos - p.skip) (drop (p.pos + p.skip) p.buf)

unfoldable pub is_parameter_nalu : ℕ → Bool
is_parameter_nalu nalu_type = nalu_type == sps || nalu_type == pps

unfoldable pub is_slice_nalu : ℕ → Bool
is_slice_nalu nalu_type = nalu_type == non_key_frame || nalu_type == key_frame

-- The number of the first macroblock is the first number of a slice.
unfoldable pub is_slice_frame_start : List ℕ → Bool
is_slice_frame_start bytes =
    ltb 0 (length bytes) && (read_unsigned_exp_golomb (bit_reader bytes)).0 == 0
