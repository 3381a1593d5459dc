-- ===== src/Vp9.antt =====
-- src/codec_vp9.cpp: the payload descriptor of a VP9 packet, and the head of a VP9 frame.
pub mod Descriptor
pub mod Packets
mod Tests
use srtc.Common.{ℕ, zero, suc, ◌+◌, ◌*◌, ◌/◌, ◌%◌, ◌^◌, List, [], ◌∷◌, ◌++◌, length, drop}
use srtc.Common.{
  Option, none, some, Bool, true, false, not, ltb, leb, ◌==◌, ◌&&◌, ◌||◌, if◌then◌else◌,
}
use srtc.BitReader.{BitReader, bit_reader, read_bit, read_bits}

pub record PayloadDescriptor : Type 0 where
  pub picture_id_present : Bool
  pub inter_picture : Bool
  pub start_of_frame : Bool
  pub end_of_frame : Bool
  pub picture_id : ℕ  -- uint16

unfoldable pub flag : ℕ → ℕ → Bool
flag byte n = byte / 2 ^ n % 2 == 1

unfoldable skip : ℕ → List ℕ → Option (List ℕ)
skip n bytes = if leb n (length bytes) then some (drop n bytes) else none

-- The picture id, of 15 bits or of 7, and the bytes after it.
unfoldable pub read_picture_id : Bool → List ℕ → Option (ℕ × List ℕ)
unfolding flag
read_picture_id false bytes = some (0, bytes)
read_picture_id true [] = none
read_picture_id true (high ∷ []) = if flag high 7 then none else some (high % 2 ^ 7, [])
read_picture_id true (high ∷ low ∷ rest) =
    if flag high 7 then some (high % 2 ^ 7 * 2 ^ 8 + low, rest) else some (high % 2 ^ 7, low ∷ rest)

unfoldable skip_layers : Bool → Bool → List ℕ → Option (List ℕ)
unfolding flag skip
skip_layers false flexible bytes = some bytes
skip_layers true flexible [] = none
skip_layers true flexible (layers ∷ rest) =
    if not flexible && not (flag layers 0) then skip 1 rest else some rest

-- As many references as the first argument says, at most.
unfoldable skip_references : ℕ → List ℕ → Option (List ℕ)
unfolding flag
skip_references zero bytes = some bytes
skip_references (suc n) [] = none
skip_references (suc n) (reference ∷ rest) =
    let later = skip_references n rest in if flag reference 0 then later else some rest

unfoldable skip_groups : ℕ → List ℕ → Option (List ℕ)
unfolding skip
skip_groups zero bytes = some bytes
skip_groups (suc n) [] = none
skip_groups (suc n) (group ∷ rest) = elim (skip (group / 2 ^ 2 % 4) rest) [
  | none ↦ none
  | some bytes ↦ skip_groups n bytes
]

unfoldable skip_group_list : Bool → List ℕ → Option (List ℕ)
unfolding skip_groups
skip_group_list false bytes = some bytes
skip_group_list true [] = none
skip_group_list true (n ∷ rest) = skip_groups n rest

unfoldable skip_structure : Bool → List ℕ → Option (List ℕ)
unfolding flag skip skip_group_list
skip_structure false bytes = some bytes
skip_structure true [] = none
skip_structure true (structure ∷ rest) =
    elim (skip (if flag structure 4 then (structure / 2 ^ 5 % 8 + 1) * 4 else 0) rest) [
      | none ↦ none
      | some bytes ↦ skip_group_list (flag structure 3) bytes
    ]

-- What stands between the picture id and the bitstream.
unfoldable pub skip_rest : ℕ → List ℕ → Option (List ℕ)
unfolding flag skip_layers skip_references skip_structure
skip_rest header bytes = elim (skip_layers (flag header 5) (flag header 4) bytes) [
  | none ↦ none
  | some inner ↦ elim (skip_references (if flag header 4 && flag header 6 then 3 else 0) inner) [
    | none ↦ none
    | some last ↦ skip_structure (flag header 1) last
  ]
]

unfoldable pub describe : ℕ → Option (ℕ × List ℕ) → Option (PayloadDescriptor × List ℕ)
unfolding flag skip_rest
describe header none = none
describe header (some (id, bytes)) = elim (skip_rest header bytes) [
  | none ↦ none
  | some payload ↦ some (
    record {
      picture_id_present = flag header 7;
      inter_picture = flag header 6;
      start_of_frame = flag header 3;
      end_of_frame = flag header 2;
      picture_id = id;
    },
    payload,
  )
]

-- The descriptor and the bitstream behind it; `none` where the descriptor is cut short.
unfoldable pub parse_payload_descriptor : List ℕ → Option (PayloadDescriptor × List ℕ)
unfolding flag read_picture_id describe
parse_payload_descriptor [] = none
parse_payload_descriptor (header ∷ rest) = describe header (read_picture_id (flag header 7) rest)

-- The first byte of a descriptor.
unfoldable pub descriptor_flags : Bool → Bool → Bool → ℕ
descriptor_flags starts ends inter =
    2 ^ 7
    + (if inter then 2 ^ 6 else 0)
    + (if starts then 2 ^ 3 else 0)
    + (if ends then 2 ^ 2 else 0)

-- The buffer has three bytes in every call.
unfoldable pub build_payload_descriptor : Bool → Bool → Bool → ℕ → List ℕ
unfolding descriptor_flags
build_payload_descriptor starts ends inter picture_id =
    descriptor_flags starts ends inter
    ∷ (2 ^ 7 + picture_id / 2 ^ 8 % 2 ^ 7)
    ∷ picture_id % 2 ^ 8
    ∷ []

-- The bits after the profile: no existing frame to show, and the type of a key frame.
unfoldable pub key_frame_bits : BitReader → Bool × BitReader
unfolding read_bit
key_frame_bits r =
    let (show_existing, r₁) = read_bit r in
    let (frame_type, r₂) = read_bit r₁ in
    if show_existing == 0 then (frame_type == 0, r₂) else (false, r₁)

-- The profile, from its low bit and its high bit, with the bit that profile 3 has behind them.
unfoldable pub read_profile : BitReader → ℕ × BitReader
unfolding read_bit
read_profile r =
    let (low, r₁) = read_bit r in
    let (high, r₂) = read_bit r₁ in
    let profile = high * 2 + low in (profile, if profile == 3 then (read_bit r₂).1 else r₂)

unfoldable pub is_key_frame : List ℕ → Bool
unfolding bit_reader read_bits read_profile key_frame_bits
is_key_frame [] = false
is_key_frame (b ∷ rest) =
    let (frame_marker, r) = read_bits 2 (bit_reader (b ∷ rest)) in
    frame_marker == 2 && (key_frame_bits (read_profile r).1).0

-- The bits of the colour configuration that stand behind the colour space.
unfoldable color_bits : ℕ → ℕ → ℕ
color_bits color_space profile =
    if color_space == 7
    then (if profile == 1 || profile == 3 then 1 else 0)
    else (if profile == 1 || profile == 3 then 4 else 1)

unfoldable frame_size : ℕ → BitReader → ℕ × ℕ
unfolding read_bits color_bits
frame_size profile r =
    let (color_space, r₁) = read_bits 3 r in
    let r₂ = (read_bits (color_bits color_space profile) r₁).1 in
    let (w, r₃) = read_bits 16 r₂ in
    let (h, r₄) = read_bits 16 r₃ in ((w + 1) % 2 ^ 16, (h + 1) % 2 ^ 16)

-- The three bytes of the frame's synchronisation code.
unfoldable sync_code : BitReader → Bool × BitReader
unfolding read_bits
sync_code r =
    let (a, r₁) = read_bits 8 r in
    let (b, r₂) = read_bits 8 r₁ in
    let (c, r₃) = read_bits 8 r₂ in (a == 0x49 && b == 0x83 && c == 0x42, r₃)

unfoldable pub extract_dimensions : List ℕ → Option (ℕ × ℕ)
unfolding bit_reader read_bits read_profile key_frame_bits sync_code frame_size
extract_dimensions bytes =
    let (frame_marker, r) = read_bits 2 (bit_reader bytes) in
    let (profile, r₁) = read_profile r in
    let (is_key, r₂) = key_frame_bits r₁ in
    let (synced, r₃) = sync_code (read_bits 2 r₂).1 in
    if ltb (length bytes) 4
    then none
    else (if frame_marker == 2 && is_key && synced then some (frame_size profile r₃) else none)
