-- ===== src/Extension/Builder.antt =====
-- src/rtp_extension_builder.cpp: builds an extension in the two-byte format. The state is the bytes
-- of `mBuf`; `mWriter` appends to it.
use srtc.Common.{
  ℕ, zero, suc, ◌+◌, ◌/◌, ◌%◌, ◌^◌, min, List, [], Option, none, some, Bool, true, false,
}
use srtc.Common.{ltb, ◌==◌, if◌then◌else◌, length, take, set}
use srtc.Bytes.Writer.{write, write_u8, write_u16, write_u32, write_u64}
use srtc.Bytes.Reader.{ByteReader, Read, ◌>>=◌, pure, reader, remaining, read_u8, skip}
use srtc.Extension.{RtpExtension, is_empty, no_extension, two_byte}

unfoldable pub add_string_value : List ℕ → ℕ → List ℕ → List ℕ
add_string_value buf id value =
    let len = min 255 (length value) in write (write_u8 (write_u8 buf id) len) (take len value)

unfoldable pub add_binary_value : List ℕ → ℕ → List ℕ → List ℕ
add_binary_value buf id value =
    let len = min 255 (length value) in write (write_u8 (write_u8 buf id) len) value

unfoldable pub add_u16_value : List ℕ → ℕ → ℕ → List ℕ
add_u16_value buf id value = write_u16 (write_u8 (write_u8 buf id) 2) value

unfoldable pub add_u32_value : List ℕ → ℕ → ℕ → List ℕ
add_u32_value buf id value = write_u32 (write_u8 (write_u8 buf id) 4) value

unfoldable pub add_u64_value : List ℕ → ℕ → ℕ → List ℕ
add_u64_value buf id value = write_u64 (write_u8 (write_u8 buf id) 8) value

-- The id and the length of the next element.
unfoldable pub read_header : Read (ℕ × ℕ)
read_header = do extension_id ← read_u8; extension_len ← read_u8; pure (extension_id, extension_len)

-- The search loop of `addOrReplaceU16Value`: the position of the value's bytes. The outer option is
-- `none` where a read aborts, where the assert on the length of the value fails, or the fuel is out.
unfoldable pub position_loop : ℕ → ℕ → ByteReader → Option (Option ℕ)
position_loop zero id r = none
position_loop (suc fuel) id r = elim (ltb 2 (remaining r)) [
  | false ↦ some none
  | true ↦ elim (read_header r) [
    | none ↦ none
    | some ((extension_id, extension_len), r') ↦ elim (extension_id == id) [
      | true ↦ if extension_len == 2 then some (some r'.pos) else none
      | false ↦ elim (skip extension_len r') [
        | none ↦ none
        | some (_, r'') ↦ position_loop fuel id r''
      ]
    ]
  ]
]

-- The value in place of the two bytes at a position, or at the end.
unfoldable pub put_u16 : List ℕ → ℕ → ℕ → Option (Option ℕ) → Option (List ℕ)
put_u16 buf id value none = none
put_u16 buf id value (some none) = some (add_u16_value buf id value)
put_u16 buf id value (some (some offset)) =
    some (set (set buf offset (value / 2 ^ 8 % 256)) (offset + 1) (value % 256))

unfoldable pub add_or_replace_u16_value : List ℕ → ℕ → ℕ → Option (List ℕ)
add_or_replace_u16_value buf id value =
    put_u16 buf id value (position_loop (length buf + 1) id (reader buf))

-- The loop of `contains`; the two bytes of the header are read around the test.
unfoldable pub contains_loop : ℕ → ℕ → ByteReader → Option Bool
contains_loop zero id r = none
contains_loop (suc fuel) id r = elim (ltb 2 (remaining r)) [
  | false ↦ some false
  | true ↦ elim (read_u8 r) [
    | none ↦ none
    | some (extension_id, r1) ↦ elim (extension_id == id) [
      | true ↦ some true
      | false ↦ elim ((do extension_len ← read_u8; skip extension_len) r1) [
        | none ↦ none
        | some (_, r2) ↦ contains_loop fuel id r2
      ]
    ]
  ]
]

unfoldable pub contains : List ℕ → ℕ → Option Bool
contains buf id = contains_loop (length buf + 1) id (reader buf)

unfoldable pub build : List ℕ → RtpExtension
build buf = if length buf == 0 then no_extension else record { id = two_byte; bytes = buf }

unfoldable pub from : RtpExtension → List ℕ
from extension = if is_empty extension then [] else extension.bytes
