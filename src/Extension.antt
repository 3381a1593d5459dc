-- ===== src/Extension.antt =====
-- src/rtp_extension.cpp and include/srtc/rtp_extension.h: the header extension of an RTP packet, a
-- sequence of elements in the one-byte or in the two-byte format of RFC 8285.
pub mod Builder
pub mod Elements
pub mod Lookup
pub mod Build
pub mod Search
mod Replace
mod Tests
use srtc.Common.{
  ℕ, zero, suc, ◌+◌, ◌*◌, ◌/◌, ◌%◌, List, [], ◌∷◌, Option, none, some, Bool, true, false,
}
use srtc.Common.{◌||◌, ltb, leb, ◌==◌, if◌then◌else◌, length, take, not}
use srtc.Bytes.Reader.{
  ByteReader, Read, ◌>>=◌, ◌>>◌, pure, reader, remaining, read_u8, read_u16, read_u32, read_u64,
  skip,
}

abbrev pub one_byte : ℕ
one_byte = 0xbede

abbrev pub two_byte : ℕ
two_byte = 0x1000

-- `mId`, and the bytes of `mData`.
pub record RtpExtension : Type 0 where
  pub id : ℕ
  pub bytes : List ℕ

-- `Element`, with the value that `ptr` and `len` delimit.
pub record Element : Type 0 where
  pub id : ℕ
  pub value : List ℕ

-- The mask `0xFFF0` of a `uint16_t` clears its last four bits.
unfoldable pub is_valid_extension_id : ℕ → Bool
is_valid_extension_id id = id == one_byte || id / 16 * 16 == two_byte

abbrev pub no_extension : RtpExtension
no_extension = record { id = 0; bytes = [] }

unfoldable pub clear : RtpExtension → RtpExtension
clear ext = record { id = 0; bytes = [] }

unfoldable pub is_empty : RtpExtension → Bool
is_empty ext = ext.id == 0 || length ext.bytes == 0

-- The bytes that the extension takes in a packet, its header and padding included.
unfoldable pub size : RtpExtension → ℕ
unfolding is_empty
size ext = if is_empty ext then 0 else 2 + 2 + 4 * ((length ext.bytes + 3) / 4)

unfoldable pub copy : RtpExtension → RtpExtension
unfolding is_empty
copy ext = if is_empty ext then no_extension else ext

-- The tail of `nextElement`: the value is there or not.
unfoldable pub take_value : ℕ → ℕ → Read (Option Element)
take_value id len r =
    if ltb (remaining r) len
    then some (none, r)
    else (do skip len; pure (some (record { id = id; value = take len r.rest }))) r

unfoldable pub one_byte_header : ℕ → Read (Option Element)
unfolding take_value
one_byte_header value r =
    if value == 0
    then some (none, r)
    else if value / 16 == 15
    then some (none, r)
    else take_value (value / 16) (value % 16 + 1) r

unfoldable pub next_one_byte : Read (Option Element)
unfolding one_byte_header
next_one_byte r =
    if ltb (remaining r) 1 then some (none, r) else (do value ← read_u8; one_byte_header value) r

unfoldable pub two_byte_header : ℕ → Read (Option Element)
unfolding take_value
two_byte_header id r = if id == 0 then some (none, r) else (do len ← read_u8; take_value id len) r

unfoldable pub next_two_byte : Read (Option Element)
unfolding two_byte_header
next_two_byte r =
    if ltb (remaining r) 2 then some (none, r) else (do id ← read_u8; two_byte_header id) r

-- `nextElement`: the inner option is its answer, the outer one is `none` where a read aborts.
unfoldable pub next_element : ℕ → Read (Option Element)
unfolding next_one_byte next_two_byte is_valid_extension_id
next_element extension_id r =
    if is_valid_extension_id extension_id
    then (if extension_id == one_byte then next_one_byte r else next_two_byte r)
    else some (none, r)

-- The loop of `findAny`, on fuel; `none` means that it ran out, or that a read aborted.
unfoldable pub find_loop : ℕ → ℕ → ℕ → ByteReader → Option (Option (List ℕ))
find_loop zero extension_id wanted r = none
find_loop (suc fuel) extension_id wanted r = elim (next_element extension_id r) [
  | none ↦ none
  | some (found, r') ↦ elim found [
    | none ↦ some none
    | some e ↦ elim (e.id == wanted) [
      | true ↦ some (some e.value)
      | false ↦ find_loop fuel extension_id wanted r'
    ]
  ]
]

-- Each round takes a byte at least.
unfoldable pub find_any : RtpExtension → ℕ → Option (Option (List ℕ))
find_any ext wanted =
    if is_empty ext
    then some none
    else find_loop (length ext.bytes + 1) ext.id wanted (reader ext.bytes)

-- `findU16` and its kin: a value that is too short is no value.
unfoldable pub as_number : ℕ → Read ℕ → Option (List ℕ) → Option (Option ℕ)
as_number width read none = some none
as_number width read (some value) =
    if leb width (length value)
    then elim (read (reader value)) [ none ↦ none | some (n, r) ↦ some (some n) ]
    else some none

unfoldable pub find_number : ℕ → Read ℕ → RtpExtension → ℕ → Option (Option ℕ)
find_number width read ext wanted = elim (find_any ext wanted) [
  | none ↦ none
  | some value ↦ as_number width read value
]

unfoldable pub find_u16 : RtpExtension → ℕ → Option (Option ℕ)
find_u16 = find_number 2 read_u16

unfoldable find_u32 : RtpExtension → ℕ → Option (Option ℕ)
find_u32 = find_number 4 read_u32

unfoldable find_u64 : RtpExtension → ℕ → Option (Option ℕ)
find_u64 = find_number 8 read_u64

-- The loop of `trimPadding`: the position behind the last element.
unfoldable pub trim_loop : ℕ → ℕ → ByteReader → ℕ → Option ℕ
trim_loop zero extension_id r end = none
trim_loop (suc fuel) extension_id r end = elim (next_element extension_id r) [
  | none ↦ none
  | some (found, r') ↦ elim found [
    | none ↦ some end
    | some e ↦ trim_loop fuel extension_id r' r'.pos
  ]
]

unfoldable pub trim_padding : RtpExtension → Option RtpExtension
trim_padding ext =
    if is_empty ext
    then some ext
    else elim (trim_loop (length ext.bytes + 1) ext.id (reader ext.bytes) 0) [
      | none ↦ none
      | some end ↦ some (record ext { bytes = take end ext.bytes })
    ]
