-- ===== src/Sctp/Packet.antt =====
-- src/sctp/sctp_packet_builder.cpp and src/sctp/sctp_packet.cpp: SCTP packets, a header of twelve bytes
-- and a sequence of chunks. The checksum `crc32c` of src/sctp/sctp_crc32.cpp is a parameter: a number
-- of 32 bits for a sequence of bytes, the same whether it is given in one piece or in three.
pub mod Chunks
pub mod RoundTrip
pub mod Total
mod Params
mod Tests
use srtc.Common.{
  ℕ, zero, suc, ◌+◌, ◌-◌, ◌*◌, ◌/◌, ◌%◌, ◌^◌, min, List, [], ◌∷◌, ◌++◌, Option, none, some, Bool,
  true, false,
}
use srtc.Common.{ltb, ◌==◌, ◌||◌, if◌then◌else◌, length, take, drop, get_or, set}
use srtc.Bytes.Writer.{write, padding, write_u8, write_u16, write_u32}
use srtc.Bytes.Reader.{
  ByteReader, Read, ◌>>=◌, ◌>>◌, pure, reader, remaining, read_u8, read_u16, read_u32, skip,
}

-- A chunk or a parameter, with the bytes that `data` and `size` delimit.
pub record Chunk : Type 0 where
  pub type : ℕ
  pub flags : ℕ
  pub value : List ℕ

pub record Param : Type 0 where
  pub type : ℕ
  pub value : List ℕ

pub record SctpPacket : Type 0 where
  pub src_port : ℕ
  pub dst_port : ℕ
  pub verification_tag : ℕ
  pub chunks : List Chunk

unfoldable pub new_builder : ℕ → ℕ → ℕ → List ℕ
new_builder src_port dst_port verification_tag =
    write_u32 (write_u32 (write_u16 (write_u16 [] src_port) dst_port) verification_tag) 0

unfoldable pub add_chunk : List ℕ → ℕ → ℕ → List ℕ → List ℕ
add_chunk buf type flags bytes =
    let chunk_len = (4 + length bytes) % 2 ^ 16 in
    let header = write_u16 (write_u8 (write_u8 buf type) flags) chunk_len in
    let body = if ltb 0 (length bytes) then write header bytes else header in
    let padded = (chunk_len + 3) / 4 * 4 in
    if ltb chunk_len padded then padding body 0 (padded - chunk_len) else body

-- The length of a chunk or a parameter, padded, less its header.
abbrev pub padded_skip : ℕ → ℕ
padded_skip len = (len + 3) / 4 * 4 - 4

unfoldable pub chunk_value : ℕ → ℕ → ℕ → Read (Option Chunk)
chunk_value type flags len r =
    if ltb len 4 || ltb (remaining r) (len - 4)
    then some (none, r)
    else (do
      skip (min (padded_skip len) (remaining r))
      pure (some (record { type = type; flags = flags; value = take (len - 4) r.rest })))
        r

unfoldable pub read_chunk : Read (Option Chunk)
read_chunk = do type ← read_u8; flags ← read_u8; len ← read_u16; chunk_value type flags len

-- The loop of `parse`. The inner option is its answer; the outer one is `none` where a read aborts or
-- the fuel is out. Each round takes four bytes at least.
unfoldable pub parse_chunks : ℕ → ByteReader → Option (Option (List Chunk))
parse_chunks zero r = none
parse_chunks (suc fuel) r = elim (ltb (remaining r) 4) [
  | true ↦ some (some [])
  | false ↦ elim (read_chunk r) [
    | none ↦ none
    | some (found, r') ↦ elim found [
      | none ↦ some none
      | some c ↦ elim (parse_chunks fuel r') [
        | none ↦ none
        | some more ↦ elim more [ none ↦ some none | some cs ↦ some (some (c ∷ cs)) ]
      ]
    ]
  ]
]

-- The fixed part in front of the chunks.
unfoldable pub read_header : Read (ℕ × ℕ × ℕ)
read_header = do
  src_port ← read_u16
  dst_port ← read_u16
  verification_tag ← read_u32
  skip 4
  pure (src_port, dst_port, verification_tag)

unfoldable pub assemble : ℕ × ℕ × ℕ → Option (Option (List Chunk)) → Option (Option SctpPacket)
assemble (src_port, dst_port, verification_tag) found = elim found [
  | none ↦ none
  | some answer ↦ elim answer [
    | none ↦ some none
    | some chunks ↦ some (
        some (record {
          src_port = src_port;
          dst_port = dst_port;
          verification_tag = verification_tag;
          chunks = chunks;
        }))
  ]
]

unfoldable pub parse_body : List ℕ → Option (Option SctpPacket)
parse_body bytes = elim (read_header (reader bytes)) [
  | none ↦ none
  | some (header, r) ↦ assemble header (parse_chunks (length bytes) r)
]

module _ (crc32c : List ℕ → ℕ) where
  unfoldable pub build : List ℕ → List ℕ
  build buf =
      let crc = crc32c buf in
      set (set (set (set buf 8 (crc % 256)) 9 (crc / 2 ^ 8 % 256)) 10 (crc / 2 ^ 16 % 256)) 11
        (crc / 2 ^ 24 % 256)

  unfoldable pub parse : List ℕ → Option (Option SctpPacket)
  parse bytes =
      let stored_crc =
        get_or bytes 8 0
        + get_or bytes 9 0 * 2 ^ 8
        + get_or bytes 10 0 * 2 ^ 16
        + get_or bytes 11 0 * 2 ^ 24 in
      let finalized = crc32c (take 8 bytes ++ (0 ∷ 0 ∷ 0 ∷ 0 ∷ drop 12 bytes)) in
      if ltb (length bytes) 12
      then some none
      else if finalized == stored_crc
      then parse_body bytes
      else some none

-- `Chunk::parseParams`: the loop stops at the first parameter that is cut short.
unfoldable pub param_value : ℕ → ℕ → Read (Option Param)
param_value type len r =
    if ltb len 4 || ltb (remaining r) (len - 4)
    then some (none, r)
    else (do
      skip (min (padded_skip len) (remaining r))
      pure (some (record { type = type; value = take (len - 4) r.rest })))
        r

unfoldable pub read_param : Read (Option Param)
read_param = do type ← read_u16; len ← read_u16; param_value type len

unfoldable pub params_loop : ℕ → ByteReader → Option (List Param)
params_loop zero r = none
params_loop (suc fuel) r = elim (ltb (remaining r) 4) [
  | true ↦ some []
  | false ↦ elim (read_param r) [
    | none ↦ none
    | some (found, r') ↦ elim found [
      | none ↦ some []
      | some p ↦ elim (params_loop fuel r') [ none ↦ none | some ps ↦ some (p ∷ ps) ]
    ]
  ]
]

unfoldable pub parse_params : Chunk → ℕ → Option (List Param)
parse_params chunk offset =
    if ltb (length chunk.value) offset then some [] else elim (skip offset (reader chunk.value)) [
      | none ↦ none
      | some (_, r) ↦ params_loop (length chunk.value + 1) r
    ]
