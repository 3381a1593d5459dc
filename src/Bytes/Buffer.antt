-- ===== src/Bytes/Buffer.antt =====
-- `ByteBuffer` of src/byte_buffer.cpp: a block of `mCap` bytes, of which the first `mLen` are in use.
-- The length of `mem` is `mCap`; a null pointer is the empty block. What `new uint8_t[n]` holds is
-- not specified: it is the parameter `fresh`, one arbitrary byte for each size and position. Sizes are far
-- below 2 ^ 64, so that no `size_t` sum wraps.
use srtc.Common.{ℕ, zero, suc, ◌+◌, ◌*◌, ◌/◌, List, [], ◌∷◌, ◌++◌, max, Bool, true, false, ◌&&◌}
use srtc.Common.{
  length, take, drop, replicate, ltb, leb, ◌==◌, if◌then◌else◌, get_or, Option, none, some,
}

pub record ByteBuffer : Type 0 where
  pub mem : List ℕ
  pub len : ℕ

-- The bytes in use: `data()` up to `size()`.
abbrev pub contents : ByteBuffer → List ℕ
contents b = take b.len b.mem

abbrev pub capacity : ByteBuffer → ℕ
capacity b = length b.mem

-- `std::memcpy(mem + at, src, size)` on a block.
unfoldable pub write_at : List ℕ → ℕ → List ℕ → List ℕ
write_at mem at src = take at mem ++ (src ++ drop (at + length src) mem)

unfoldable pub empty_buffer : ByteBuffer
empty_buffer = record { mem = []; len = 0 }

unfoldable from_bytes : List ℕ → ByteBuffer
from_bytes src = record { mem = src; len = length src }

unfoldable pub is_empty : ByteBuffer → Bool
is_empty b = b.len == 0

unfoldable pub clear : ByteBuffer → ByteBuffer
clear b = record b { len = 0 }

unfoldable free : ByteBuffer → ByteBuffer
free b = record { mem = []; len = 0 }

-- `assign` takes a new block of the exact size.
unfoldable assign : ByteBuffer → List ℕ → ByteBuffer
assign b src = record { mem = src; len = length src }

-- `none` where the assert `size <= mCap` fails.
unfoldable resize : ByteBuffer → ℕ → Option ByteBuffer
resize b size = if leb size (capacity b) then some (record b { len = size }) else none

-- `none` where the assert `mLen > 0` fails.
unfoldable pub front : ByteBuffer → Option ℕ
front b = if ltb 0 b.len then some (get_or b.mem 0 0) else none

-- The move constructor and the move assignment: the target takes the block, the source is left empty.
unfoldable move_from : ByteBuffer → ByteBuffer × ByteBuffer
move_from other = (other, record { mem = []; len = 0 })

unfoldable pub copy : ByteBuffer → ByteBuffer
copy b = record { mem = take b.len b.mem; len = b.len }

-- `std::memcmp` of `n` bytes gives 0.
unfoldable pub same_bytes : ℕ → List ℕ → List ℕ → Bool
same_bytes zero xs ys = true
same_bytes (suc n) [] ys = true
same_bytes (suc n) (x ∷ xs) [] = true
same_bytes (suc n) (x ∷ xs) (y ∷ ys) = x == y && same_bytes n xs ys

unfoldable pub equals : ByteBuffer → ByteBuffer → Bool
equals b other = if b.len == other.len then same_bytes b.len b.mem other.mem else false

module _ (fresh : ℕ → List ℕ) where
  -- The constructor that reserves `size` bytes.
  unfoldable with_capacity : ℕ → ByteBuffer
  with_capacity size = record { mem = fresh size; len = 0 }

  unfoldable pub ensure_capacity : ByteBuffer → ℕ → ByteBuffer
  ensure_capacity b wanted =
      if ltb (capacity b) wanted
      then record b {
        mem = write_at (fresh (max (wanted + 128) (capacity b * 3 / 2))) 0 (take b.len b.mem);
      }
      else b

  unfoldable pub append : ByteBuffer → List ℕ → ByteBuffer
  append b src =
      if ltb 0 (length src)
      then (let grown = ensure_capacity b (b.len + length src) in
          record { mem = write_at grown.mem grown.len src; len = grown.len + length src })
      else b

  unfoldable pub append_buffer : ByteBuffer → ByteBuffer → ByteBuffer
  append_buffer b other =
      if ltb 0 other.len
      then (let grown = ensure_capacity b (b.len + other.len) in
          record {
            mem = write_at grown.mem grown.len (take other.len other.mem);
            len = grown.len + other.len;
          })
      else b

  unfoldable pub padding : ByteBuffer → ℕ → ℕ → ByteBuffer
  padding b c size =
      let grown = ensure_capacity b (b.len + size) in
      record { mem = write_at grown.mem grown.len (replicate size c); len = grown.len + size }
