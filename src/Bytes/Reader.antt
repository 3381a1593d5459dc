-- ===== src/Bytes/Reader.antt =====
-- `ByteReader` of src/byte_buffer.cpp. `rest` holds the bytes from `mBuf + mPos` to `mBuf + mLen`,
-- and `pos` is `mPos`. Where `check_read` aborts the process, the result is `none`. The bytes that
-- are joined by `|` after a shift do not overlap: the join is a sum.
use srtc.Common.{ℕ, ◌+◌, ◌*◌, ◌/◌, ◌%◌, ◌^◌, List, [], ◌∷◌, Option, none, some}
use srtc.Common.{length, take, drop, ltb, leb, ◌==◌, if◌then◌else◌, ◌||◌, ◌≡◌}

pub record ByteReader : Type 0 where
  pub rest : List ℕ
  pub pos : ℕ

-- A read returns its result and the advanced reader, or aborts.
abbrev pub Read : Type 0 → Type 0
Read A = ByteReader → Option (A × ByteReader)

infixl 5 ◌>>=◌ ◌>>◌
abbrev pub ◌>>=◌ : {A B : Type 0} → Read A → (A → Read B) → Read B
◌>>=◌ m f r = elim (m r) [ none ↦ none | some (a, r') ↦ f a r' ]

abbrev pub ◌>>◌ : {B : Type 0} → Read (Unit {0}) → Read B → Read B
m >> k = m >>= λ _. k

abbrev pub pure : {A : Type 0} → A → Read A
pure a r = some (a, r)

unfoldable pub reader : List ℕ → ByteReader
reader buf = record { rest = buf; pos = 0 }

abbrev pub remaining : ByteReader → ℕ
remaining r = length r.rest

unfoldable u8_from : List ℕ → ℕ → Option (ℕ × ByteReader)
u8_from (a ∷ rest) pos = some (a, record { rest = rest; pos = pos + 1 })
u8_from _ pos = none

unfoldable u16_from : List ℕ → ℕ → Option (ℕ × ByteReader)
u16_from (a ∷ b ∷ rest) pos = some (a * 2 ^ 8 + b, record { rest = rest; pos = pos + 2 })
u16_from _ pos = none

unfoldable u32_from : List ℕ → ℕ → Option (ℕ × ByteReader)
u32_from (a ∷ b ∷ c ∷ d ∷ rest) pos =
    some (a * 2 ^ 24 + b * 2 ^ 16 + c * 2 ^ 8 + d, record { rest = rest; pos = pos + 4 })
u32_from _ pos = none

unfoldable u64_from : List ℕ → ℕ → Option (ℕ × ByteReader)
u64_from (a ∷ b ∷ c ∷ d ∷ e ∷ f ∷ g ∷ h ∷ rest) pos = some (
  a * 2 ^ 56 + b * 2 ^ 48 + c * 2 ^ 40 + d * 2 ^ 32 + e * 2 ^ 24 + f * 2 ^ 16 + g * 2 ^ 8 + h,
  record { rest = rest; pos = pos + 8 },
)
u64_from _ pos = none

unfoldable pub read_u8 : Read ℕ
unfolding u8_from
read_u8 r = u8_from r.rest r.pos

unfoldable pub read_u16 : Read ℕ
unfolding u16_from
read_u16 r = u16_from r.rest r.pos

unfoldable pub read_u32 : Read ℕ
unfolding u32_from
read_u32 r = u32_from r.rest r.pos

unfoldable pub read_u64 : Read ℕ
unfolding u64_from
read_u64 r = u64_from r.rest r.pos

-- The loop of `readLEB128`, over the bytes that are left. `result` stays below 2 ^ shift.
unfoldable pub leb128_from : List ℕ → ℕ → ℕ → ℕ → ℕ × ByteReader
leb128_from [] pos result shift = (result, record { rest = []; pos = pos })
leb128_from (byte ∷ rest) pos result shift =
    let result' = result + byte % 128 * 2 ^ shift % 2 ^ 32 in
    let more = leb128_from rest (pos + 1) result' (shift + 7) in
    if byte / 128 % 2 == 0 || leb 32 (shift + 7)
    then (result', record { rest = rest; pos = pos + 1 })
    else more

unfoldable pub read_leb128 : ByteReader → ℕ × ByteReader
read_leb128 r = leb128_from r.rest r.pos 0 0

-- `readByteBuffer`, `readString` and `read` all copy the next `size` bytes.
unfoldable pub read_bytes : ℕ → Read (List ℕ)
read_bytes size r =
    if ltb (remaining r) size
    then none
    else some (take size r.rest, record { rest = drop size r.rest; pos = r.pos + size })

unfoldable pub skip : ℕ → Read (Unit {0})
skip size r =
    if ltb (remaining r) size
    then none
    else some (tt, record { rest = drop size r.rest; pos = r.pos + size })

-- A chain whose first step is known.
pub >>=-some :
    {A B : Type 0} (m : Read A) (f : A → Read B) (r : ByteReader) {a : A} {r' : ByteReader}
    → m r ≡ some (a, r')
    → (m >>= f) r ≡ f a r'
>>=-some m f r e = rw (e, ◌>>=◌)
