-- ===== src/Bytes/Growth.antt =====
-- The block and its growth against the plain list of bytes in use.
use srtc.Common.{ℕ, zero, suc, ◌+◌, ◌*◌, ◌/◌, ◌≤◌, ◌<◌, ◌≡◌, refl, sym, ap, ◌∙◌, max}
use srtc.Common.{List, [], ◌∷◌, ◌++◌, true, false, arith, length, take, drop}
use srtc.Common.{replicate, length-append, length-take, length-drop, take-append}
use srtc.Common.{
  length-replicate, append_assoc, Bool-cases, inl, inr, ◌↔◌, ◌==◌, ==_iff, append-nil, ltb, lt→ltb,
  ltb→lt,
}
use srtc.Bytes.Buffer
use srtc.Bytes.Buffer.{ByteBuffer, contents, capacity, write_at}

-- What every operation keeps: the bytes in use lie inside the block.
abbrev pub IsValid : ByteBuffer → Type 0
IsValid b = b.len ≤ capacity b

length-contents : (b : ByteBuffer) → IsValid b → length (contents b) ≡ b.len
length-contents b v = omega (arith, length-take b.len b.mem)

-- A copy into the block, just behind the bytes in use.
take-write_at :
    (mem src : List ℕ) (at : ℕ)
    → at + length src ≤ length mem
    → take (at + length src) (write_at mem at src) ≡ take at mem ++ src
unfolding write_at
take-write_at mem src at h =
    ap (take (at + length src)) (sym (append_assoc (take at mem) src (drop (at + length src) mem)))
    ∙ take-append (take at mem ++ src) (drop (at + length src) mem) (at + length src)
        (omega (arith, length-append (take at mem) src, length-take at mem))

length-write_at :
    (mem src : List ℕ) (at : ℕ)
    → at + length src ≤ length mem
    → length (write_at mem at src) ≡ length mem
unfolding write_at
length-write_at mem src at h = omega (
  arith,
  length-append (take at mem) (src ++ drop (at + length src) mem),
  length-append src (drop (at + length src) mem),
  length-take at mem,
  length-drop (at + length src) mem,
)

-- A copy to the end of the bytes in use appends.
contents-write_at :
    (b : ByteBuffer) (src : List ℕ)
    → b.len + length src ≤ capacity b
    → let r : ByteBuffer = record { mem = write_at b.mem b.len src; len = b.len + length src } in
      (contents r ≡ contents b ++ src) × IsValid r
contents-write_at b src h =
    (take-write_at b.mem src b.len h, omega (arith, length-write_at b.mem src b.len h))

module _ (fresh : ℕ → List ℕ) (fresh_size : (n : ℕ) → length (fresh n) ≡ n) where
  -- What `g` is to `b` when it is `b` with room for `wanted` bytes.
  abbrev Grown : ByteBuffer → ℕ → ByteBuffer → Type 0
  Grown b wanted g = (contents g ≡ contents b) × (g.len ≡ b.len) × (wanted ≤ capacity g) × IsValid g

  moved_block :
      (b : ByteBuffer) (mem : List ℕ) (wanted : ℕ)
      → IsValid b
      → b.len ≤ length mem
      → wanted ≤ length mem
      → Grown b wanted (record b { mem = write_at mem 0 (take b.len b.mem) })
  moved_block b mem wanted v room big =
      let used : length (take b.len b.mem) ≡ b.len = length-contents b v in
      let fits : 0 + length (take b.len b.mem) ≤ length mem = omega arith in
      let same : length (write_at mem 0 (take b.len b.mem)) ≡ length mem =
        length-write_at mem (take b.len b.mem) 0 fits in
      (
        ap (λ (n : ℕ). take n (write_at mem 0 (take b.len b.mem))) (omega arith)
            ∙ take-write_at mem (take b.len b.mem) 0 fits,
        refl,
        omega arith,
        omega arith,
      )

  -- Growing changes no byte in use, and makes the room that was asked for.
  ensure_capacity_lem :
      (b : ByteBuffer) (wanted : ℕ)
      → IsValid b
      → Grown b wanted (Buffer.ensure_capacity fresh b wanted)
  unfolding Buffer.ensure_capacity
  ensure_capacity_lem b wanted v =
      let size : ℕ = max (wanted + 128) (capacity b * 3 / 2) in
      elim (Bool-cases (ltb (capacity b) wanted)) [
        | inl h ↦
            let lt : capacity b < wanted = ltb→lt _ _ h in
            rw h (
              moved_block b (fresh size) wanted v (omega (arith, fresh_size size))
                (omega (arith, fresh_size size)))
        | inr h ↦ rw h (refl, refl, ground arith, v)
      ]

  after_growth :
      (b g : ByteBuffer) (src : List ℕ)
      → Grown b (b.len + length src) g
      → let r : ByteBuffer = record { mem = write_at g.mem g.len src; len = g.len + length src } in
        (contents r ≡ contents b ++ src) × IsValid r
  after_growth b g src (same, len, room, v) =
      let (holds, valid) = contents-write_at g src (omega arith) in
      (holds ∙ ap (λ (xs : List ℕ). xs ++ src) same, valid)

  -- On a valid buffer, `append` is concatenation on the bytes in use and keeps the buffer valid, whatever
  -- new memory holds.
  pub append_lem :
      (b : ByteBuffer) (src : List ℕ)
      → IsValid b
      → (contents (Buffer.append fresh b src) ≡ contents b ++ src)
        × IsValid (Buffer.append fresh b src)
  unfolding Buffer.append
  append_lem b [] v = (sym (append-nil (contents b)), v)
  append_lem b (x ∷ src) v =
      rw (lt→ltb 0 (length (x ∷ src)) (omega arith))
        (after_growth b _ (x ∷ src) (ensure_capacity_lem b (b.len + length (x ∷ src)) v))

  append_buffer-eq :
      (b other : ByteBuffer)
      → IsValid other
      → Buffer.append_buffer fresh b other ≡ Buffer.append fresh b (contents other)
  unfolding Buffer.append_buffer Buffer.append
  append_buffer-eq b other w = rw (length-contents other w) refl

  -- On valid buffers, `append` of another buffer concatenates their bytes in use and keeps the buffer
  -- valid, whatever new memory holds.
  pub append_buffer_lem :
      (b other : ByteBuffer)
      → IsValid b
      → IsValid other
      → (contents (Buffer.append_buffer fresh b other) ≡ contents b ++ contents other)
        × IsValid (Buffer.append_buffer fresh b other)
  append_buffer_lem b other v w = rw (append_buffer-eq b other w) (append_lem b (contents other) v)

  -- On a valid buffer, `padding` appends that many copies of the byte and keeps the buffer valid.
  pub padding_lem :
      (b : ByteBuffer) (c size : ℕ)
      → IsValid b
      → (contents (Buffer.padding fresh b c size) ≡ contents b ++ replicate size c)
        × IsValid (Buffer.padding fresh b c size)
  unfolding Buffer.padding
  padding_lem b c size v = rw (length-replicate size c) at (
      after_growth b (Buffer.ensure_capacity fresh b (b.len + length (replicate size c)))
        (replicate size c) (ensure_capacity_lem b (b.len + length (replicate size c)) v))

∷-injective : {x y : ℕ} {xs ys : List ℕ} → (x ∷ xs) ≡ (y ∷ ys) → (x ≡ y) × (xs ≡ ys)
∷-injective e = (cc, cc)

-- `memcmp` over the bytes in use decides their equality.
same_bytes_iff :
    (n : ℕ) (xs ys : List ℕ)
    → n ≤ length xs
    → n ≤ length ys
    → (Buffer.same_bytes n xs ys ≡ true) ↔ (take n xs ≡ take n ys)
unfolding Buffer.same_bytes
same_bytes_iff zero xs ys h k = (λ _. refl, λ _. refl)
same_bytes_iff (suc n) [] ys h k = absurd (omega arith)
same_bytes_iff (suc n) (x ∷ xs) [] h k = absurd (omega arith)
same_bytes_iff (suc n) (x ∷ xs) (y ∷ ys) h k =
    let ih = same_bytes_iff n xs ys (omega arith) (omega arith) in
    (λ e. ground arith, λ e. ground (arith, ih.1 (∷-injective e).1, (∷-injective e).0))

-- On valid buffers, `operator==` holds exactly when the bytes in use are the same.
pub equals_iff :
    (b other : ByteBuffer)
    → IsValid b
    → IsValid other
    → (Buffer.equals b other ≡ true) ↔ (contents b ≡ contents other)
unfolding Buffer.equals
equals_iff b other v w = elim (Bool-cases (b.len == other.len)) [
  | inl h ↦
      let e : b.len ≡ other.len = (==_iff _ _).0 h in
      let same = same_bytes_iff b.len b.mem other.mem v (omega arith) in
      let cut = ap (λ (n : ℕ). take n other.mem) e in
      rw h (λ k. same.0 k ∙ cut, λ k. same.1 (k ∙ sym cut))
  | inr h ↦
      let used : length (contents b) ≡ b.len = length-contents b v in
      let used' : length (contents other) ≡ other.len = length-contents other w in
      rw h
        (λ k. ground arith, λ k. absurd (differ b.len other.len h (sym used ∙ ap length k ∙ used')))
]
  where
    differ : (m n : ℕ) → (m == n) ≡ false → m ≡ n → ⊥
    differ m n h e = ground arith
