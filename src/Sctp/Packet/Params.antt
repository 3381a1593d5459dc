-- ===== src/Sctp/Packet/Params.antt =====
-- `parseParams` of src/sctp/sctp_packet.cpp on any chunk: its reads and its loop.
use srtc.Common.{
  ℕ, zero, suc, ◌+◌, ◌-◌, ◌*◌, ◌^◌, ◌≤◌, ◌<◌, ◌≡◌, refl, subst, min, List, [], ◌∷◌, Option, none,
  some,
}
use srtc.Common.{arith, ltb, length, take, drop, length-drop, ◌⊎◌, inl, inr, Bool-cases, ◌||◌}
use srtc.Bytes.Reader.{ByteReader, reader, read_u16, skip, remaining, >>=-some}
use srtc.Bytes.RoundTrip.{at}
use srtc.Sctp.Packet.{Chunk, Param, padded_skip, param_value, read_param, params_loop, parse_params}
use srtc.Sctp.Packet.Total.{skip_in_range}

-- What reading a parameter gives: none, or one, with fewer bytes left.
ReadsParam : ℕ → Option (Option Param × ByteReader) → Type 0
ReadsParam size answer =
    ((r' : ByteReader) × (answer ≡ some (none, r')))
    ⊎ ((p : Param) × (r' : ByteReader) × (answer ≡ some (some p, r')) × (remaining r' ≤ size))

param_value-ReadsParam :
    (type len : ℕ) (r : ByteReader) → ReadsParam (remaining r) (param_value type len r)
unfolding param_value ReadsParam
param_value-ReadsParam type len r = elim (Bool-cases (ltb len 4 || ltb (remaining r) (len - 4))) [
  | inl h ↦ inl (r, rw h refl)
  | inr h ↦
      let size = min (padded_skip len) (remaining r) in
      inr (
        record { type = type; value = take (len - 4) r.rest },
        at (drop size r.rest) (r.pos + size),
        rw h (>>=-some (skip size) _ r (skip_in_range size r (omega arith))),
        omega (arith, length-drop size r.rest),
      )
]

read_param-ReadsParam :
    (rest : List ℕ) (pos : ℕ)
    → 4 ≤ length rest
    → ReadsParam (length rest - 4) (read_param (at rest pos))
unfolding read_param read_u16
read_param-ReadsParam [] pos h = absurd (omega arith)
read_param-ReadsParam (a ∷ []) pos h = absurd (omega arith)
read_param-ReadsParam (a ∷ b ∷ []) pos h = absurd (omega arith)
read_param-ReadsParam (a ∷ b ∷ c ∷ []) pos h = absurd (omega arith)
read_param-ReadsParam (a ∷ b ∷ c ∷ d ∷ rest) pos h =
    subst (λ n. ReadsParam n (param_value (a * 2 ^ 8 + b) (c * 2 ^ 8 + d) (at rest (pos + 2 + 2))))
      (omega arith) (param_value-ReadsParam (a * 2 ^ 8 + b) (c * 2 ^ 8 + d) (at rest (pos + 2 + 2)))

-- A list of parameters comes out.
Finds : Option (List Param) → Type 0
Finds answer = (ps : List Param) × (answer ≡ some ps)

params_loop-Finds : (fuel : ℕ) (r : ByteReader) → remaining r < fuel → Finds (params_loop fuel r)
unfolding ReadsParam Finds params_loop
params_loop-Finds zero r h = absurd (omega arith)
params_loop-Finds (suc fuel) r h = elim (Bool-cases (ltb (remaining r) 4)) [
  | inl e ↦ ([], rw (e, params_loop) refl)
  | inr e ↦ elim (read_param-ReadsParam r.rest r.pos (ground (arith, e))) [
    | inl (r', read) ↦ ([], rw (e, read, params_loop) refl)
    | inr (p, r', read, less) ↦
        let (ps, later) =
          params_loop-Finds fuel r'
            (let big : 4 ≤ remaining r = ground (arith, e) in omega arith) in
        (p ∷ ps, rw (e, read, later, params_loop) refl)
  ]
]

-- `parseParams` answers on every chunk and offset: no read goes past the end, and its loop ends.
parse_params_answers :
    (chunk : Chunk) (offset : ℕ) → (ps : List Param) × (parse_params chunk offset ≡ some ps)
unfolding parse_params reader Finds
parse_params_answers chunk offset = elim (Bool-cases (ltb (length chunk.value) offset)) [
  | inl short ↦ ([], rw (short, parse_params) refl)
  | inr long ↦
      let enough : offset ≤ length chunk.value = ground (arith, long) in
      let skipped = skip_in_range offset (at chunk.value 0) enough in
      let (ps, e) =
        params_loop-Finds (length chunk.value + 1) (at (drop offset chunk.value) (0 + offset))
          (omega (arith, length-drop offset chunk.value)) in
      (ps, rw (long, skipped, e, parse_params) refl)
]
