-- ===== src/Nack/RoundTrip.antt =====
-- `compressNackList` of src/util.cpp and the list that src/peer_candidate.cpp makes of its reports.
use srtc.Common.{
  ℕ, ◌+◌, ◌-◌, ◌%◌, ◌^◌, ◌≤◌, ◌<◌, ◌≡◌, refl, ap, sym, subst, ◌∙◌, List, [], ◌∷◌, ◌++◌, map,
  append_assoc, arith,
}
use srtc.Common.{leb, leb→le, if-elim}
use srtc.Nack.{set_flag, distance, compress_from, compress_nack_list, missing_seq_list, all_missing}
use srtc.Nack.Flags.{pow_pos, pow-le, below_next, set_flag-add, missing_seq_list-set_flag}

-- The numbers go up, from above one number to below another.
abbrev Ascending : ℕ → ℕ → List ℕ → Type 0
Ascending low high [] = Unit
Ascending low high (x ∷ rest) = (low < x) × (x < high) × Ascending x high rest

-- The low halves of numbers.
abbrev pub low_halves : List ℕ → List ℕ
low_halves = map (λ n. n % 2 ^ 16)

relaxed :
    (low high more : ℕ) (xs : List ℕ) → high ≤ more → Ascending low high xs → Ascending low more xs
relaxed low high more [] h a = tt
relaxed low high more (x ∷ rest) h (lo, hi, later) =
    (lo, omega arith, relaxed x high more rest h later)

no_mask : (x : ℕ) → missing_seq_list (x % 2 ^ 16, 0) ≡ x % 2 ^ 16 ∷ []
unfolding missing_seq_list
no_mask x = refl

compress_from_lem :
    (seq last blp : ℕ) (xs : List ℕ)
    → seq ≤ last
    → blp < 2 ^ (last - seq)
    → Ascending last (seq + 2 ^ 16) xs
    → all_missing (compress_from (seq % 2 ^ 16) blp (low_halves xs))
      ≡ missing_seq_list (seq % 2 ^ 16, blp) ++ low_halves xs
unfolding compress_from all_missing distance
compress_from_lem seq last blp [] ordered small a = refl
compress_from_lem seq last blp (x ∷ rest) ordered small (lo, hi, later) =
    let Result : List (ℕ × ℕ) → Type 0 = λ reports.
      all_missing reports
      ≡ missing_seq_list (seq % 2 ^ 16, blp) ++ (x % 2 ^ 16 ∷ low_halves rest) in
    if-elim Result (leb ((x % 2 ^ 16 + 2 ^ 16 - seq % 2 ^ 16) % 2 ^ 16) 16) _ _
      (λ near.
        let close : x - seq ≤ 16 = close_by seq last x ordered lo hi (leb→le _ _ near) in
        let s = x - seq - 1 in
        let shift = shift_lem seq last x ordered lo hi in
        let below : blp < 2 ^ s = omega (arith, pow-le (last - seq) s (omega arith)) in
        let added = set_flag-add blp s below (omega arith) in
        let grown : set_flag blp s < 2 ^ (x - seq) =
          subst (λ (n : ℕ). n < 2 ^ (x - seq)) (sym added)
            (subst (λ (n : ℕ). blp + 2 ^ s < 2 ^ n) (omega arith) (below_next blp s below)) in
        ap
          (λ (n : ℕ). all_missing (compress_from (seq % 2 ^ 16) (set_flag blp n) (low_halves rest)))
          shift
        ∙ compress_from_lem seq x (set_flag blp s) rest (omega arith) grown later
        ∙ ap (λ (l : List ℕ). l ++ low_halves rest)
            (missing_seq_list-set_flag (seq % 2 ^ 16) blp s below (omega arith))
        ∙ append_assoc (missing_seq_list (seq % 2 ^ 16, blp)) ((seq % 2 ^ 16 + s + 1) % 2 ^ 16 ∷ [])
            (low_halves rest)
        ∙ ap (λ (n : ℕ). missing_seq_list (seq % 2 ^ 16, blp) ++ (n ∷ low_halves rest))
            (number_lem seq last x ordered lo))
      (λ far.
        ap (λ (l : List ℕ). missing_seq_list (seq % 2 ^ 16, blp) ++ l)
          (compress_from_lem x x 0 rest (omega arith) (pow_pos (x - x))
              (relaxed x (seq + 2 ^ 16) (x + 2 ^ 16) rest (omega arith) later)
            ∙ ap (λ (l : List ℕ). l ++ low_halves rest) (no_mask x)))
  where
    shift_lem :
        (seq last x : ℕ)
        → seq ≤ last
        → last < x
        → x < seq + 2 ^ 16
        → (x % 2 ^ 16 + 2 ^ 16 - seq % 2 ^ 16 + 2 ^ 16 - 1) % 2 ^ 16 ≡ x - seq - 1
    shift_lem seq last x ordered lo hi = omega arith

    close_by :
        (seq last x : ℕ)
        → seq ≤ last
        → last < x
        → x < seq + 2 ^ 16
        → (x % 2 ^ 16 + 2 ^ 16 - seq % 2 ^ 16) % 2 ^ 16 ≤ 16
        → x - seq ≤ 16
    close_by seq last x ordered lo hi h = omega arith

    number_lem :
        (seq last x : ℕ)
        → seq ≤ last
        → last < x
        → (seq % 2 ^ 16 + (x - seq - 1) + 1) % 2 ^ 16 ≡ x % 2 ^ 16
    number_lem seq last x ordered lo = omega arith

-- The loss reports that `compressNackList` makes of sequence numbers that go up, over less than one cycle
-- of 65536, are taken apart into exactly these numbers, in their order.
pub all_missing-compress_nack_list :
    (seq : ℕ) (xs : List ℕ)
    → Ascending seq (seq + 2 ^ 16) xs
    → all_missing (compress_nack_list (low_halves (seq ∷ xs))) ≡ low_halves (seq ∷ xs)
unfolding compress_nack_list
all_missing-compress_nack_list seq xs a =
    compress_from_lem seq seq 0 xs (omega arith) (pow_pos (seq - seq)) a
    ∙ ap (λ (l : List ℕ). l ++ low_halves xs) (no_mask seq)
