-- ===== src/Nack/Flags.antt =====
-- The mask of a loss report: which bits are set after a bit above the others is added.
use srtc.Common.{
  ℕ, zero, suc, ◌+◌, ◌*◌, ◌/◌, ◌%◌, ◌^◌, ◌≤◌, ◌<◌, ◌≡◌, refl, ap, sym, subst, ◌∙◌, List, [], ◌∷◌,
  ◌++◌, arith,
}
use srtc.Common.{Bool, true, false, ◌==◌, ==_false, leb-false, if◌then◌else◌}
use native.Mathlib.Decide.{ℕ_discrete}
use native.Mathlib.Nat.{pow-suc, add-mul-div_left, div-eq_of_lt}
use srtc.Nack.{set_flag, missing_from, missing_seq_list}

pub pow_pos : (n : ℕ) → 0 < 2 ^ n
pow_pos zero = omega arith
pow_pos (suc n) = omega (arith, pow-suc 2 n, pow_pos n)

twice : (p m : ℕ) → p * m * 2 ≡ p * 2 * m
twice p m = grind arith

pow_half : (j s : ℕ) → j < s → (k : ℕ) × (2 ^ s ≡ 2 ^ j * (2 * k))
pow_half zero (suc s) h = (2 ^ s, omega (arith, pow-suc 2 s))
pow_half (suc j) (suc s) h =
    let (k, e) = pow_half j s (omega arith) in
    (
      k,
      pow-suc 2 s
          ∙ ap (λ (n : ℕ). n * 2) e
          ∙ twice (2 ^ j) (2 * k)
          ∙ ap (λ (n : ℕ). n * (2 * k)) (sym (pow-suc 2 j)),
    )
pow_half j zero h = absurd (omega arith)

pub pow-le : (j s : ℕ) → j ≤ s → 2 ^ j ≤ 2 ^ s
pow-le zero s h = pow_pos s
pow-le (suc j) (suc s) h = omega (arith, pow-suc 2 s, pow-suc 2 j, pow-le j s (omega arith))
pow-le (suc j) zero h = absurd (omega arith)

flag_below : (blp s j : ℕ) → j < s → (blp + 2 ^ s) / 2 ^ j % 2 ≡ blp / 2 ^ j % 2
flag_below blp s j h =
    let (k, e) = pow_half j s h in
    let divided : (blp + 2 ^ j * (2 * k)) / 2 ^ j ≡ blp / 2 ^ j + 2 * k =
      add-mul-div_left blp (2 * k) (pow_pos j) in
    rw (e, divided) (omega arith)

flag_at : (blp s : ℕ) → blp < 2 ^ s → (blp + 2 ^ s) / 2 ^ s % 2 ≡ 1
flag_at blp s h =
    let divided : (blp + 2 ^ s * 1) / 2 ^ s ≡ blp / 2 ^ s + 1 =
      add-mul-div_left blp 1 (pow_pos s) in
    let none_below : blp / 2 ^ s ≡ 0 = div-eq_of_lt h in
    ap (λ (n : ℕ). n % 2) (ap (λ (n : ℕ). (blp + n) / 2 ^ s) (omega arith) ∙ divided)
    ∙ ap (λ (n : ℕ). (n + 1) % 2) none_below

-- No bit from `index` on is set in a smaller number.
missing_from-empty :
    (pid blp count index : ℕ) → blp < 2 ^ index → missing_from pid blp count index ≡ []
unfolding missing_from
missing_from-empty pid blp zero index h = refl
missing_from-empty pid blp (suc count) index h =
    let none_here : blp / 2 ^ index ≡ 0 = div-eq_of_lt h in
    rw none_here (
      missing_from-empty pid blp count (index + 1)
        (omega (arith, pow-le index (index + 1) (omega arith))))

pub below_next : (blp s : ℕ) → blp < 2 ^ s → blp + 2 ^ s < 2 ^ (s + 1)
below_next blp s h = subst (λ (n : ℕ). blp + 2 ^ s < 2 ^ n) (omega arith) (doubled (pow-suc 2 s))
  where
    doubled : 2 ^ suc s ≡ 2 ^ s * 2 → blp + 2 ^ s < 2 ^ suc s
    doubled e = omega arith

if_append :
    (c : Bool) (x : ℕ) (l m : List ℕ)
    → (if c then x ∷ (l ++ m) else l ++ m) ≡ (if c then x ∷ l else l) ++ m
if_append true x l m = refl
if_append false x l m = refl

missing_from-add :
    (pid blp s count index : ℕ)
    → blp < 2 ^ s
    → index ≤ s
    → s < index + count
    → missing_from pid (blp + 2 ^ s) count index
      ≡ missing_from pid blp count index ++ ((pid + s + 1) % 2 ^ 16 ∷ [])
unfolding missing_from
missing_from-add pid blp s zero index h lo hi = absurd (omega arith)
missing_from-add pid blp s (suc count) index h lo hi = elim (ℕ_discrete index s) [
  | yes e ↦
      let set : (blp + 2 ^ s) / 2 ^ index % 2 ≡ 1 =
        ap (λ (i : ℕ). (blp + 2 ^ s) / 2 ^ i % 2) e ∙ flag_at blp s h in
      let unset : blp / 2 ^ index ≡ 0 = ap (λ (i : ℕ). blp / 2 ^ i) e ∙ div-eq_of_lt h in
      let small : blp < 2 ^ (index + 1) = omega (arith, pow-le s (index + 1) (omega arith)) in
      let small' : blp + 2 ^ s < 2 ^ (index + 1) =
        subst (λ (i : ℕ). blp + 2 ^ s < 2 ^ (i + 1)) (sym e) (below_next blp s h) in
      rw (set, unset)
        (ap (λ (l : List ℕ). (pid + index + 1) % 2 ^ 16 ∷ l)
            (missing_from-empty pid (blp + 2 ^ s) count (index + 1) small')
          ∙ ap (λ (n : ℕ). (pid + n + 1) % 2 ^ 16 ∷ []) e
          ∙ ap (λ (l : List ℕ). l ++ ((pid + s + 1) % 2 ^ 16 ∷ []))
              (sym (missing_from-empty pid blp count (index + 1) small)))
  | no d ↦
      let later = missing_from-add pid blp s count (index + 1) h (omega arith) (omega arith) in
      rw (flag_below blp s index (omega arith), later)
        (if_append (blp / 2 ^ index % 2 == 1) ((pid + index + 1) % 2 ^ 16)
          (missing_from pid blp count (index + 1)) ((pid + s + 1) % 2 ^ 16 ∷ []))
]

pub set_flag-add : (blp s : ℕ) → blp < 2 ^ s → s < 16 → set_flag blp s ≡ blp + 2 ^ s
unfolding set_flag
set_flag-add blp s h k =
    let unset : blp / 2 ^ s ≡ 0 = div-eq_of_lt h in rw (leb-false 16 s k, unset) refl

-- An empty mask needs no test of its own.
missing_seq_list-from :
    (pid blp : ℕ) → missing_seq_list (pid, blp) ≡ pid ∷ missing_from pid blp 16 0
unfolding missing_seq_list
missing_seq_list-from pid zero =
    ap (λ (l : List ℕ). pid ∷ l) (sym (missing_from-empty pid 0 16 0 (omega arith)))
missing_seq_list-from pid (suc n) = rw (==_false (suc n) 0 (λ e. omega arith)) refl

-- A bit above the others adds the last number.
pub missing_seq_list-set_flag :
    (pid blp s : ℕ)
    → blp < 2 ^ s
    → s < 16
    → missing_seq_list (pid, set_flag blp s)
      ≡ missing_seq_list (pid, blp) ++ ((pid + s + 1) % 2 ^ 16 ∷ [])
missing_seq_list-set_flag pid blp s h k =
    ap (λ (m : ℕ). missing_seq_list (pid, m)) (set_flag-add blp s h k)
    ∙ missing_seq_list-from pid (blp + 2 ^ s)
    ∙ ap (λ (l : List ℕ). pid ∷ l) (missing_from-add pid blp s 16 0 h (omega arith) (omega arith))
    ∙ ap (λ (l : List ℕ). l ++ ((pid + s + 1) % 2 ^ 16 ∷ [])) (sym (missing_seq_list-from pid blp))
