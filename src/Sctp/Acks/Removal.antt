-- ===== src/Sctp/Acks/Removal.antt =====
-- The erasing loops of `onReceiveSack` of src/sctp/sctp_session.cpp.
use srtc.Common.{
  ℕ, ◌+◌, ◌-◌, ◌≡◌, ap, sym, ◌∙◌, List, [], ◌∷◌, Bool, true, false, arith, Bool-cases, inl, inr,
  ◌⊎◌,
}
use srtc.Sctp.Acks.{SentChunk, remove}

abbrev pub in_flight : List SentChunk → ℕ
in_flight [] = 0
in_flight (c ∷ cs) = c.payload_size + in_flight cs

abbrev pub IsIn : SentChunk → List SentChunk → Type 0
IsIn c [] = ⊥
IsIn c (d ∷ ds) = (c ≡ d) ⊎ IsIn c ds

-- The chunks that fail the test are kept, and no other; the flight size goes with them.
pub record Kept (test : SentChunk → Bool) (chunks : List SentChunk)
    (out : List SentChunk × ℕ × Bool) (before : ℕ) : Type 0 where
  pub sizes : out.1 ≡ before + in_flight out.0
  pub kept_only : (c : SentChunk) → IsIn c out.0 → IsIn c chunks × (test c ≡ false)
  pub kept_all : (c : SentChunk) → IsIn c chunks → test c ≡ false → IsIn c out.0

true≢false : ¬ (true ≡ false)
true≢false h = ground (arith, h)

pub remove-Kept :
    (test : SentChunk → Bool) (cs : List SentChunk) (flight before : ℕ)
    → flight ≡ before + in_flight cs
    → Kept test cs (remove test cs flight) before
unfolding remove
remove-Kept test [] flight before h = record {
  sizes = h;
  kept_only = λ c there. absurd there;
  kept_all = λ c there fails. there;
}
remove-Kept test (d ∷ cs) flight before h = elim (Bool-cases (test d)) [
  | inl t ↦
      let rest = remove-Kept test cs (flight - d.payload_size) before (omega arith) in
      rw (t, remove)
        record {
          sizes = rest.sizes;
          kept_only = λ c there. let (was, fails) = rest.kept_only c there in (inr was, fails);
          kept_all = λ c there fails. elim there [
            | inl e ↦ absurd (true≢false (sym t ∙ ap test (sym e) ∙ fails))
            | inr more ↦ rest.kept_all c more fails
          ];
        }
  | inr f ↦
      let rest = remove-Kept test cs flight (before + d.payload_size) (omega arith) in
      rw (f, remove)
        record {
          sizes = rest.sizes ∙ omega arith;
          kept_only = λ c there. elim there [
            | inl e ↦ (inl e, ap test e ∙ f)
            | inr more ↦ let (was, fails) = rest.kept_only c more in (inr was, fails)
          ];
          kept_all = λ c there fails. elim there [
            | inl e ↦ inl e
            | inr more ↦ inr (rest.kept_all c more fails)
          ];
        }
]
