-- ===== src/Sctp/Acks/Sack.antt =====
-- A whole acknowledgement: the cumulative number, then the gap blocks.
use srtc.Common.{
  ℕ, zero, suc, ◌+◌, ◌*◌, ◌^◌, ◌<◌, ◌≡◌, refl, ◌∙◌, List, [], ◌∷◌, none, Bool, false, ◌||◌, arith,
  length, ltb-false,
}
use srtc.Bytes.Reader.{read_u16, read_u32, skip, reader}
use srtc.Bytes.RoundTrip.{at}
use srtc.Sctp.Acks.{
  SentChunk, Outbox, is_covered, in_block, remove_gaps, apply_sack, read_blocks, read_sack,
  on_receive_sack,
}
use srtc.Sctp.Acks.Removal.{in_flight, IsIn, Kept, remove-Kept}

-- Some block covers the chunk.
abbrev in_blocks : ℕ → List (ℕ × ℕ) → SentChunk → Bool
in_blocks cum_tsn [] c = false
in_blocks cum_tsn (block ∷ blocks) c = in_block cum_tsn block c || in_blocks cum_tsn blocks c

abbrev pub acked : ℕ → List (ℕ × ℕ) → SentChunk → Bool
acked cum_tsn blocks c = is_covered cum_tsn c || in_blocks cum_tsn blocks c

or_false : (a b : Bool) → (a || b) ≡ false → (a ≡ false) × (b ≡ false)
or_false a b h = ground arith

false_or : (a b : Bool) → a ≡ false → b ≡ false → (a || b) ≡ false
false_or a b h k = ground arith

-- One test after another keeps what fails both.
both-Kept :
    (t u : SentChunk → Bool) (cs mid out : List SentChunk) (flight flight' before : ℕ)
    (any any' any'' : Bool)
    → Kept t cs (mid, flight, any) before
    → Kept u mid (out, flight', any') before
    → Kept (λ c. t c || u c) cs (out, flight', any'') before
both-Kept t u cs mid out flight flight' before any any' any'' first second = record {
  sizes = second.sizes;
  kept_only = λ c there.
      let (was, fails_u) = second.kept_only c there in
      let (at_first, fails_t) = first.kept_only c was in
      (at_first, false_or (t c) (u c) fails_t fails_u);
  kept_all = λ c there fails.
      let (fails_t, fails_u) = or_false (t c) (u c) fails in
      second.kept_all c (first.kept_all c there fails_t) fails_u;
}

remove_gaps-Kept :
    (cum_tsn : ℕ) (blocks : List (ℕ × ℕ)) (cs : List SentChunk) (flight before : ℕ)
    → flight ≡ before + in_flight cs
    → Kept (in_blocks cum_tsn blocks) cs (remove_gaps cum_tsn blocks cs flight) before
unfolding remove_gaps
remove_gaps-Kept cum_tsn [] cs flight before h = record {
  sizes = h;
  kept_only = λ c there. (there, refl);
  kept_all = λ c there fails. there;
}
remove_gaps-Kept cum_tsn (block ∷ blocks) cs flight before h =
    let first = remove-Kept (in_block cum_tsn block) cs flight before h in
    both-Kept (in_block cum_tsn block) (in_blocks cum_tsn blocks) cs _ _ _ _ before _ _ _ first
      (remove_gaps-Kept cum_tsn blocks _ _ before first.sizes)

-- Where the flight size is the sum of the sizes of the chunks that were sent, it is so again after an
-- acknowledgement, which keeps exactly the chunks that neither the cumulative number nor a block covers.
pub apply_sack-keeps :
    (s : Outbox) (cum_tsn rwnd : ℕ) (blocks : List (ℕ × ℕ))
    → s.flight_size ≡ in_flight s.sent_chunks
    → ((apply_sack s cum_tsn rwnd blocks).0.flight_size
        ≡ in_flight (apply_sack s cum_tsn rwnd blocks).0.sent_chunks)
      × ((c : SentChunk)
          → IsIn c (apply_sack s cum_tsn rwnd blocks).0.sent_chunks
          → IsIn c s.sent_chunks × (acked cum_tsn blocks c ≡ false))
      × ((c : SentChunk)
          → IsIn c s.sent_chunks
          → acked cum_tsn blocks c ≡ false
          → IsIn c (apply_sack s cum_tsn rwnd blocks).0.sent_chunks)
unfolding apply_sack
apply_sack-keeps s cum_tsn rwnd blocks h =
    let first = remove-Kept (is_covered cum_tsn) s.sent_chunks s.flight_size 0 (omega arith) in
    let both =
      both-Kept (is_covered cum_tsn) (in_blocks cum_tsn blocks) s.sent_chunks _ _ _ _ 0 _ _ false
        first (remove_gaps-Kept cum_tsn blocks _ _ 0 first.sizes) in
    (both.sizes ∙ omega arith, both.kept_only, both.kept_all)

-- Reading blocks that are not there aborts.
read_blocks_abort :
    (n : ℕ) (rest : List ℕ) (pos : ℕ) → length rest < 4 * n → read_blocks n (at rest pos) ≡ none
unfolding read_blocks read_u16
read_blocks_abort zero rest pos h = absurd (omega arith)
read_blocks_abort (suc n) [] pos h = refl
read_blocks_abort (suc n) (a ∷ []) pos h = refl
read_blocks_abort (suc n) (a ∷ b ∷ []) pos h = refl
read_blocks_abort (suc n) (a ∷ b ∷ c ∷ []) pos h = refl
read_blocks_abort (suc n) (a ∷ b ∷ c ∷ d ∷ rest) pos h =
    rw (read_blocks_abort n rest (pos + 2 + 2) (omega arith)) refl

-- A SACK chunk that announces more gap blocks than it has room for aborts the process.
pub on_receive_sack_abort :
    (s : Outbox) (a b c d e f g h hi lo k l : ℕ) (rest : List ℕ)
    → length rest < 4 * (hi * 2 ^ 8 + lo)
    → on_receive_sack s (a ∷ b ∷ c ∷ d ∷ e ∷ f ∷ g ∷ h ∷ hi ∷ lo ∷ k ∷ l ∷ rest) ≡ none
unfolding on_receive_sack read_sack read_u16 read_u32 reader skip
on_receive_sack_abort s a b c d e f g h hi lo k l rest long =
    rw
      (
        ltb-false (length (a ∷ b ∷ c ∷ d ∷ e ∷ f ∷ g ∷ h ∷ hi ∷ lo ∷ k ∷ l ∷ rest)) 12
            (omega arith),
        ltb-false (length (k ∷ l ∷ rest)) 2 (omega arith),
        read_blocks_abort (hi * 2 ^ 8 + lo) rest 12 long,
      )
      refl
