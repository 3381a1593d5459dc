-- ===== src/Sctp/Acks/Tests.antt =====
-- Acknowledgements at concrete inputs: chunks sent across the end of the TSN range.
use srtc.Common.{ℕ, ◌≡◌, refl, [], ◌∷◌, none, true, false, arith}
use srtc.Sctp.Acks.{
  SentChunk, Outbox, restarted, is_covered, in_block, remove, remove_gaps, timer_after, apply_sack,
  on_receive_sack,
}
use srtc.Sctp.Acks.Removal.{in_flight, IsIn}
use srtc.Sctp.Acks.Sack.{acked, apply_sack-keeps, on_receive_sack_abort}

abbrev chunk : ℕ → ℕ → SentChunk
chunk tsn size = record { tsn = tsn; flags = 3; payload_size = size; body = [] }

abbrev outbox : Outbox
outbox = record {
  sent_chunks = chunk 0xffffffff 10 ∷ chunk 0 20 ∷ chunk 1 30 ∷ chunk 2 40 ∷ [];
  flight_size = 100;
  peer_rwnd = 1000;
}

acked_and_gap :
    apply_sack outbox 0 900 ((2, 2) ∷ [])
    ≡ (record { sent_chunks = chunk 1 30 ∷ []; flight_size = 30; peer_rwnd = 900 }, restarted, true)
unfolding apply_sack remove remove_gaps is_covered in_block timer_after
acked_and_gap = refl

apply_sack-keeps_example :
    ((apply_sack outbox 0 900 ((2, 2) ∷ [])).0.flight_size
      ≡ in_flight (apply_sack outbox 0 900 ((2, 2) ∷ [])).0.sent_chunks)
    × ((c : SentChunk)
        → IsIn c (apply_sack outbox 0 900 ((2, 2) ∷ [])).0.sent_chunks
        → IsIn c outbox.sent_chunks × (acked 0 ((2, 2) ∷ []) c ≡ false))
    × ((c : SentChunk)
        → IsIn c outbox.sent_chunks
        → acked 0 ((2, 2) ∷ []) c ≡ false
        → IsIn c (apply_sack outbox 0 900 ((2, 2) ∷ [])).0.sent_chunks)
apply_sack-keeps_example = apply_sack-keeps outbox 0 900 ((2, 2) ∷ []) refl

on_receive_sack_abort_example :
    on_receive_sack outbox (0 ∷ 0 ∷ 0 ∷ 0 ∷ 0 ∷ 0 ∷ 0 ∷ 9 ∷ 0 ∷ 1 ∷ 0 ∷ 0 ∷ []) ≡ none
on_receive_sack_abort_example =
    on_receive_sack_abort outbox 0 0 0 0 0 0 0 9 0 1 0 0 [] (omega arith)
