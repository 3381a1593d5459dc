-- ===== src/Sctp/Acks.antt =====
-- The acknowledgements that `onReceiveSack` of src/sctp/sctp_session.cpp takes: which sent chunks are
-- done, and how many bytes are in flight after.
pub mod Removal
pub mod Sack
mod Tests
use srtc.Common.{
  ℕ, zero, suc, ◌+◌, ◌-◌, ◌*◌, ◌/◌, ◌%◌, ◌^◌, List, [], ◌∷◌, Option, none, some, Bool, true, false,
}
use srtc.Common.{◌||◌, ◌&&◌, ltb, leb, ◌==◌, if◌then◌else◌, length}
use srtc.Bytes.Reader.{Read, ◌>>=◌, ◌>>◌, pure, reader, read_u16, read_u32, skip}

pub record SentChunk : Type 0 where
  pub tsn : ℕ
  pub flags : ℕ
  pub payload_size : ℕ
  pub body : List ℕ

-- The part of the session that an acknowledgement changes.
pub record Outbox : Type 0 where
  pub sent_chunks : List SentChunk
  pub flight_size : ℕ
  pub peer_rwnd : ℕ

-- What becomes of the retransmission timer.
pub data Timer : Type 0 where
  stopped : Timer
  restarted : Timer
  left_alone : Timer

-- `static_cast<int32_t>(tsn - cumTsn) <= 0`
unfoldable pub is_covered : ℕ → SentChunk → Bool
is_covered cum_tsn c =
    let distance = (c.tsn + 2 ^ 32 - cum_tsn) % 2 ^ 32 in distance == 0 || leb (2 ^ 31) distance

unfoldable pub in_block : ℕ → ℕ × ℕ → SentChunk → Bool
in_block cum_tsn (gap_start, gap_end) c =
    let offset = (c.tsn + 2 ^ 32 - cum_tsn) % 2 ^ 16 in leb gap_start offset && leb offset gap_end

-- The loop that erases the chunks of a test; the subtraction stops at 0, as it does in the code.
unfoldable pub remove : (SentChunk → Bool) → List SentChunk → ℕ → List SentChunk × ℕ × Bool
remove test [] flight_size = ([], flight_size, false)
remove test (c ∷ cs) flight_size = elim (test c) [
  | true ↦
      let (kept, flight, any) = remove test cs (flight_size - c.payload_size) in
      (kept, flight, true)
  | false ↦ let (kept, flight, any) = remove test cs flight_size in (c ∷ kept, flight, any)
]

unfoldable pub remove_gaps : ℕ → List (ℕ × ℕ) → List SentChunk → ℕ → List SentChunk × ℕ × Bool
remove_gaps cum_tsn [] chunks flight_size = (chunks, flight_size, false)
remove_gaps cum_tsn (block ∷ blocks) chunks flight_size =
    let (kept, flight, any) = remove (in_block cum_tsn block) chunks flight_size in
    let (kept', flight', any') = remove_gaps cum_tsn blocks kept flight in
    (kept', flight', any || any')

unfoldable pub timer_after : List SentChunk → Bool → Timer
timer_after [] any = stopped
timer_after (c ∷ cs) any = if any then restarted else left_alone

-- The last component says whether pending messages are sent next.
unfoldable pub apply_sack : Outbox → ℕ → ℕ → List (ℕ × ℕ) → Outbox × Timer × Bool
apply_sack s cum_tsn rwnd blocks =
    let (kept, flight, any) = remove (is_covered cum_tsn) s.sent_chunks s.flight_size in
    let (kept', flight', any') = remove_gaps cum_tsn blocks kept flight in
    (
      record { sent_chunks = kept'; flight_size = flight'; peer_rwnd = rwnd },
      timer_after kept' (any || any'),
      any || any',
    )

unfoldable pub read_blocks : ℕ → Read (List (ℕ × ℕ))
read_blocks zero r = pure [] r
read_blocks (suc n) r =
    (do start ← read_u16; end_ ← read_u16; more ← read_blocks n; pure ((start, end_) ∷ more)) r

unfoldable pub read_sack : Read (ℕ × ℕ × List (ℕ × ℕ))
read_sack = do
  cum_tsn ← read_u32
  rwnd ← read_u32
  num_gap_blocks ← read_u16
  skip 2
  blocks ← read_blocks num_gap_blocks
  pure (cum_tsn, rwnd, blocks)

-- `none` where a read aborts the process.
unfoldable pub on_receive_sack : Outbox → List ℕ → Option (Outbox × Timer × Bool)
on_receive_sack s value =
    if ltb (length value) 12 then some (s, left_alone, false) else elim (read_sack (reader value)) [
      | none ↦ none
      | some ((cum_tsn, rwnd, blocks), r) ↦ some (apply_sack s cum_tsn rwnd blocks)
    ]
