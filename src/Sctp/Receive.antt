-- ===== src/Sctp/Receive.antt =====
-- src/sctp/data_channel_receive_buffer.cpp: messages of a data channel, put together from fragments and
-- delivered in the order of their stream sequence numbers.
pub mod Order
pub mod Fragments
pub mod Waits
pub mod RoundTrip
mod Tests
use srtc.Common.{
  ℕ, zero, suc, ◌+◌, ◌-◌, ◌/◌, ◌%◌, ◌^◌, List, [], ◌∷◌, ◌++◌, Option, none, some, Bool, true, false,
}
use srtc.Common.{◌||◌, not, leb, ◌==◌, if◌then◌else◌}

-- The flags of a DATA chunk.
abbrev pub data_flag_e : ℕ
data_flag_e = 1

abbrev pub data_flag_b : ℕ
data_flag_b = 2

abbrev has_b : ℕ → Bool
has_b flags = flags / 2 % 2 == 1

abbrev has_e : ℕ → Bool
has_e flags = flags % 2 == 1

pub record Message : Type 0 where
  pub ppid : ℕ
  pub bytes : List ℕ

pub record PendingMessage : Type 0 where
  pub ppid : ℕ
  pub payload : List ℕ
  pub complete : Bool

-- The map is a function of the stream sequence number.
pub record ReceiveBuffer : Type 0 where
  pub next_ssn : ℕ
  pub pending : ℕ → Option PendingMessage

unfoldable pub empty_buffer : ReceiveBuffer
empty_buffer = record { next_ssn = 0; pending = λ ssn. none }

unfoldable pub put :
    (ℕ → Option PendingMessage) → ℕ → Option PendingMessage → ℕ → Option PendingMessage
put pending key value ssn = if ssn == key then value else pending ssn

unfoldable consume_ssn : ReceiveBuffer → ℕ → ReceiveBuffer
consume_ssn b ssn =
    if ssn == b.next_ssn then record b { next_ssn = (b.next_ssn + 1) % 2 ^ 16 } else b

-- `static_cast<int16_t>(ssn - mNextSsn) < 0`
unfoldable pub is_delivered : ℕ → ℕ → Bool
is_delivered ssn next_ssn = leb (2 ^ 15) ((ssn + 2 ^ 16 - next_ssn) % 2 ^ 16)

-- The entry for a number, new if there is none.
abbrev pub entry : Option PendingMessage → PendingMessage
entry none = record { ppid = 0; payload = []; complete = false }
entry (some p) = p

unfoldable pub accumulate : PendingMessage → ℕ → ℕ → List ℕ → PendingMessage
accumulate p flags ppid bytes = record {
  ppid = if has_b flags then ppid else p.ppid;
  payload = (if has_b flags then [] else p.payload) ++ bytes;
  complete = has_e flags || p.complete;
}

abbrev pub message_of : PendingMessage → Message
message_of p = record { ppid = p.ppid; bytes = p.payload }

-- The loop that delivers consecutive complete messages. Each round erases one of 65536 entries.
unfoldable pub drain : ℕ → ReceiveBuffer → List Message × ReceiveBuffer
drain zero b = ([], b)
drain (suc fuel) b = elim (b.pending b.next_ssn) [
  | none ↦ ([], b)
  | some p ↦ elim p.complete [
    | false ↦ ([], b)
    | true ↦
        let (out, b') = drain fuel (record {
          next_ssn = (b.next_ssn + 1) % 2 ^ 16;
          pending = put b.pending b.next_ssn none;
        }) in
        (message_of p ∷ out, b')
  ]
]

unfoldable pub deliver_unordered : ReceiveBuffer → ℕ → PendingMessage → List Message × ReceiveBuffer
deliver_unordered b ssn p =
    if p.complete
    then (message_of p ∷ [], record b { pending = put b.pending ssn none })
    else ([], record b { pending = put b.pending ssn (some p) })

unfoldable pub receive : ReceiveBuffer → ℕ → ℕ → Bool → ℕ → List ℕ → List Message × ReceiveBuffer
receive b ssn flags unordered ppid bytes =
    let p = accumulate (entry (b.pending ssn)) flags ppid bytes in
    if unordered
    then deliver_unordered b ssn p
    else if is_delivered ssn b.next_ssn
    then ([], b)
    else drain (2 ^ 16) (record b { pending = put b.pending ssn (some p) })
