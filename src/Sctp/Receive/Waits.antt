-- ===== src/Sctp/Receive/Waits.antt =====
-- How the receive buffer takes the fragments of the message that it waits for.
use srtc.Common.{
  ℕ, suc, ◌+◌, ◌%◌, ◌^◌, ◌≡◌, ◌≢◌, refl, ap, ◌∙◌, List, [], ◌∷◌, Option, none, some, true, false,
}
use srtc.Common.{arith, ==_false, ==_true, leb-false}
use srtc.Sctp.Receive.{
  Message, PendingMessage, ReceiveBuffer, data_flag_e, put, is_delivered, entry, accumulate,
  message_of, drain, receive,
}

-- The buffer waits for this number, has so much of its message, and nothing of the next one.
pub record Waits (b : ReceiveBuffer) (ssn : ℕ) (p : PendingMessage) : Type 0 where
  pub next : b.next_ssn ≡ ssn
  pub here : entry (b.pending ssn) ≡ p
  pub after : b.pending ((ssn + 1) % 2 ^ 16) ≡ none

not_delivered : (ssn : ℕ) → is_delivered ssn ssn ≡ false
unfolding is_delivered
not_delivered ssn = leb-false _ _ (omega arith)

apart : (ssn : ℕ) → (ssn + 1) % 2 ^ 16 ≢ ssn
apart ssn h = absurd (omega arith)

module _ (f : ℕ → Option PendingMessage) (k : ℕ) (v : Option PendingMessage) where
  put_same : put f k v k ≡ v
  unfolding put
  put_same = rw (==_true k k refl) refl

  put_other : (j : ℕ) → j ≢ k → put f k v j ≡ f j
  unfolding put
  put_other j d = rw (==_false j k d) refl

-- An ordered channel drains what it has stored.
receive-drain :
    (b : ReceiveBuffer) (ssn flags ppid : ℕ) (bytes : List ℕ) (p : PendingMessage)
    → Waits b ssn p
    → receive b ssn flags false ppid bytes
      ≡ drain
          (2 ^ 16)
          (record b { pending = put b.pending ssn (some (accumulate p flags ppid bytes)) })
unfolding receive
receive-drain b ssn flags ppid bytes p waits =
    rw (ap (is_delivered ssn) (waits.next) ∙ not_delivered ssn) (
      ap
        (λ p.
          drain (2 ^ 16)
            (record b { pending = put b.pending ssn (some (accumulate p flags ppid bytes)) }))
        (waits.here))

drain_incomplete :
    (fuel : ℕ) (b : ReceiveBuffer) (p : PendingMessage)
    → b.pending b.next_ssn ≡ some p
    → p.complete ≡ false
    → drain (suc fuel) b ≡ ([], b)
unfolding drain
drain_incomplete fuel b p h open_ = rw (h, open_, drain) refl

drain-none :
    (fuel : ℕ) (b : ReceiveBuffer) → b.pending b.next_ssn ≡ none → drain (suc fuel) b ≡ ([], b)
unfolding drain
drain-none fuel b h = rw (h, drain) refl

erased : ReceiveBuffer → ReceiveBuffer
erased b = record { next_ssn = (b.next_ssn + 1) % 2 ^ 16; pending = put b.pending b.next_ssn none }

drain_complete :
    (fuel : ℕ) (b : ReceiveBuffer) (p : PendingMessage)
    → b.pending b.next_ssn ≡ some p
    → p.complete ≡ true
    → (drain (suc fuel) b).0 ≡ message_of p ∷ (drain fuel (erased b)).0
unfolding drain erased
drain_complete fuel b p h done = rw (h, done, drain) refl

drain_one :
    (fuel : ℕ) (b : ReceiveBuffer) (p : PendingMessage)
    → b.pending b.next_ssn ≡ some p
    → p.complete ≡ true
    → b.pending ((b.next_ssn + 1) % 2 ^ 16) ≡ none
    → (drain (suc (suc fuel)) b).0 ≡ message_of p ∷ []
unfolding erased
drain_one fuel b p h done after =
    drain_complete (suc fuel) b p h done
    ∙ ap (λ (out : List Message × ReceiveBuffer). message_of p ∷ out.0)
        (drain-none fuel (erased b) (
          put_other b.pending b.next_ssn none ((b.next_ssn + 1) % 2 ^ 16) (apart b.next_ssn)
          ∙ after))

module _ (ssn ppid : ℕ) (b : ReceiveBuffer) (p : PendingMessage) (waits : Waits b ssn p) (flags : ℕ)
    (bytes : List ℕ) where
  stored : ReceiveBuffer
  stored = record b { pending = put b.pending ssn (some (accumulate p flags ppid bytes)) }

  stored_here : stored.pending stored.next_ssn ≡ some (accumulate p flags ppid bytes)
  unfolding stored
  stored_here =
      ap stored.pending (waits.next) ∙ put_same b.pending ssn (some (accumulate p flags ppid bytes))

  stored_next : stored.next_ssn ≡ ssn
  unfolding stored
  stored_next = waits.next

  stored_after : stored.pending ((ssn + 1) % 2 ^ 16) ≡ none
  unfolding stored
  stored_after =
      put_other b.pending ssn (some (accumulate p flags ppid bytes)) ((ssn + 1) % 2 ^ 16)
        (apart ssn)
      ∙ waits.after

  -- A fragment that is not the last one is kept.
  pub receive_more :
      (accumulate p flags ppid bytes).complete ≡ false
      → ((receive b ssn flags false ppid bytes).0 ≡ [])
        × Waits (receive b ssn flags false ppid bytes).1 ssn (accumulate p flags ppid bytes)
  unfolding stored
  receive_more open_ =
      rw
        (receive-drain b ssn flags ppid bytes p waits
          ∙ drain_incomplete 65535 stored _ stored_here open_)
        (
          refl,
          record {
            next = stored_next;
            here = ap entry (put_same b.pending ssn (some (accumulate p flags ppid bytes)));
            after = stored_after;
          },
        )

  -- The last one delivers the message.
  pub receive_last :
      (accumulate p flags ppid bytes).complete ≡ true
      → (receive b ssn flags false ppid bytes).0 ≡ message_of (accumulate p flags ppid bytes) ∷ []
  unfolding stored
  receive_last done =
      ap (λ (out : List Message × ReceiveBuffer). out.0)
        (receive-drain b ssn flags ppid bytes p waits)
      ∙ drain_one 65534 stored (accumulate p flags ppid bytes) stored_here done
          (ap (λ n. stored.pending ((n + 1) % 2 ^ 16)) stored_next ∙ stored_after)

-- A buffer that waits for a number and has nothing of its message yet gives a last fragment that comes
-- before the others out as a message of its own, without its payload protocol.
pub last_fragment_first :
    (b : ReceiveBuffer) (ssn ppid : ℕ) (bytes : List ℕ)
    → Waits b ssn (record { ppid = 0; payload = []; complete = false })
    → (receive b ssn data_flag_e false ppid bytes).0 ≡ record { ppid = 0; bytes = bytes } ∷ []
unfolding accumulate
last_fragment_first b ssn ppid bytes waits = receive_last ssn ppid b _ waits data_flag_e bytes refl
