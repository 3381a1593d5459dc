-- ===== src/Sctp/Receive/RoundTrip.antt =====
-- The fragments of src/sctp/sctp_session.cpp and the receive buffer, one after the other.
use srtc.Common.{
  ℕ, zero, suc, ◌+◌, ◌≤◌, ◌<◌, ◌≡◌, refl, ap, ap₂, ◌∙◌, List, [], ◌∷◌, ◌++◌, Bool, true, false,
}
use srtc.Common.{
  arith, length, take, drop, min, ==_false, leb-false, leb-true, take_all, drop_all, length-drop,
  take-append-drop, if◌then◌else◌, append_assoc,
}
use native.Mathlib.Decide.{dec_le}
use srtc.Sctp.Receive.{PendingMessage, ReceiveBuffer, data_flag_b, accumulate, message_of}
use srtc.Sctp.Receive.Fragments.{fragments_loop, fragments, receive_all}
use srtc.Sctp.Receive.Waits.{Waits, receive_more, receive_last}

-- One round of the sender's loop: the last fragment, and one that more follow.
abbrev first_bit : Bool → ℕ
first_bit is_first = if is_first then data_flag_b else 0

flags_sum : (is_first : Bool) (last : ℕ) → 0 + first_bit is_first + last ≡ first_bit is_first + last
flags_sum is_first last = omega arith

loop_empty : (fuel : ℕ) (is_first : Bool) → fragments_loop fuel false is_first [] ≡ []
unfolding fragments_loop
loop_empty zero is_first = refl
loop_empty (suc fuel) is_first = refl

loop_last :
    (fuel : ℕ) (is_first : Bool) (rest : List ℕ)
    → 0 < length rest
    → length rest ≤ 1100
    → fragments_loop (suc fuel) false is_first rest
      ≡ record { flags = first_bit is_first + 1; bytes = rest } ∷ []
unfolding fragments_loop
loop_last fuel is_first rest some_left short =
    let size : min (length rest) 1100 ≡ length rest = omega arith in
    rw (==_false (length rest) 0 (λ e. absurd (omega arith)), fragments_loop)
      (rw
        (
          size,
          leb-true (length rest) 1100 short,
          take_all rest (length rest) (omega arith),
          drop_all rest (length rest) (omega arith),
          loop_empty fuel false,
        )
        (ap (λ n. record { flags = n; bytes = rest } ∷ []) (flags_sum is_first 1)))

loop_more :
    (fuel : ℕ) (is_first : Bool) (rest : List ℕ)
    → 1100 < length rest
    → fragments_loop (suc fuel) false is_first rest
      ≡ record { flags = first_bit is_first + 0; bytes = take 1100 rest }
        ∷ fragments_loop fuel false false (drop 1100 rest)
unfolding fragments_loop
loop_more fuel is_first rest long =
    let size : min (length rest) 1100 ≡ 1100 = omega arith in
    rw (==_false (length rest) 0 (λ e. absurd (omega arith)), fragments_loop)
      (rw (size, leb-false (length rest) 1100 long)
        (ap
          (λ n.
            record { flags = n; bytes = take 1100 rest }
            ∷ fragments_loop fuel false false (drop 1100 rest))
          (flags_sum is_first 0)))

-- The flags of the two kinds.
last_done :
    (is_first : Bool) (p : PendingMessage) (ppid : ℕ) (bytes : List ℕ)
    → (accumulate p (first_bit is_first + 1) ppid bytes).complete ≡ true
unfolding accumulate
last_done true p ppid bytes = refl
last_done false p ppid bytes = refl

more_open :
    (is_first : Bool) (p : PendingMessage) (ppid : ℕ) (bytes : List ℕ)
    → p.complete ≡ false
    → (accumulate p (first_bit is_first + 0) ppid bytes).complete ≡ false
unfolding accumulate
more_open true p ppid bytes h = h
more_open false p ppid bytes h = h

-- What the message is so far.
abbrev so_far : Bool → PendingMessage → List ℕ
so_far is_first p = if is_first then [] else p.payload

abbrev ppid_of : Bool → PendingMessage → ℕ → ℕ
ppid_of is_first p ppid = if is_first then ppid else p.ppid

accumulated :
    (is_first : Bool) (last : ℕ) (p : PendingMessage) (ppid : ℕ) (bytes : List ℕ)
    → last < 2
    → message_of (accumulate p (first_bit is_first + last) ppid bytes)
      ≡ record { ppid = ppid_of is_first p ppid; bytes = so_far is_first p ++ bytes }
unfolding accumulate
accumulated true zero p ppid bytes h = refl
accumulated true (suc zero) p ppid bytes h = refl
accumulated false zero p ppid bytes h = refl
accumulated false (suc zero) p ppid bytes h = refl
accumulated is_first (suc (suc last)) p ppid bytes h = absurd (omega arith)

-- A fragment that more follow, and then the rest.
next_round :
    (fuel ssn ppid : ℕ) (b : ReceiveBuffer) (p : PendingMessage) (is_first : Bool)
    (part others rest : List ℕ)
    → part ++ others ≡ rest
    → Waits b ssn p
    → p.complete ≡ false
    → ppid_of is_first p ppid ≡ ppid
    → ((b' : ReceiveBuffer) (p' : PendingMessage)
        → Waits b' ssn p'
        → p'.complete ≡ false
        → p'.ppid ≡ ppid
        → (receive_all b' ssn false ppid (fragments_loop fuel false false others)).0
          ≡ record { ppid = ppid; bytes = p'.payload ++ others } ∷ [])
    → (receive_all b ssn false ppid (
        record { flags = first_bit is_first + 0; bytes = part }
        ∷ fragments_loop fuel false false others)).0
      ≡ record { ppid = ppid; bytes = so_far is_first p ++ rest } ∷ []
unfolding receive_all
next_round fuel ssn ppid b p is_first part others rest whole waits open_ same more =
    let (nothing, waits') =
      receive_more ssn ppid b p waits (first_bit is_first + 0) part
        (more_open is_first p ppid part open_) in
    let now = accumulated is_first 0 p ppid part (omega arith) in
    ap₂ ◌++◌ nothing (
      more _ (accumulate p (first_bit is_first + 0) ppid part) waits'
        (more_open is_first p ppid part open_) (ap (λ m. m.ppid) now ∙ same))
    ∙ ap (λ xs. record { ppid = ppid; bytes = xs } ∷ [])
        (ap (λ m. m.bytes ++ others) now
          ∙ append_assoc (so_far is_first p) part others
          ∙ ap (◌++◌ (so_far is_first p)) whole)

receive_all-loop :
    (fuel ssn ppid : ℕ) (b : ReceiveBuffer) (p : PendingMessage) (is_first : Bool) (rest : List ℕ)
    → Waits b ssn p
    → p.complete ≡ false
    → ppid_of is_first p ppid ≡ ppid
    → 0 < length rest
    → length rest ≤ fuel
    → (receive_all b ssn false ppid (fragments_loop fuel false is_first rest)).0
      ≡ record { ppid = ppid; bytes = so_far is_first p ++ rest } ∷ []
unfolding receive_all
receive_all-loop zero ssn ppid b p is_first rest waits open_ same some_left enough =
    absurd (omega arith)
receive_all-loop (suc fuel) ssn ppid b p is_first rest waits open_ same some_left enough =
    elim (dec_le (length rest) 1100) [
      | yes short ↦ rw (loop_last fuel is_first rest some_left short) (
          ap (λ out. out ++ [])
            (receive_last ssn ppid b p waits (first_bit is_first + 1) rest
              (last_done is_first p ppid rest))
          ∙ ap (λ m. m ∷ [])
              (accumulated is_first 1 p ppid rest (omega arith)
                ∙ ap (λ n. record { ppid = n; bytes = so_far is_first p ++ rest }) same))
      | no long ↦ rw (loop_more fuel is_first rest (omega arith)) (
          next_round fuel ssn ppid b p is_first (take 1100 rest) (drop 1100 rest) rest
            (take-append-drop 1100 rest) waits open_ same
            (λ b' p' waits' open' same'.
              receive_all-loop fuel ssn ppid b' p' false (drop 1100 rest) waits' open' same'
                (omega (arith, length-drop 1100 rest)) (omega (arith, length-drop 1100 rest))))
    ]

-- What the sender of an ordered channel makes of a payload, the receive buffer that waits for its number
-- delivers as that one message, if the fragments come in order and nothing of the next message is there.
pub receive_all-fragments :
    (ssn ppid : ℕ) (b : ReceiveBuffer) (payload : List ℕ)
    → Waits b ssn (record { ppid = 0; payload = []; complete = false })
    → (receive_all b ssn false ppid (fragments false payload)).0
      ≡ record { ppid = ppid; bytes = payload } ∷ []
unfolding fragments receive_all
receive_all-fragments ssn ppid b payload waits = elim (dec_le (length payload) 1100) [
  | yes short ↦ rw (leb-true (length payload) 1100 short) (
      ap (λ out. out ++ [])
        (receive_last ssn ppid b _ waits 3 payload (last_done true _ ppid payload)
          ∙ ap (λ m. m ∷ []) (accumulated true 1 _ ppid payload (omega arith))))
  | no long ↦ rw (leb-false (length payload) 1100 (omega arith)) (
      receive_all-loop (length payload) ssn ppid b _ true payload waits refl refl (omega arith)
        (omega arith))
]
