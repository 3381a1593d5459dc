-- ===== src/Sctp/Receive/Order.antt =====
-- Ordered delivery by src/sctp/data_channel_receive_buffer.cpp, of whole messages in any order.
use srtc.Common.{
  ℕ, zero, suc, ◌+◌, ◌-◌, ◌%◌, ◌^◌, ◌≤◌, ◌<◌, ◌≡◌, ◌≢◌, refl, ap, sym, ◌∙◌, List, [], ◌∷◌, Option,
  none, some, Bool, true, false,
}
use srtc.Common.{arith, ◌||◌, ◌==◌, ==_false, ==_true, leb-false, Bool-cases, inl, inr}
use native.Mathlib.Decide.{ℕ_discrete}
use srtc.Sctp.Receive.{
  Message, PendingMessage, ReceiveBuffer, put, is_delivered, accumulate, drain, receive,
}

-- Messages are numbered without end; their stream sequence numbers are those numbers modulo 65536.
module _ (messages : ℕ → Message) where
  abbrev pub whole : ℕ → PendingMessage
  whole i = record { ppid = (messages i).ppid; payload = (messages i).bytes; complete = true }

  abbrev expected : Bool → ℕ → Option PendingMessage
  expected true i = some (whole i)
  expected false i = none

  -- All messages before `base` were delivered; of those from there on, the ones in `has` are held.
  pub record Holds (b : ReceiveBuffer) (base : ℕ) (has : ℕ → Bool) : Type 0 where
    pub next : b.next_ssn ≡ base % 2 ^ 16
    pub window : (i : ℕ) → has i ≡ true → i < base + 2 ^ 15
    pub held : (i : ℕ) → base ≤ i → i < base + 2 ^ 16 → b.pending (i % 2 ^ 16) ≡ expected (has i) i

  abbrev consecutive : ℕ → ℕ → List Message
  consecutive zero base = []
  consecutive (suc count) base = messages base ∷ consecutive count (base + 1)

  -- The messages up to `last` came out, and `last` is missing.
  pub record Delivered (base : ℕ) (has : ℕ → Bool) (out : List Message × ReceiveBuffer)
      : Type 0 where
    pub last : ℕ
    pub ahead : base ≤ last
    pub in_order : out.0 ≡ consecutive (last - base) base
    pub holds : Holds out.1 last has
    pub missing : has last ≡ false

  put_same : (f : ℕ → Option PendingMessage) (k : ℕ) (v : Option PendingMessage) → put f k v k ≡ v
  unfolding put
  put_same f k v = rw (==_true k k refl) refl

  put_other :
      (f : ℕ → Option PendingMessage) (k : ℕ) (v : Option PendingMessage) (j : ℕ)
      → j ≢ k
      → put f k v j ≡ f j
  unfolding put
  put_other f k v j d = rw (==_false j k d) refl

  absent :
      (has : ℕ → Bool) (base i : ℕ)
      → base + 2 ^ 15 ≤ i
      → (has i ≡ true → i < base + 2 ^ 15)
      → has i ≡ false
  absent has base i far window = elim (Bool-cases (has i)) [
    | inl h ↦ absurd (let near = window h in omega arith)
    | inr h ↦ h
  ]

  -- Erasing the entry of the message at the base moves the base.
  erased : ReceiveBuffer → ReceiveBuffer
  erased b = record {
    next_ssn = (b.next_ssn + 1) % 2 ^ 16;
    pending = put b.pending b.next_ssn none;
  }

  erased-Holds :
      (b : ReceiveBuffer) (base : ℕ) (has : ℕ → Bool)
      → Holds b base has
      → Holds (erased b) (base + 1) has
  unfolding erased
  erased-Holds b base has holds =
      let next = holds.next in
      record {
        next = omega arith;
        window = λ i h. let w = holds.window i h in omega arith;
        held = λ i lo hi. elim (ℕ_discrete i (base + 2 ^ 16)) [
          | yes e ↦
              ap (put b.pending b.next_ssn none) (omega arith)
              ∙ put_same b.pending b.next_ssn none
              ∙ sym (ap (λ t. expected t i) (absent has base i (omega arith) (holds.window i)))
          | no d ↦
              put_other b.pending b.next_ssn none (i % 2 ^ 16) (λ same. absurd (omega arith))
              ∙ holds.held i (omega arith) (omega arith)
        ];
      }

  at_base :
      (b : ReceiveBuffer) (base : ℕ) (has : ℕ → Bool) (t : Bool)
      → Holds b base has
      → has base ≡ t
      → b.pending b.next_ssn ≡ expected t base
  at_base b base has t holds h =
      ap b.pending (holds.next)
      ∙ holds.held base (omega arith) (omega arith)
      ∙ ap (λ t. expected t base) h

  drain_stops :
      (fuel : ℕ) (b : ReceiveBuffer) → b.pending b.next_ssn ≡ none → drain fuel b ≡ ([], b)
  unfolding drain
  drain_stops zero b h = refl
  drain_stops (suc fuel) b h = rw (h, drain) refl

  drain_delivers :
      (fuel : ℕ) (b : ReceiveBuffer) (base : ℕ)
      → b.pending b.next_ssn ≡ some (whole base)
      → drain (suc fuel) b ≡ (messages base ∷ (drain fuel (erased b)).0, (drain fuel (erased b)).1)
  unfolding drain erased
  drain_delivers fuel b base h = rw (h, drain) refl

  stopped :
      (b : ReceiveBuffer) (base : ℕ) (has : ℕ → Bool)
      → Holds b base has
      → has base ≡ false
      → Delivered base has ([], b)
  stopped b base has holds missing =
      let nothing : base - base ≡ 0 = omega arith in
      record {
        last = base;
        ahead = omega arith;
        in_order = sym (ap (λ n. consecutive n base) nothing);
        holds = holds;
        missing = missing;
      }

  one_more :
      (base : ℕ) (has : ℕ → Bool) (out : List Message) (b : ReceiveBuffer)
      → Delivered (base + 1) has (out, b)
      → Delivered base has (messages base ∷ out, b)
  one_more base has out b d =
      let ahead = d.ahead in
      let last = d.last in
      let count : last - base ≡ suc (last - (base + 1)) = omega arith in
      record {
        last = d.last;
        ahead = omega arith;
        in_order = ap (◌∷◌ (messages base)) d.in_order ∙ sym (ap (λ n. consecutive n base) count);
        holds = d.holds;
        missing = d.missing;
      }

  drain-Delivered :
      (fuel limit : ℕ) (b : ReceiveBuffer) (base : ℕ) (has : ℕ → Bool)
      → Holds b base has
      → limit ≤ base + fuel
      → ((i : ℕ) → has i ≡ true → i < limit)
      → Delivered base has (drain fuel b)
  drain-Delivered zero limit b base has holds enough below = elim (Bool-cases (has base)) [
    | inl h ↦ absurd (let near = below base h in omega arith)
    | inr h ↦
        rw (drain_stops zero b (at_base b base has false holds h)) (stopped b base has holds h)
  ]
  drain-Delivered (suc fuel) limit b base has holds enough below = elim (Bool-cases (has base)) [
    | inl h ↦ rw (drain_delivers fuel b base (at_base b base has true holds h)) (
        one_more base has (drain fuel (erased b)).0 (drain fuel (erased b)).1 (
          drain-Delivered fuel limit (erased b) (base + 1) has (erased-Holds b base has holds)
            (omega arith) below))
    | inr h ↦
        rw (drain_stops (suc fuel) b (at_base b base has false holds h))
          (stopped b base has holds h)
  ]

  -- Storing a whole message.
  stored-Holds :
      (b : ReceiveBuffer) (base i : ℕ) (has : ℕ → Bool)
      → Holds b base has
      → base ≤ i
      → i < base + 2 ^ 15
      → Holds
          (record b { pending = put b.pending (i % 2 ^ 16) (some (whole i)) })
          base
          (λ j. j == i || has j)
  stored-Holds b base i has holds lo hi = record {
    next = holds.next;
    window = λ j h. elim (ℕ_discrete j i) [
      | yes e ↦ omega arith
      | no d ↦ holds.window j (sym (other j d) ∙ h)
    ];
    held = λ j lo' hi'. elim (ℕ_discrete j i) [
      | yes e ↦
          ap (put b.pending (i % 2 ^ 16) (some (whole i))) (ap (λ n. n % 2 ^ 16) e)
          ∙ put_same b.pending (i % 2 ^ 16) (some (whole i))
          ∙ (ap (λ n. some (whole n)) (sym e) ∙ sym (ap (λ t. expected t j) (there j e)))
      | no d ↦
          put_other b.pending (i % 2 ^ 16) (some (whole i)) (j % 2 ^ 16)
            (λ same. absurd (omega arith))
          ∙ holds.held j lo' hi'
          ∙ ap (λ t. expected t j) (sym (other j d))
    ];
  }
    where
      there : (j : ℕ) → j ≡ i → (j == i || has j) ≡ true
      there j e = rw (==_true j i e) refl

      other : (j : ℕ) → j ≢ i → (j == i || has j) ≡ has j
      other j d = rw (==_false j i d) refl

  accepted :
      (base i : ℕ)
      → base ≤ i
      → i < base + 2 ^ 15
      → is_delivered (i % 2 ^ 16) (base % 2 ^ 16) ≡ false
  unfolding is_delivered
  accepted base i lo hi = leb-false _ _ (omega arith)

  -- A whole message, in one fragment, with a number from the next one on and less than 32768 ahead, that
  -- arrives where some messages are held already: exactly the messages up to the first missing one are
  -- delivered, in their order, and the rest is held.
  pub receive-Delivered :
      (b : ReceiveBuffer) (base i : ℕ) (has : ℕ → Bool)
      → Holds b base has
      → base ≤ i
      → i < base + 2 ^ 15
      → Delivered base
          (λ j. j == i || has j)
          (receive b (i % 2 ^ 16) 3 false (messages i).ppid (messages i).bytes)
  unfolding receive accumulate
  receive-Delivered b base i has holds lo hi =
      let stored = stored-Holds b base i has holds lo hi in
      let go : is_delivered (i % 2 ^ 16) b.next_ssn ≡ false =
        ap (is_delivered (i % 2 ^ 16)) (holds.next) ∙ accepted base i lo hi in
      rw go (
        drain-Delivered (2 ^ 16) (base + 2 ^ 15)
          (record b { pending = put b.pending (i % 2 ^ 16) (some (whole i)) }) base
          (λ j. j == i || has j) stored (omega arith) stored.window)
