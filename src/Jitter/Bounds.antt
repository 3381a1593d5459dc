-- ===== src/Jitter/Bounds.antt =====
-- The times of src/jitter_buffer.cpp: how early an item may be taken for due, and how long the caller of
-- `getTimeoutMillis` may sleep.
use srtc.Common.{
  ℕ, zero, suc, ◌+◌, ◌-◌, ◌*◌, ◌/◌, ◌%◌, ◌^◌, ◌≤◌, ◌<◌, ◌≡◌, ◌↔◌, refl, ap, sym, ◌∙◌, Option, none,
  some, none≢some,
}
use srtc.Common.{
  true, false, arith, leb, if-elim, Option-elim, Bool-cases, inl, inr, lt→ltb, ltb-false,
}
use srtc.Jitter.{JitterBufferItem, JitterBuffer, Slots, item_at}
use srtc.Jitter.Time.{ℤ, pos, negsuc, diff_millis, is_due, less, to_signed, not_positive, neg}
use srtc.Jitter.Nack.{
  Timeouts, or_else, see_item, timeout_loop, earlier, soonest, no_timeouts, get_timeout_millis,
}

not_positive-neg : (n : ℕ) → not_positive (neg n) ≡ true
not_positive-neg zero = refl
not_positive-neg (suc n) = refl

not_positive-pos : (n : ℕ) → (not_positive (pos n) ≡ true) ↔ (n ≡ 0)
not_positive-pos zero = (λ h. refl, λ h. refl)
not_positive-pos (suc n) = (λ h. ground arith, λ h. absurd (omega arith))

to_signed_small : (n : ℕ) → n < 2147483648 → to_signed 32 n ≡ pos n
to_signed_small n h =
    let same : n % 2 ^ 32 ≡ n = omega arith in rw same (rw (lt→ltb n (2 ^ 31) (omega arith)) refl)

to_signed_large : (n : ℕ) → 2147483648 ≤ n % 2 ^ 32 → not_positive (to_signed 32 n) ≡ true
to_signed_large n h =
    rw (ltb-false (n % 2 ^ 32) (2 ^ 31) (omega arith)) (not_positive-neg (2 ^ 32 - n % 2 ^ 32))

-- A time that is less than 2 ^ 31 milliseconds away is due, as `diff_millis` has it, exactly from half a
-- millisecond before it on.
pub is_due_iff :
    (when now : ℕ)
    → when + 1000000 ≤ now + 2147483648 * 1000000
    → now ≤ when + 2147483648 * 1000000
    → (is_due when now ≡ true) ↔ (when < now + 500000)
unfolding is_due diff_millis
is_due_iff when now h k = elim (Bool-cases (leb now (when + 500000))) [
  | inl ahead ↦
      let q = (when + 500000 - now) / 1000000 in
      let small : q < 2147483648 = ground arith in
      rw (ahead, to_signed_small q small)
        (
          λ e. let zero_q : q ≡ 0 = (not_positive-pos q).0 e in ground arith,
          λ e. (not_positive-pos q).1 (ground arith),
        )
  | inr past ↦
      let d = (now - (when + 500000)) / 1000000 in
      let far : d ≤ 2147483648 = ground arith in (λ e. ground arith, λ e. rw past (behind d far))
]
  where
    behind : (d : ℕ) → d ≤ 2147483648 → not_positive (to_signed 32 (2 ^ 32 - d % 2 ^ 32)) ≡ true
    behind zero far = refl
    behind (suc d) far = to_signed_large (2 ^ 32 - suc d % 2 ^ 32) (omega arith)

-- No later than.
abbrev pub AtMost : ℤ → ℤ → Type 0
AtMost a b = less b a ≡ false

AtMost-refl : (a : ℤ) → AtMost a a
AtMost-refl (pos n) = ground arith
AtMost-refl (negsuc n) = ground arith

less_trans : (a b c : ℤ) → less a b ≡ true → AtMost b c → AtMost a c
less_trans (pos a) (pos b) (pos c) h k = ground arith
less_trans (pos a) (pos b) (negsuc c) h k = absurd (ground arith)
less_trans (pos a) (negsuc b) c h k = absurd (ground arith)
less_trans (negsuc a) (pos b) (pos c) h k = refl
less_trans (negsuc a) (pos b) (negsuc c) h k = absurd (ground arith)
less_trans (negsuc a) (negsuc b) (pos c) h k = refl
less_trans (negsuc a) (negsuc b) (negsuc c) h k = ground arith

earlier-AtMost : (t d : ℤ) (o : Option ℤ) → AtMost t d → AtMost (earlier t o) d
unfolding earlier
earlier-AtMost t d none h = h
earlier-AtMost t d (some x) h =
    if-elim (λ r. AtMost r d) (less x t) x t (λ k. less_trans x t d k h) (λ k. h)

earlier_new : (t d : ℤ) (o : Option ℤ) → o ≡ some d → AtMost (earlier t o) d
unfolding earlier
earlier_new t d o e = rw e (if-elim (λ r. AtMost r d) (less d t) d t (λ k. AtMost-refl d) (λ k. k))

soonest-AtMost : (most : ℤ) (t : Timeouts) → AtMost (soonest most t) most
unfolding soonest
soonest-AtMost most t =
    earlier-AtMost (earlier (earlier most t.when_request) t.when_abandon) most t.when_dequeue (
      earlier-AtMost (earlier most t.when_request) most t.when_abandon
        (earlier-AtMost most most t.when_request (AtMost-refl most)))

soonest-dequeue : (most d : ℤ) (t : Timeouts) → t.when_dequeue ≡ some d → AtMost (soonest most t) d
unfolding soonest
soonest-dequeue most d t e =
    earlier_new (earlier (earlier most t.when_request) t.when_abandon) d t.when_dequeue e

module _ {D : Type 0} (b : JitterBuffer D) (now : ℕ) where
  see_item_keeps :
      (t : Timeouts) (item : JitterBufferItem) (d : ℤ)
      → t.when_dequeue ≡ some d
      → (see_item t item now).when_dequeue ≡ some d
  unfolding see_item or_else
  see_item_keeps t item d e =
      if-elim (λ (r : Timeouts). r.when_dequeue ≡ some d) item.received _ _
        (λ received. ap (λ o. or_else o true (diff_millis item.when_dequeue now)) e) (λ lost. e)

  timeout_loop_keeps :
      (cutoff : ℕ) (t : Timeouts) (count seq : ℕ) (d : ℤ)
      → t.when_dequeue ≡ some d
      → (timeout_loop b now cutoff t count seq).when_dequeue ≡ some d
  unfolding timeout_loop
  timeout_loop_keeps cutoff t zero seq d e = e
  timeout_loop_keeps cutoff t (suc count) seq d e =
      let seen = see_item_keeps t (item_at b seq) d e in
      if-elim (λ (r : Timeouts). r.when_dequeue ≡ some d) _ _ _ (λ stop. seen)
        (λ more. timeout_loop_keeps cutoff (see_item t (item_at b seq) now) count (seq + 1) d seen)

  first_seen :
      (cutoff : ℕ) (t : Timeouts) (count seq : ℕ)
      → 0 < count
      → t.when_dequeue ≡ none
      → (item_at b seq).received ≡ true
      → (timeout_loop b now cutoff t count seq).when_dequeue
        ≡ some (diff_millis (item_at b seq).when_dequeue now)
  unfolding timeout_loop
  first_seen cutoff t zero seq h e received = absurd (omega arith)
  first_seen cutoff t (suc count) seq h e received =
      let d = diff_millis (item_at b seq).when_dequeue now in
      let seen : (see_item t (item_at b seq) now).when_dequeue ≡ some d = seen_first in
      if-elim (λ (r : Timeouts). r.when_dequeue ≡ some d) _ _ _ (λ stop. seen)
        (λ more. timeout_loop_keeps cutoff (see_item t (item_at b seq) now) count (seq + 1) d seen)
    where
      seen_first :
          (see_item t (item_at b seq) now).when_dequeue
          ≡ some (diff_millis (item_at b seq).when_dequeue now)
      seen_first =
          unfold see_item or_else in
          if-elim
            (λ (r : Timeouts). r.when_dequeue ≡ some (diff_millis (item_at b seq).when_dequeue now))
            (item_at b seq).received _ _
            (λ k. ap (λ o. or_else o true (diff_millis (item_at b seq).when_dequeue now)) e)
            (λ k. absurd (ground (arith, k, received)))

  -- The timeout that `getTimeoutMillis` gives is at most the default; where the window begins with a
  -- received packet, it ends no later than the time at which that packet is to be dequeued.
  pub get_timeout_millis-AtMost :
      (default_timeout : ℕ)
      → AtMost (get_timeout_millis b default_timeout now) (pos default_timeout)
        × ((slots : Slots)
            → b.item_list ≡ some slots
            → b.min_seq < b.max_seq
            → (item_at b b.min_seq).received ≡ true
            → AtMost
                (get_timeout_millis b default_timeout now)
                (diff_millis (item_at b b.min_seq).when_dequeue now))
  unfolding get_timeout_millis
  get_timeout_millis-AtMost default_timeout =
      let most = pos default_timeout in
      let unused = no_timeouts b.track.has_nack default_timeout in
      let cutoff = now + default_timeout * 1000000 in
      let t = timeout_loop b now cutoff unused (b.max_seq - b.min_seq) b.min_seq in
      (
        Option-elim (λ r. AtMost r most) b.item_list most _ (λ empty. AtMost-refl most)
            (λ slots e. soonest-AtMost most t),
        λ slots e left received.
            let d = diff_millis (item_at b b.min_seq).when_dequeue now in
            Option-elim (λ r. AtMost r d) b.item_list most _
              (λ empty. absurd (none≢some (sym empty ∙ e)))
              (λ other k. soonest-dequeue most d t (
                first_seen cutoff unused (b.max_seq - b.min_seq) b.min_seq (omega arith)
                  (unfold no_timeouts in refl) received)),
      )
