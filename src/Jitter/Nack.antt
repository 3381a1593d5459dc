-- ===== src/Jitter/Nack.antt =====
-- `JitterBuffer::processNack` and `getTimeoutMillis` of src/jitter_buffer.cpp: the packets to ask for
-- again, and when the buffer has to be looked at next.
use srtc.Common.{ℕ, zero, suc, ◌+◌, ◌-◌, ◌*◌, ◌%◌, ◌^◌, List, [], ◌∷◌, Option, none, some, Bool}
use srtc.Common.{true, false, not, ◌&&◌, ◌||◌, ltb, ◌==◌, if◌then◌else◌}
use srtc.Jitter.{JitterBufferItem, JitterBuffer, item_at, set_item}
use srtc.Jitter.Time.{ℤ, pos, diff_millis, is_due, less}

abbrev pub requested : JitterBufferItem → JitterBufferItem
requested item = record item { nack_needed = false }

module _ {D : Type 0} where
  -- The loop, with `count` numbers left.
  unfoldable pub nack_loop : JitterBuffer D → ℕ → ℕ → ℕ → List ℕ × JitterBuffer D
  nack_loop b now zero seq = ([], b)
  nack_loop b now (suc count) seq =
      let item = item_at b seq in
      if is_due item.when_nack_request now
      then (if not item.received && item.nack_needed
          then (let (rest, b') =
                nack_loop (set_item b seq (some (requested item))) now count (seq + 1) in
              (item.seq_ext % 2 ^ 16 ∷ rest, b'))
          else nack_loop b now count (seq + 1))
      else if is_due item.when_nack_abandon now
      then ([], b)
      else nack_loop b now count (seq + 1)

  unfoldable pub process_nack : JitterBuffer D → ℕ → List ℕ × JitterBuffer D
  unfolding nack_loop
  process_nack b now = elim b.item_list [
    | none ↦ ([], b)
    | some slots ↦
        if b.min_seq == b.max_seq || not b.track.has_nack
        then ([], b)
        else nack_loop b now (b.max_seq - b.min_seq) b.min_seq
  ]

-- The three times found so far.
pub record Timeouts : Type 0 where
  pub when_request : Option ℤ
  pub when_abandon : Option ℤ
  pub when_dequeue : Option ℤ

unfoldable pub or_else : Option ℤ → Bool → ℤ → Option ℤ
or_else (some t) wanted time = some t
or_else none true time = some time
or_else none false time = none

unfoldable pub see_item : Timeouts → JitterBufferItem → ℕ → Timeouts
unfolding or_else
see_item t item now =
    if item.received
    then record t { when_dequeue = or_else t.when_dequeue true (diff_millis item.when_dequeue now) }
    else record t {
      when_request =
          or_else t.when_request item.nack_needed (diff_millis item.when_nack_request now);
      when_abandon = or_else t.when_abandon true (diff_millis item.when_nack_abandon now);
    }

unfoldable all_found : Timeouts → Bool
all_found t = is_found t.when_dequeue && is_found t.when_request && is_found t.when_abandon
  where
    is_found : Option ℤ → Bool
    is_found none = false
    is_found (some t) = true

unfoldable all_later : JitterBufferItem → ℕ → Bool
all_later item cutoff =
    ltb cutoff item.when_dequeue
    && ltb cutoff item.when_nack_request
    && ltb cutoff item.when_nack_abandon

unfoldable pub earlier : ℤ → Option ℤ → ℤ
earlier timeout none = timeout
earlier timeout (some t) = if less t timeout then t else timeout

-- The earliest of the default and the times found.
unfoldable pub soonest : ℤ → Timeouts → ℤ
unfolding earlier
soonest timeout t = earlier (earlier (earlier timeout t.when_request) t.when_abandon) t.when_dequeue

-- Nothing is asked for again where the track has no NACK: both times count as found.
unfoldable pub no_timeouts : Bool → ℕ → Timeouts
no_timeouts has_nack default_timeout =
    let unused = if has_nack then none else some (pos (2 * default_timeout)) in
    record { when_request = unused; when_abandon = unused; when_dequeue = none }

module _ {D : Type 0} where
  unfoldable pub timeout_loop : JitterBuffer D → ℕ → ℕ → Timeouts → ℕ → ℕ → Timeouts
  unfolding see_item all_found all_later
  timeout_loop b now cutoff t zero seq = t
  timeout_loop b now cutoff t (suc count) seq =
      let item = item_at b seq in
      let seen = see_item t item now in
      let later = timeout_loop b now cutoff seen count (seq + 1) in
      if all_found seen || all_later item cutoff then seen else later

  -- `default_timeout` is a positive `int` whose double is one.
  unfoldable pub get_timeout_millis : JitterBuffer D → ℕ → ℕ → ℤ
  unfolding timeout_loop soonest no_timeouts
  get_timeout_millis b default_timeout now = elim b.item_list [
    | none ↦ pos default_timeout
    | some slots ↦ soonest (pos default_timeout) (
        timeout_loop b now (now + default_timeout * 1000000)
          (no_timeouts b.track.has_nack default_timeout) (b.max_seq - b.min_seq) b.min_seq)
  ]
