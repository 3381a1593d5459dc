-- ===== src/Jitter/Invariant.antt =====
-- `consume` of src/jitter_buffer.cpp, all its branches.
use srtc.Common.{ℕ, ◌+◌, ◌*◌, ◌%◌, ◌≡◌, ◌≢◌, refl, ap, ap₂, sym, subst, ◌∙◌, List, none, some}
use srtc.Common.{none≢some, some_inj, inl, inr, if-elim, Option-elim, ◌⊎◌}
use srtc.Extended.{extend}
use srtc.Rtp.{RtpPacket}
use srtc.Jitter.{
  JitterBufferItem, Depacketizer, JitterBuffer, Slots, slots_of, put, free_everything,
}
use srtc.Jitter.Window.{Filled}
use srtc.Jitter.Store.{IsLive, slots_of-some, fix_next-IsLive}
use srtc.Jitter.Keeps.{Ready, first_packet-Ready, make_room_first, make_room-Ready}
use srtc.Jitter.Consume.{
  unwrap_rtx, is_too_late, new_lost_item, reset_if_idle, first_packet, admit, is_out_of_range,
  make_room, store, insert, consume, when_dequeue,
}

module _ {D : Type 0} (dep : Depacketizer D) where
  store-IsLive :
      (b : JitterBuffer D) (packet : RtpPacket) (payload : List ℕ) (seq_ext timestamp now : ℕ)
      → Ready b seq_ext
      → IsLive (store dep b packet payload seq_ext timestamp now)
  unfolding store
  store-IsLive b packet payload seq_ext timestamp now ready =
      let slots = ready.slots in
      fix_next-IsLive _ (put (slots_of b) (seq_ext % b.capacity) _) seq_ext timestamp _ refl
        (
          ready.positive,
          λ other h.
              subst (λ s. Filled b.capacity s b.min_seq b.max_seq) (some_inj h)
                (rw (slots_of-some b ready.slots ready.has) (ready.write _ refl)),
        )
        ready.lower

  -- What the admission lets through: a first packet or the buffer as it was.
  admit-cases :
      (b a : JitterBuffer D) (seq_ext timestamp now : ℕ)
      → admit b seq_ext timestamp now ≡ some a
      → (first_packet b seq_ext timestamp now ≡ a)
        ⊎ ((b ≡ a) × (slots : Slots) × (b.item_list ≡ some slots))
  unfolding admit
  admit-cases b a seq_ext timestamp now =
      Option-elim (λ r. r ≡ some a → Cases) b.item_list _ _ (λ e h. inl (some_inj h))
        (λ slots e.
          if-elim (λ r. r ≡ some a → Cases) (is_out_of_range b seq_ext) none (some b)
            (λ out h. absurd (none≢some h)) (λ in_range h. inr (some_inj h, slots, e)))
    where
      Cases : Type 0
      Cases =
          (first_packet b seq_ext timestamp now ≡ a)
          ⊎ ((b ≡ a) × (slots : Slots) × (b.item_list ≡ some slots))

  insert-IsLive :
      (b : JitterBuffer D) (packet : RtpPacket) (payload : List ℕ) (seq_ext timestamp now : ℕ)
      → IsLive b
      → seq_ext ≢ b.min_seq + b.capacity
      → IsLive (insert dep b packet payload seq_ext timestamp now)
  unfolding insert new_lost_item
  insert-IsLive b packet payload seq_ext timestamp now live d =
      Option-elim IsLive (admit b seq_ext timestamp now) b _ (λ refused. live)
        (λ a admitted.
          Option-elim IsLive (make_room a (lost a) seq_ext) a _
            (λ full. admitted_IsLive a admitted full)
            (λ room made.
              store-IsLive room packet payload seq_ext timestamp now
                (room_Ready a room admitted made)))
    where
      lost : JitterBuffer D → ℕ → JitterBufferItem
      lost a = new_lost_item (now + a.nack_delay_ms * 1000000) (when_dequeue a timestamp)

      admitted_IsLive :
          (a : JitterBuffer D)
          → admit b seq_ext timestamp now ≡ some a
          → make_room a (lost a) seq_ext ≡ none
          → IsLive a
      admitted_IsLive a h full = elim (admit-cases b a seq_ext timestamp now h) [
        | inl first ↦ absurd (
            none≢some (
              sym full
              ∙ ap (λ c. make_room c (lost a) seq_ext) (sym first)
              ∙ make_room_first b (lost a) seq_ext timestamp now))
        | inr (same, slots, e) ↦ subst IsLive same live
      ]

      room_Ready :
          (a room : JitterBuffer D)
          → admit b seq_ext timestamp now ≡ some a
          → make_room a (lost a) seq_ext ≡ some room
          → Ready room seq_ext
      room_Ready a room h made = elim (admit-cases b a seq_ext timestamp now h) [
        | inl first ↦
            subst (λ r. Ready r seq_ext)
              (some_inj (
                sym (make_room_first b (lost a) seq_ext timestamp now)
                ∙ ap (λ c. make_room c (lost a) seq_ext) first
                ∙ made))
              (first_packet-Ready b seq_ext timestamp now live.0)
        | inr (same, slots, e) ↦
            make_room-Ready b (lost a) (λ i. unfold new_lost_item in refl) slots e live.0
              (live.1 slots e) seq_ext room d (ap (λ c. make_room c (lost a) seq_ext) same ∙ made)
      ]

  reset_if_idle-IsLive :
      (b : JitterBuffer D) (seq_ext now : ℕ) → IsLive b → IsLive (reset_if_idle dep b seq_ext now)
  unfolding reset_if_idle free_everything
  reset_if_idle-IsLive b seq_ext now live =
      Option-elim IsLive b.item_list b _ (λ h. live)
        (λ slots e.
          if-elim IsLive _ _ b (λ h. (live.0, λ other k. absurd (none≢some k))) (λ h. live))

  abbrev SameLimits : JitterBuffer D → JitterBuffer D → Type 0
  SameLimits b c = (c.min_seq ≡ b.min_seq) × (c.capacity ≡ b.capacity)

  reset_if_idle_limits :
      (b : JitterBuffer D) (seq_ext now : ℕ) → SameLimits b (reset_if_idle dep b seq_ext now)
  unfolding reset_if_idle free_everything
  reset_if_idle_limits b seq_ext now =
      Option-elim (SameLimits b) b.item_list b _ (λ h. (refl, refl))
        (λ slots e. if-elim (SameLimits b) _ _ b (λ h. (refl, refl)) (λ h. (refl, refl)))

  -- `consume` keeps the array a window: the numbers from the lower limit up to the upper one have an item
  -- with that number, at most the capacity of them, and all other places are empty. The number of the
  -- packet is not exactly the capacity above the lower limit.
  pub consume-IsLive :
      (b : JitterBuffer D) (packet : RtpPacket) (now : ℕ)
      → IsLive b
      → ((seq : ℕ) (payload : List ℕ)
          → unwrap_rtx b.track packet ≡ some (seq, payload)
          → (extend b.ext_value_seq seq now).0 ≢ b.min_seq + b.capacity)
      → IsLive (consume dep b packet now)
  unfolding consume
  consume-IsLive b packet now live d =
      Option-elim IsLive (unwrap_rtx b.track packet) b _ (λ short. live)
        (λ (seq, payload) e.
          let b' = record b {
            ext_value_seq = (extend b.ext_value_seq seq now).1;
            ext_value_rtp_timestamp = (extend b.ext_value_rtp_timestamp packet.timestamp now).1;
          } in
          let seq_ext = (extend b.ext_value_seq seq now).0 in
          let timestamp = (extend b.ext_value_rtp_timestamp packet.timestamp now).0 in
          let idle = reset_if_idle dep b' seq_ext now in
          let ready = record idle { last_packet_time = now } in
          let limits = reset_if_idle_limits b' seq_ext now in
          if-elim IsLive (is_too_late b.last_frame_timestamp timestamp) b'
            (insert dep ready packet payload seq_ext timestamp now) (λ late. live)
            (λ in_time.
              insert-IsLive ready packet payload seq_ext timestamp now
                (reset_if_idle-IsLive b' seq_ext now live)
                (λ same. d seq payload e (same ∙ ap₂ (λ (m n : ℕ). m + n) limits.0 limits.1))))
