-- ===== src/Jitter/Taken.antt =====
-- `consume` of src/jitter_buffer.cpp: where a packet that is taken ends up.
use srtc.Common.{
  ℕ, ◌+◌, ◌*◌, ◌%◌, ◌≤◌, ◌<◌, ◌≡◌, ◌≢◌, refl, ap, sym, subst, ◌∙◌, List, Option, none, some,
}
use srtc.Common.{none≢some, true, false, arith, ltb, leb, ltb→lt, ◌==◌, if-elim, Option-elim}
use native.Mathlib.Nat.{add-mod_right}
use srtc.Rtp.{RtpPacket}
use srtc.Jitter.{
  PacketKind, standalone, start, middle, last, JitterBufferItem, Depacketizer, JitterBuffer, Slots,
  slots_of, item_at, set_item, or_new,
}
use srtc.Jitter.Window.{put_same, put_other, apart}
use srtc.Jitter.Store.{IsLive}
use srtc.Jitter.Consume.{
  new_lost_item, admit, is_out_of_range, make_room, store, insert, fix_next, fix_start,
  when_dequeue,
}

-- Neighbours in a window have different places.
neighbours :
    (capacity seq_ext high : ℕ)
    → high ≤ seq_ext + capacity
    → seq_ext + 1 < high
    → seq_ext % capacity ≢ (seq_ext + 1) % capacity
neighbours capacity seq_ext high fits inside =
    apart capacity seq_ext (seq_ext + 1) (λ e. omega arith) (omega arith) (omega arith)

module _ {D : Type 0} where
  -- The packet is the item of its number.
  abbrev pub Holds : JitterBuffer D → RtpPacket → List ℕ → ℕ → ℕ → Type 0
  Holds b packet payload seq_ext timestamp =
      let item = item_at b seq_ext in
      (item.received ≡ true)
      × (item.seq_ext ≡ seq_ext)
      × (item.rtp_timestamp_ext ≡ timestamp)
      × (item.marker ≡ packet.marker)
      × (item.payload ≡ payload)

  -- So it is after a step that keeps the limits.
  abbrev Stored : JitterBuffer D → RtpPacket → List ℕ → ℕ → ℕ → JitterBuffer D → Type 0
  Stored b packet payload seq_ext timestamp r =
      Holds r packet payload seq_ext timestamp
      × (r.min_seq ≡ b.min_seq)
      × (r.max_seq ≡ b.max_seq)
      × (r.capacity ≡ b.capacity)

  module _ (packet : RtpPacket) (payload : List ℕ) (seq_ext timestamp : ℕ) where
    fix_start-Stored :
        (b : JitterBuffer D)
        → (seq_ext + 1 < b.max_seq → seq_ext % b.capacity ≢ (seq_ext + 1) % b.capacity)
        → Holds b packet payload seq_ext timestamp
        → Stored b packet payload seq_ext timestamp (fix_start b seq_ext timestamp)
    unfolding fix_start
    fix_start-Stored b other held =
        let P = Stored b packet payload seq_ext timestamp in
        let same : P b = (held, refl, refl, refl) in
        if-elim P (ltb (seq_ext + 1) b.max_seq) _ b
          (λ inside.
            let next = item_at b (seq_ext + 1) in
            if-elim P (next.rtp_timestamp_ext == timestamp) _ b
              (λ continues.
                kind_case next.kind
                  (set_item b (seq_ext + 1) (some (record next { kind = middle }))) b
                  (moved (some (record next { kind = middle })) (other (ltb→lt _ _ inside))) same)
              (λ differs. same))
          (λ outside. same)
      where
        kind_case :
            (kind : PacketKind) (x y : JitterBuffer D)
            → Stored b packet payload seq_ext timestamp x
            → Stored b packet payload seq_ext timestamp y
            → Stored b packet payload seq_ext timestamp (elim kind [ start ↦ x | _ ↦ y ])
        kind_case standalone x y h k = k
        kind_case start x y h k = h
        kind_case middle x y h k = k
        kind_case last x y h k = k

        moved :
            (v : Option JitterBufferItem)
            → seq_ext % b.capacity ≢ (seq_ext + 1) % b.capacity
            → Stored b packet payload seq_ext timestamp (set_item b (seq_ext + 1) v)
        moved v d =
            rw (put_other (slots_of b) ((seq_ext + 1) % b.capacity) (seq_ext % b.capacity) v d)
              (held, refl, refl, refl)

    fix_next-Stored :
        (b : JitterBuffer D) (kind : PacketKind)
        → (seq_ext + 1 < b.max_seq → seq_ext % b.capacity ≢ (seq_ext + 1) % b.capacity)
        → Holds b packet payload seq_ext timestamp
        → Stored b packet payload seq_ext timestamp (fix_next b seq_ext timestamp kind)
    unfolding fix_next
    fix_next-Stored b standalone other held = (held, refl, refl, refl)
    fix_next-Stored b start other held = fix_start-Stored b other held
    fix_next-Stored b middle other held = fix_start-Stored b other held
    fix_next-Stored b last other held = (held, refl, refl, refl)

    module _ (dep : Depacketizer D) (now : ℕ) where
      store-Stored :
          (b : JitterBuffer D)
          → (seq_ext + 1 < b.max_seq → seq_ext % b.capacity ≢ (seq_ext + 1) % b.capacity)
          → Stored b packet payload seq_ext timestamp
              (store dep b packet payload seq_ext timestamp now)
      unfolding store
      store-Stored b other =
          fix_next-Stored _ _ other
            (rw (put_same (slots_of b) (seq_ext % b.capacity) _) (refl, refl, refl, refl, refl))

  -- The room that is made for a number.
  record Room (b : JitterBuffer D) (seq_ext : ℕ) (o : Option (JitterBuffer D)) : Type 0 where
    room : JitterBuffer D
    made : o ≡ some room
    capacity : room.capacity ≡ b.capacity
    other : seq_ext + 1 < room.max_seq → seq_ext % room.capacity ≢ (seq_ext + 1) % room.capacity
    above : b.max_seq ≤ seq_ext → (room.min_seq ≡ b.min_seq) × (room.max_seq ≡ seq_ext + 1)

  make_room-Room :
      (b : JitterBuffer D) (lost : ℕ → JitterBufferItem) (seq_ext : ℕ)
      → b.min_seq ≤ b.max_seq
      → b.max_seq ≤ b.min_seq + b.capacity
      → b.max_seq ≤ seq_ext + b.capacity
      → seq_ext ≤ b.min_seq + b.capacity
      → Room b seq_ext (make_room b lost seq_ext)
  unfolding make_room
  make_room-Room b lost seq_ext ordered window low high =
      let P = Room b seq_ext in
      if-elim P (ltb seq_ext b.min_seq) _ _
        (λ below.
          if-elim P (ltb (seq_ext + b.capacity) b.max_seq) none _ (λ over. absurd (ground arith))
            (λ fits. record {
              room = _;
              made = refl;
              capacity = refl;
              other = neighbours b.capacity seq_ext b.max_seq low;
              above = λ h. absurd (ground arith);
            }))
        (λ not_below.
          if-elim P (leb b.max_seq seq_ext) _ (some b)
            (λ above.
              if-elim P (ltb (b.min_seq + b.capacity) seq_ext) none _
                (λ over. absurd (ground arith))
                (λ fits. record {
                  room = _;
                  made = refl;
                  capacity = refl;
                  other = λ h. absurd (omega arith);
                  above = λ h. (refl, refl);
                }))
            (λ within. record {
              room = b;
              made = refl;
              capacity = refl;
              other = neighbours b.capacity seq_ext b.max_seq (ground arith);
              above = λ h. absurd (ground arith);
            }))

  module _ (dep : Depacketizer D) (b : JitterBuffer D) (packet : RtpPacket) (payload : List ℕ)
      (seq_ext timestamp now : ℕ) where
    lost_item : ℕ → JitterBufferItem
    lost_item = new_lost_item (now + b.nack_delay_ms * 1000000) (when_dequeue b timestamp)

    -- On the branch without an early return, the buffer is what `store` makes of the room.
    insert-store :
        (slots : Slots)
        → b.item_list ≡ some slots
        → is_out_of_range b seq_ext ≡ false
        → (r : Room b seq_ext (make_room b lost_item seq_ext))
        → insert dep b packet payload seq_ext timestamp now
          ≡ store dep r.room packet payload seq_ext timestamp now
    unfolding insert lost_item
    insert-store slots e in_range r =
        let stored = store dep r.room packet payload seq_ext timestamp now in
        let rest : JitterBuffer D → JitterBuffer D = λ a.
          elim (make_room a
            (new_lost_item (now + a.nack_delay_ms * 1000000) (when_dequeue a timestamp)) seq_ext) [
              | none ↦ a
              | some room ↦ store dep room packet payload seq_ext timestamp now
            ] in
        ap {A = Option (JitterBuffer D)}
          (λ (o : Option (JitterBuffer D)). elim o [ none ↦ b | some a ↦ rest a ]) admitted
        ∙ ap {A = Option (JitterBuffer D)}
            (λ (o : Option (JitterBuffer D)). elim o [
              | none ↦ b
              | some room ↦ store dep room packet payload seq_ext timestamp now
            ])
            r.made
      where
        admitted : admit b seq_ext timestamp now ≡ some b
        admitted =
            unfold admit in
            Option-elim {A = Slots} (λ o. o ≡ some b) b.item_list _ _
              (λ empty. absurd (none≢some (sym empty ∙ e)))
              (λ other k.
                if-elim {B = Option (JitterBuffer D)} (λ o. o ≡ some b) (is_out_of_range b seq_ext)
                  none (some b) (λ out. absurd (ground (arith, out, in_range))) (λ k. refl))

    -- On a window, a packet in range is taken where the window with it spans no more numbers than the array
    -- has places: it is then the received item of its number, with its timestamp, marker and payload.
    pub insert-Holds :
        IsLive b
        → (slots : Slots) → b.item_list ≡ some slots
        → is_out_of_range b seq_ext ≡ false
        → b.max_seq ≤ seq_ext + b.capacity
        → seq_ext < b.min_seq + b.capacity
        → Holds (insert dep b packet payload seq_ext timestamp now) packet payload seq_ext timestamp
    insert-Holds live slots e in_range low high =
        let f = live.1 slots e in
        let r = make_room-Room b lost_item seq_ext f.ordered f.fits low (omega arith) in
        subst (λ (c : JitterBuffer D). Holds c packet payload seq_ext timestamp)
          (sym (insert-store slots e in_range r))
          (store-Stored packet payload seq_ext timestamp dep now r.room r.other).0

    -- A packet in range whose number is exactly the capacity above the lower limit is taken too: the window
    -- then spans one number more than the array has places, and the place of the lower limit holds the new
    -- packet in place of the old item.
    pub insert_overruns :
        IsLive b
        → (slots : Slots) → b.item_list ≡ some slots
        → seq_ext ≡ b.min_seq + b.capacity
        → is_out_of_range b seq_ext ≡ false
        → ((insert dep b packet payload seq_ext timestamp now).min_seq ≡ b.min_seq)
          × ((insert dep b packet payload seq_ext timestamp now).max_seq
              ≡ b.min_seq + b.capacity + 1)
          × ((item_at (insert dep b packet payload seq_ext timestamp now) b.min_seq).seq_ext
              ≡ b.min_seq + b.capacity)
    insert_overruns live slots e at in_range =
        let f = live.1 slots e in
        let fits = f.fits in
        let r = make_room-Room b lost_item seq_ext f.ordered fits (omega arith) (omega arith) in
        let (held, low, high, same) =
          store-Stored packet payload seq_ext timestamp dep now r.room r.other in
        let (low', high') = r.above (omega arith) in
        subst
          (λ (c : JitterBuffer D).
            (c.min_seq ≡ b.min_seq)
            × (c.max_seq ≡ b.min_seq + b.capacity + 1)
            × ((item_at c b.min_seq).seq_ext ≡ b.min_seq + b.capacity))
          (sym (insert-store slots e in_range r))
          (
            low ∙ low',
            high ∙ high' ∙ ap (λ n. n + 1) at,
            wrapped (store dep r.room packet payload seq_ext timestamp now) (same ∙ r.capacity)
                held.1,
          )
      where
        wrapped :
            (c : JitterBuffer D)
            → c.capacity ≡ b.capacity
            → (item_at c seq_ext).seq_ext ≡ seq_ext
            → (item_at c b.min_seq).seq_ext ≡ b.min_seq + b.capacity
        wrapped c same h = ap (λ (i : ℕ). (or_new (slots_of c i)).seq_ext) place ∙ h ∙ at
          where
            place : b.min_seq % c.capacity ≡ seq_ext % c.capacity
            place = rw (at, same) (sym (add-mod_right b.min_seq b.capacity))
