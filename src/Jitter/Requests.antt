-- ===== src/Jitter/Requests.antt =====
-- `processNack` of src/jitter_buffer.cpp: which packets it asks for.
use srtc.Common.{
  ℕ, zero, suc, ◌+◌, ◌-◌, ◌%◌, ◌^◌, ◌≤◌, ◌<◌, ◌≡◌, refl, ap, sym, subst, ◌∙◌, List, [], ◌∷◌, All,
  none, some, some_inj, none≢some,
}
use srtc.Common.{
  Bool, true, false, not, arith, if-elim, Option-cases, inl, inr, ◌&&◌, ◌||◌, ◌==◌, Bool-cases,
}
use srtc.Jitter.{JitterBufferItem, JitterBuffer, Slots, put, item_at, or_new}
use srtc.Jitter.Window.{Filled, replace, put_same, put_other, apart}
use srtc.Jitter.Store.{IsLive}
use srtc.Jitter.Time.{is_due}
use srtc.Jitter.Nack.{requested, nack_loop, process_nack}

both_true : (a b : Bool) → (a && b) ≡ true → (a ≡ true) × (b ≡ true)
both_true a b h = ground arith

no_longer : (a : Bool) → (a && false) ≡ false
no_longer a = ground arith

not-true : (a : Bool) → not a ≡ true → a ≡ false
not-true a h = ground arith

map_All {ℓ κ μ} :
    {A : Type ℓ} (P : A → Type κ) (Q : A → Type μ) (xs : List A)
    → ((a : A) → P a → Q a)
    → All P xs
    → All Q xs
map_All P Q [] f h = tt
map_All P Q (x ∷ xs) f (h, later) = (f x h, map_All P Q xs f later)

module _ {D : Type 0} where
  -- A packet of the window that is missing, was not asked for, and should be by now.
  abbrev IsMissing : JitterBuffer D → ℕ → ℕ → Type 0
  IsMissing b now i =
      ((item_at b i).received ≡ false)
      × ((item_at b i).nack_needed ≡ true)
      × (is_due (item_at b i).when_nack_request now ≡ true)

  -- A number that is asked for is the low half of the number of such a packet.
  abbrev pub AsksFor : JitterBuffer D → ℕ → ℕ → Type 0
  AsksFor b now asked =
      (i : ℕ) × (b.min_seq ≤ i) × (i < b.max_seq) × IsMissing b now i × (asked ≡ i % 2 ^ 16)

  module _ (b : JitterBuffer D) (now : ℕ) where
    abbrev holding : Slots → JitterBuffer D
    holding slots = record b { item_list = some slots }

    abbrev here : Slots → ℕ → JitterBufferItem
    here slots seq = or_new (slots (seq % b.capacity))

    abbrev after : Slots → ℕ → Slots
    after slots seq = put slots (seq % b.capacity) (some (requested (here slots seq)))

    -- What the loop over `count` numbers from `seq` on leaves, and that it would ask for nothing again.
    record Asked (count seq : ℕ) (slots : Slots) (r : List ℕ × JitterBuffer D) : Type 0 where
      left : Slots
      buffer : r.1 ≡ holding left
      filled : Filled b.capacity left b.min_seq b.max_seq
      before : (i : ℕ) → b.min_seq ≤ i → i < seq → left (i % b.capacity) ≡ slots (i % b.capacity)
      again : (nack_loop (holding left) now count seq).0 ≡ []
      asked :
          All
            (λ n.
              (i : ℕ) × (seq ≤ i)
              × (i < b.max_seq)
              × IsMissing (holding slots) now i
              × (n ≡ i % 2 ^ 16))
            r.0

    module _ (count seq : ℕ) (slots : Slots) (f : Filled b.capacity slots b.min_seq b.max_seq)
        (lo : b.min_seq ≤ seq) (hi : seq < b.max_seq) where
      here_named : (here slots seq).seq_ext ≡ seq
      here_named =
          let (item, there, same) = f.full seq lo hi in ap (λ o. (or_new o).seq_ext) there ∙ same

      -- The loop passes over an item that was asked for or is received, and one that is not due.
      skip_done :
          (left : Slots) (x : JitterBufferItem)
          → left (seq % b.capacity) ≡ some x
          → is_due x.when_nack_request now ≡ true
          → (not x.received && x.nack_needed) ≡ false
          → (nack_loop (holding left) now (suc count) seq).0
            ≡ (nack_loop (holding left) now count (seq + 1)).0
      unfolding nack_loop
      skip_done left x e due done = rw (e, due, done) refl

      skip_later :
          (left : Slots) (x : JitterBufferItem)
          → left (seq % b.capacity) ≡ some x
          → is_due x.when_nack_request now ≡ false
          → is_due x.when_nack_abandon now ≡ false
          → (nack_loop (holding left) now (suc count) seq).0
            ≡ (nack_loop (holding left) now count (seq + 1)).0
      unfolding nack_loop
      skip_later left x e later kept = rw (e, later, kept) refl

      there : slots (seq % b.capacity) ≡ some (here slots seq)
      there = let (item, at, same) = f.full seq lo hi in at ∙ sym (ap (λ o. some (or_new o)) at)

      -- The numbers after an item that is left as it is.
      passed :
          (r : List ℕ × JitterBuffer D)
          → Asked count (seq + 1) slots r
          → ((left : Slots)
              → left (seq % b.capacity) ≡ slots (seq % b.capacity)
              → (nack_loop (holding left) now (suc count) seq).0
                ≡ (nack_loop (holding left) now count (seq + 1)).0)
          → Asked (suc count) seq slots r
      passed r done skip = record {
        left = done.left;
        buffer = done.buffer;
        filled = done.filled;
        before = λ i a h. done.before i a (omega arith);
        again = skip done.left (done.before seq lo (omega arith)) ∙ done.again;
        asked =
            map_All _ _ r.0 (λ n (i, a, h, missing, same). (i, omega arith, h, missing, same))
              done.asked;
      }

      after-Filled : Filled b.capacity (after slots seq) b.min_seq b.max_seq
      after-Filled =
          replace b.capacity slots b.min_seq b.max_seq f (requested (here slots seq)) seq here_named
            lo hi

      elsewhere :
          (i : ℕ)
          → b.min_seq ≤ i
          → i < b.max_seq
          → ¬ (i ≡ seq)
          → (after slots seq) (i % b.capacity) ≡ slots (i % b.capacity)
      elsewhere i a h d =
          let fits = f.fits in
          put_other slots (seq % b.capacity) (i % b.capacity) (some (requested (here slots seq)))
            (apart b.capacity i seq d (omega arith) (omega arith))

      taken :
          (r : List ℕ × JitterBuffer D)
          → is_due (here slots seq).when_nack_request now ≡ true
          → (not (here slots seq).received && (here slots seq).nack_needed) ≡ true
          → Asked count (seq + 1) (after slots seq) r
          → Asked (suc count) seq slots ((here slots seq).seq_ext % 2 ^ 16 ∷ r.0, r.1)
      taken r due missing done =
          let (absent, needed) = both_true _ _ missing in
          record {
            left = done.left;
            buffer = done.buffer;
            filled = done.filled;
            before = λ i a h.
                done.before i a (omega arith) ∙ elsewhere i a (omega arith) (λ e. omega arith);
            again =
                skip_done done.left (requested (here slots seq))
                  (done.before seq lo (omega arith)
                    ∙ put_same slots (seq % b.capacity) (some (requested (here slots seq))))
                  due (no_longer (not (here slots seq).received))
                ∙ done.again;
            asked = (
              (
                seq,
                omega arith,
                hi,
                (not-true _ absent, needed, due),
                ap (λ n. n % 2 ^ 16) here_named,
              ),
              map_All _ _ r.0
                  (λ n (i, a, h, missing, same). (
                    i,
                    omega arith,
                    h,
                    subst
                        (λ o.
                          ((or_new o).received ≡ false)
                          × ((or_new o).nack_needed ≡ true)
                          × (is_due (or_new o).when_nack_request now ≡ true))
                        (elsewhere i (omega arith) h (λ e. omega arith)) missing,
                    same,
                  ))
                  done.asked,
            );
          }

    nack_loop-Asked :
        (count seq : ℕ) (slots : Slots)
        → Filled b.capacity slots b.min_seq b.max_seq
        → b.min_seq ≤ seq
        → count ≤ b.max_seq - seq
        → Asked count seq slots (nack_loop (holding slots) now count seq)
    unfolding nack_loop
    nack_loop-Asked zero seq slots f lo hi = record {
      left = slots;
      buffer = refl;
      filled = f;
      before = λ i a h. refl;
      again = refl;
      asked = tt;
    }
    nack_loop-Asked (suc count) seq slots f lo hi =
        let item = here slots seq in
        let at = there count seq slots f lo (omega arith) in
        if-elim (Asked (suc count) seq slots) (is_due item.when_nack_request now) _ _
          (λ due.
            if-elim (Asked (suc count) seq slots) (not item.received && item.nack_needed) _ _
              (λ missing. taken count seq slots f lo (omega arith) _ due missing (
                nack_loop-Asked count (seq + 1) (after slots seq)
                  (after-Filled count seq slots f lo (omega arith)) (omega arith) (omega arith)))
              (λ done.
                passed count seq slots f lo (omega arith) _
                  (nack_loop-Asked count (seq + 1) slots f (omega arith) (omega arith))
                  (λ left same.
                    skip_done count seq slots f lo (omega arith) left item (same ∙ at) due done)))
          (λ later.
            if-elim (Asked (suc count) seq slots) (is_due item.when_nack_abandon now)
              ([], holding slots) _
              (λ given_up. record {
                left = slots;
                buffer = refl;
                filled = f;
                before = λ i a h. refl;
                again = rw (at, later, given_up) refl;
                asked = tt;
              })
              (λ kept.
                passed count seq slots f lo (omega arith) _
                  (nack_loop-Asked count (seq + 1) slots f (omega arith) (omega arith))
                  (λ left same.
                    skip_later count seq slots f lo (omega arith) left item (same ∙ at) later
                      kept)))

    -- `processNack` on a window asks for packets of the window only that are missing, were not asked for and
    -- are due; called again at the same time it asks for nothing, and the array stays a window.
    pub process_nack_once :
        IsLive b
        → All (AsksFor b now) (process_nack b now).0
          × ((process_nack (process_nack b now).1 now).0 ≡ [])
          × IsLive (process_nack b now).1
    process_nack_once live = elim (Option-cases b.item_list) [
      | inl empty ↦ nothing empty
      | inr (slots, e) ↦
          subst Once (ap {B = JitterBuffer D} (λ o. record b { item_list = o }) (sym e))
            (window slots (live.1 slots e))
    ]
      where
        Once : JitterBuffer D → Type 0
        Once c =
            All (AsksFor c now) (process_nack c now).0
            × ((process_nack (process_nack c now).1 now).0 ≡ [])
            × IsLive (process_nack c now).1

        nothing : b.item_list ≡ none → Once b
        nothing empty =
            subst Once (ap {B = JitterBuffer D} (λ o. record b { item_list = o }) (sym empty))
              (unfold process_nack in (tt, refl, (live.0, λ slots h. absurd (none≢some h))))

        live_with :
            (slots : Slots) → Filled b.capacity slots b.min_seq b.max_seq → IsLive (holding slots)
        live_with slots f =
            (live.0, λ other h. subst (λ s. Filled b.capacity s b.min_seq b.max_seq) (some_inj h) f)

        OnceIn : Slots → List ℕ × JitterBuffer D → Type 0
        OnceIn slots r =
            All (AsksFor (holding slots) now) r.0 × ((process_nack r.1 now).0 ≡ []) × IsLive r.1

        idle_run :
            (slots : Slots)
            → (b.min_seq == b.max_seq || not b.track.has_nack) ≡ true
            → process_nack (holding slots) now ≡ ([], holding slots)
        idle_run slots idle = unfold process_nack in rw idle refl

        busy_run :
            (slots : Slots)
            → (b.min_seq == b.max_seq || not b.track.has_nack) ≡ false
            → process_nack (holding slots) now
              ≡ nack_loop (holding slots) now (b.max_seq - b.min_seq) b.min_seq
        busy_run slots busy = unfold process_nack in rw busy refl

        window :
            (slots : Slots) → Filled b.capacity slots b.min_seq b.max_seq → Once (holding slots)
        window slots f = elim (Bool-cases (b.min_seq == b.max_seq || not b.track.has_nack)) [
          | inl idle ↦ subst (OnceIn slots) (sym (idle_run slots idle)) (
            tt,
            ap {A = List ℕ × JitterBuffer D} (λ (r : List ℕ × JitterBuffer D). r.0)
                (idle_run slots idle),
            live_with slots f,
          )
          | inr busy ↦
              let done =
                nack_loop-Asked (b.max_seq - b.min_seq) b.min_seq slots f (omega arith)
                  (omega arith) in
              subst (OnceIn slots) (sym (busy_run slots busy)) (
                done.asked,
                ap {A = JitterBuffer D} (λ (c : JitterBuffer D). (process_nack c now).0) done.buffer
                    ∙ ap {A = List ℕ × JitterBuffer D} (λ (r : List ℕ × JitterBuffer D). r.0)
                        (busy_run done.left busy)
                    ∙ done.again,
                subst IsLive (sym done.buffer) (live_with done.left done.filled),
              )
        ]
