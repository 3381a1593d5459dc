-- ===== src/Srtp/Channels.antt =====
-- The channel map, and the channels whose replay windows are well formed.
use srtc.Common.{
  ℕ, ◌-◌, ◌^◌, ◌≤◌, ◌≡◌, refl, ap₂, sym, subst, ◌∙◌, arith, true, false, List, [], ◌∷◌,
}
use srtc.Common.{
  some, ◌==◌, Bool-cases, inl, inr, ◌⊎◌, if◌then◌else◌, Option-cases, some_inj, none≢some,
}
use srtc.Replay
use srtc.Replay.{ReplayProtection, can_proceed, set_value}
use srtc.Replay.Refine.{Represents}
use srtc.Replay.Spec.{Window}
use srtc.Replay.Spec
use srtc.Replay.Window.{set_value-record_value, new-first, first, can_proceed-accepts}
use srtc.Replay.Runs.{can_proceed-set_value, constants-set_value}
use srtc.Srtp.{
  ChannelKey, ChannelValue, same_key, find, put, new_channel, ensure_srtp_channel, window_size,
}

same_key_refl : (k : ChannelKey) → same_key k k ≡ true
same_key_refl k = ground arith

same_key→eq : (j k : ChannelKey) → same_key j k ≡ true → j ≡ k
same_key→eq j k h =
    ap₂ (λ s p. record { ssrc = s; payload_id = p }) (ground (arith, h)) (ground (arith, h))

module _ (i : ChannelKey) (u : ChannelValue) (rest : List (ChannelKey × ChannelValue)) where
  put_here :
      (k : ChannelKey) (v : ChannelValue)
      → same_key i k ≡ true
      → put ((i, u) ∷ rest) k v ≡ (i, v) ∷ rest
  unfolding put
  put_here k v h = rw h refl

  put_there :
      (k : ChannelKey) (v : ChannelValue)
      → same_key i k ≡ false
      → put ((i, u) ∷ rest) k v ≡ (i, u) ∷ put rest k v
  unfolding put
  put_there k v h = rw h refl

  find_here : (k : ChannelKey) → same_key i k ≡ true → find ((i, u) ∷ rest) k ≡ some u
  unfolding find
  find_here k h = rw h refl

  find_there : (k : ChannelKey) → same_key i k ≡ false → find ((i, u) ∷ rest) k ≡ find rest k
  unfolding find
  find_there k h = rw h refl

pub find-put :
    (cs : List (ChannelKey × ChannelValue)) (k : ChannelKey) (v : ChannelValue)
    → find (put cs k v) k ≡ some v
find-put [] k v = unfold put in find_here k v [] k (same_key_refl k)
find-put ((j, u) ∷ rest) k v = elim (Bool-cases (same_key j k)) [
  | inl h ↦ rw (put_here j u rest k v h) (find_here j v rest k h)
  | inr h ↦ rw (put_there j u rest k v h) (find_there j u (put rest k v) k h ∙ find-put rest k v)
]

pub find-put_other :
    (cs : List (ChannelKey × ChannelValue)) (k : ChannelKey) (v : ChannelValue) (j : ChannelKey)
    → same_key k j ≡ false
    → find (put cs k v) j ≡ find cs j
find-put_other [] k v j d = unfold put in find_there k v [] j d
find-put_other ((i, u) ∷ rest) k v j d = elim (Bool-cases (same_key i k)) [
  | inl h ↦ rw (put_here i u rest k v h) (
      let apart : same_key i j ≡ false = rw (same_key→eq i k h) d in
      find_there i v rest j apart ∙ sym (find_there i u rest j apart))
  | inr h ↦ rw (put_there i u rest k v h) (elim (Bool-cases (same_key i j)) [
    | inl e ↦ find_here i u (put rest k v) j e ∙ sym (find_here i u rest j e)
    | inr e ↦
        find_there i u (put rest k v) j e
        ∙ find-put_other rest k v j d
        ∙ sym (find_there i u rest j e)
  ])
]

-- A replay window that is new, or that represents an abstract one.
pub record IsLive (mask : ℕ) (r : ReplayProtection) : Type 0 where
  pub same_mask : r.max_possible_value ≡ mask
  pub state : (r ≡ Replay.new mask window_size) ⊎ ((st : List ℕ) × (w : Window) × Represents r st w)

module _ (mask : ℕ) (wide : 65535 ≤ mask) where
  new-IsLive : IsLive mask (Replay.new mask window_size)
  unfolding Replay.new
  new-IsLive = record { same_mask = refl; state = inl refl }

  first_refused : (v : ℕ) → Spec.accepts mask window_size (first v) v ≡ false
  unfolding Spec.accepts Spec.moves_on Spec.rolls_over Spec.lies_behind
  first_refused v = ground arith

  from_new :
      (v : ℕ)
      → v ≤ mask
      → IsLive mask (set_value (Replay.new mask window_size) v).0
        × (can_proceed (set_value (Replay.new mask window_size) v).0 v ≡ false)
  from_new v hv =
      let (_, (_, (st, rep))) = new-first mask window_size v wide (omega arith) (omega arith) hv in
      let (same, size) = constants-set_value (Replay.new mask window_size) v in
      let mask_kept : (set_value (Replay.new mask window_size) v).0.max_possible_value ≡ mask =
        same ∙ (unfold Replay.new in refl) in
      let size_kept : (set_value (Replay.new mask window_size) v).0.size ≡ window_size =
        size ∙ (unfold Replay.new in refl) in
      (
        record { same_mask = mask_kept; state = inr (st, _, rep) },
        can_proceed-accepts rep v (omega arith)
            ∙ ap₂ (λ (m s : ℕ). Spec.accepts m s (first v) v) mask_kept size_kept
            ∙ first_refused v,
      )

  -- Recording an index that was let through keeps the window well formed, and the index is refused.
  pub set_value-IsLive :
      (r : ReplayProtection) (v : ℕ)
      → IsLive mask r
      → v ≤ mask
      → can_proceed r v ≡ true
      → IsLive mask (set_value r v).0 × (can_proceed (set_value r v).0 v ≡ false)
  set_value-IsLive r v live hv h =
      let (same, size) = constants-set_value r v in
      let same_mask = live.same_mask in
      let room : v ≤ r.max_possible_value = omega arith in
      elim (live.state) [
        | inl e ↦ rw e (from_new v hv)
        | inr (st, w, rep) ↦
            let (_, (st', rep')) = set_value-record_value rep v room h in
            (
              record { same_mask = same ∙ same_mask; state = inr (st', _, rep') },
              can_proceed-set_value v rep room h,
            )
      ]

-- The mask of a channel: control packets use the payload id 0, and media packets another.
abbrev pub mask_of : ChannelKey → ℕ
mask_of key = if key.payload_id == 0 then 2 ^ 32 - 1 else 2 ^ 16 - 1

-- Every channel has a well-formed window with the mask of its kind.
abbrev pub AllLive : List (ChannelKey × ChannelValue) → Type 0
AllLive cs =
    (k : ChannelKey) (v : ChannelValue)
    → find cs k ≡ some v
    → IsLive (mask_of k) v.replay_protection

pub mask_of-wide : (k : ChannelKey) → 65535 ≤ mask_of k
mask_of-wide k = ground arith

pub put-AllLive :
    (cs : List (ChannelKey × ChannelValue)) (k : ChannelKey) (v : ChannelValue)
    → AllLive cs
    → IsLive (mask_of k) v.replay_protection
    → AllLive (put cs k v)
put-AllLive cs k v all live j u found = elim (Bool-cases (same_key k j)) [
  | inl h ↦
      subst (λ j. find (put cs k v) j ≡ some u → IsLive (mask_of j) u.replay_protection)
        (same_key→eq k j h)
        (λ at_k.
          subst (λ x. IsLive (mask_of k) x.replay_protection)
            (some_inj (sym (find-put cs k v) ∙ at_k)) live)
        found
  | inr h ↦ all j u (sym (find-put_other cs k v j h) ∙ found)
]

-- The channel that `ensureSrtpChannel` returns is in the map, and no other channel changes.
pub record Ensured (cs : List (ChannelKey × ChannelValue)) (k : ChannelKey)
    (out : ChannelValue × List (ChannelKey × ChannelValue)) : Type 0 where
  pub live : IsLive (mask_of k) out.0.replay_protection
  pub all : AllLive out.1
  pub others : (j : ChannelKey) → same_key k j ≡ false → find out.1 j ≡ find cs j
  pub there : find out.1 k ≡ some out.0
  pub kept : (v : ChannelValue) → find cs k ≡ some v → out.0 ≡ v

pub ensure_srtp_channel-Ensured :
    (cs : List (ChannelKey × ChannelValue)) (k : ChannelKey) (mask : ℕ)
    → AllLive cs
    → mask ≡ mask_of k
    → Ensured cs k (ensure_srtp_channel cs k mask)
unfolding ensure_srtp_channel
ensure_srtp_channel-Ensured cs k mask all e = elim (Option-cases (find cs k)) [
  | inl h ↦
      let live : IsLive (mask_of k) (new_channel mask).replay_protection =
        rw e (unfold new_channel in new-IsLive (mask_of k) (mask_of-wide k)) in
      rw (h, ensure_srtp_channel)
        record {
          live = live;
          all = put-AllLive cs k (new_channel mask) all live;
          others = λ j d. find-put_other cs k (new_channel mask) j d;
          there = find-put cs k (new_channel mask);
          kept = λ v found. absurd (none≢some (sym h ∙ found));
        }
  | inr (v, h) ↦
      rw (h, ensure_srtp_channel)
        record {
          live = all k v h;
          all = all;
          others = λ j d. refl;
          there = h;
          kept = λ u found. some_inj (sym h ∙ found);
        }
]

pub ensure_there :
    (cs : List (ChannelKey × ChannelValue)) (k : ChannelKey) (mask : ℕ) (v : ChannelValue)
    → find cs k ≡ some v
    → ensure_srtp_channel cs k mask ≡ (v, cs)
unfolding ensure_srtp_channel
ensure_there cs k mask v h = rw (h, ensure_srtp_channel) refl
