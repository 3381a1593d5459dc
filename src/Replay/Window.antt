-- ===== src/Replay/Window.antt =====
-- The operations of the bitmap window of src/replay_protection.cpp against those of the abstract one.
use srtc.Common.{ℕ, ◌+◌, ◌-◌, ◌*◌, ◌/◌, ◌%◌, ◌≤◌, ◌<◌, ◌≡◌, refl, ◌∙◌, List, arith}
use srtc.Common.{true, false, Bool, ◌==◌, some, inl, inr, ◌⊎◌}
use srtc.Common.{replicate}
use srtc.Replay.{
  ReplayProtection, set_impl, forward_loop, set_forward, set_value, new, can_proceed,
  get_rollover_forward_distance,
}
use srtc.Replay.Bitmap
use srtc.Replay.Bitmap.{IsBitmap}
use srtc.Replay.Refine
use srtc.Replay.Refine.{Config, Represents, Agrees}
use srtc.Replay.Spec
use srtc.Replay.Spec.{Window}

-- The window after the first index.
abbrev pub first : ℕ → Window
first v = record { cur = v; received = λ x. x == v }

-- The operation succeeded, and the new state represents the given abstract window.
abbrev pub Recorded : ReplayProtection × Bool → Window → Type 0
Recorded out w' = (out.1 ≡ true) × ((st' : List ℕ) × Represents out.0 st' w')

module _ {r : ReplayProtection} {st : List ℕ} {w : Window} (rep : Represents r st w) where
  open rep use {config, allocated, bitmap, same_cur, in_range, agrees}

  -- Where the bitmap represents an abstract window, `canProceed` answers for an index within the
  -- largest value as the abstract window does.
  pub can_proceed-accepts :
      (v : ℕ)
      → v ≤ r.max_possible_value
      → can_proceed r v ≡ Spec.accepts r.max_possible_value r.size w v
  unfolding can_proceed get_rollover_forward_distance Spec.accepts
  can_proceed-accepts v hv =
      ground (arith, agrees v, allocated, same_cur, config.quarter, config.wide, config.small)

  module _ (v : ℕ) (hv : v ≤ r.max_possible_value) where
    abbrev moved : ℕ × List ℕ
    moved =
        forward_loop r.storage_size r.max_possible_value v r.max_distance_forward
          ((r.cur_max + 1) % (r.max_possible_value + 1)) st

    room : r.size ≤ 8 * r.storage_size
    room = let e = config.bytes in omega arith

    moved_result : Bool → ReplayProtection × Bool
    moved_result b =
        (record r { cur_max = v; storage = some (set_impl moved.1 r.storage_size v) }, b)

    in_cycle : r.cur_max ≤ r.max_possible_value
    in_cycle = omega arith

    set_moves_on :
        r.cur_max < v → v ≤ r.cur_max + r.max_distance_forward → set_value r v ≡ moved_result true
    unfolding set_value set_forward moved_result
    set_moves_on lt near = ground (
      arith,
      allocated,
      Refine.straight-cur r.storage_size r.max_possible_value r.size r.max_distance_forward st
          bitmap room r.cur_max v hv in_cycle lt near,
    )

    set_rolls_over :
        v < r.cur_max
        → r.max_possible_value + 1 + v ≤ r.cur_max + r.max_distance_forward
        → set_value r v ≡ moved_result true
    unfolding set_value set_forward moved_result get_rollover_forward_distance
    set_rolls_over lt near = ground (
      arith,
      allocated,
      Refine.around-cur r.storage_size r.max_possible_value r.size r.max_distance_forward st bitmap
          room r.cur_max v hv in_cycle lt near,
    )

    set_behind :
        v < r.cur_max
        → r.cur_max + r.max_distance_forward < r.max_possible_value + 1 + v
        → r.cur_max < v + r.size
        → set_value r v ≡ (record r { storage = some (set_impl st r.storage_size v) }, true)
    unfolding set_value get_rollover_forward_distance
    set_behind lt far near = ground (arith, allocated)

    moved-IsBitmap : IsBitmap r.storage_size (set_impl moved.1 r.storage_size v)
    moved-IsBitmap =
        Bitmap.set_impl-IsBitmap r.storage_size moved.1
          (Refine.after-IsBitmap r.storage_size r.max_possible_value r.size r.max_distance_forward
            st bitmap room r.cur_max v hv in_cycle)
          v

    cur-Agrees : Agrees r.storage_size r.size r.cur_max st w.received
    cur-Agrees x lx nx = agrees x (omega arith) (omega arith)

    moved_represents :
        (received : ℕ → Bool)
        → Agrees r.storage_size r.size v (set_impl moved.1 r.storage_size v) received
        → Recorded (moved_result true) (record { cur = v; received = received })
    unfolding moved_result
    moved_represents received a = (
      refl,
      (
        set_impl moved.1 r.storage_size v,
        record {
          config = record {
            wide = config.wide;
            small = config.small;
            some_room = config.some_room;
            bytes = config.bytes;
            quarter = config.quarter;
          };
          allocated = refl;
          bitmap = moved-IsBitmap;
          same_cur = refl;
          in_range = hv;
          agrees = a;
        },
      ),
    )

    -- Where the value falls, in the abstract window.
    spec_moves_on :
        r.cur_max < v
        → v ≤ r.cur_max + r.max_distance_forward
        → Spec.moves_on r.max_possible_value r.size w v ≡ true
    unfolding Spec.moves_on
    spec_moves_on lt near = ground (arith, same_cur, config.quarter)

    spec_not_on : v < r.cur_max → Spec.moves_on r.max_possible_value r.size w v ≡ false
    unfolding Spec.moves_on
    spec_not_on lt = ground (arith, same_cur)

    spec_rolls_over :
        v < r.cur_max
        → r.max_possible_value + 1 + v ≤ r.cur_max + r.max_distance_forward
        → Spec.rolls_over r.max_possible_value r.size w v ≡ true
    unfolding Spec.rolls_over
    spec_rolls_over lt near = ground (arith, same_cur, config.quarter)

    spec_not_over :
        v < r.cur_max
        → r.cur_max + r.max_distance_forward < r.max_possible_value + 1 + v
        → Spec.rolls_over r.max_possible_value r.size w v ≡ false
    unfolding Spec.rolls_over
    spec_not_over lt far = ground (arith, same_cur, config.quarter)

    moves_on_case :
        r.cur_max < v
        → v ≤ r.cur_max + r.max_distance_forward
        → Recorded (set_value r v) (Spec.record_value r.max_possible_value r.size w v)
    unfolding Spec.record_value
    moves_on_case lt near =
        rw (set_moves_on lt near, spec_moves_on lt near, ← same_cur)
          (moved_represents _ (
            Refine.straight-Agrees r.storage_size r.max_possible_value r.size r.max_distance_forward
              st bitmap room r.cur_max v hv in_cycle w.received lt near cur-Agrees))

    rolls_over_case :
        v < r.cur_max
        → r.max_possible_value + 1 + v ≤ r.cur_max + r.max_distance_forward
        → Recorded (set_value r v) (Spec.record_value r.max_possible_value r.size w v)
    unfolding Spec.record_value
    rolls_over_case lt near =
        rw (set_rolls_over lt near, spec_not_on lt, spec_rolls_over lt near)
          (moved_represents _ (
            Refine.around-Agrees r.storage_size r.max_possible_value r.size r.max_distance_forward
              st bitmap room r.cur_max v hv in_cycle lt near))

    behind_case :
        v < r.cur_max
        → r.cur_max + r.max_distance_forward < r.max_possible_value + 1 + v
        → r.cur_max < v + r.size
        → Recorded (set_value r v) (Spec.record_value r.max_possible_value r.size w v)
    unfolding Spec.record_value
    behind_case lt far near =
        rw (set_behind lt far near, spec_not_on lt, spec_not_over lt far)
          (
            refl,
            (
              set_impl st r.storage_size v,
              record {
                config = record {
                  wide = config.wide;
                  small = config.small;
                  some_room = config.some_room;
                  bytes = config.bytes;
                  quarter = config.quarter;
                };
                allocated = refl;
                bitmap = Bitmap.set_impl-IsBitmap r.storage_size st bitmap v;
                same_cur = same_cur;
                in_range = in_range;
                agrees =
                    Refine.set_impl-Agrees r.storage_size r.max_possible_value r.size
                      r.max_distance_forward st bitmap room w.cur v w.received (omega arith)
                      (omega arith) agrees;
              },
            ),
          )

    -- What the answer of `canProceed` says of the place of the value.
    abbrev Place : Type 0
    Place =
        ((r.cur_max < v) × (v ≤ r.cur_max + r.max_distance_forward))
        ⊎ (((v < r.cur_max) × (r.max_possible_value + 1 + v ≤ r.cur_max + r.max_distance_forward))
            ⊎ ((v < r.cur_max)
                × (r.cur_max + r.max_distance_forward < r.max_possible_value + 1 + v)
                × (r.cur_max < v + r.size)))

    place_of_accepts : can_proceed r v ≡ true → Place
    unfolding can_proceed get_rollover_forward_distance
    place_of_accepts h = ground (arith, allocated)

  -- Where the bitmap represents an abstract window, `set` succeeds on an index in range that
  -- `canProceed` lets through, and the new bitmap represents the abstract window with that index.
  pub set_value-record_value :
      (v : ℕ)
      → v ≤ r.max_possible_value
      → can_proceed r v ≡ true
      → Recorded (set_value r v) (Spec.record_value r.max_possible_value r.size w v)
  set_value-record_value v hv h = elim (place_of_accepts v hv h) [
    | inl (lt, near) ↦ moves_on_case v hv lt near
    | inr (inl (lt, near)) ↦ rolls_over_case v hv lt near
    | inr (inr (lt, far, near)) ↦ behind_case v hv lt far near
  ]

-- The two masks that the constructor's assert allows are wide enough, and so are the sizes.
new-Config : (mask size : ℕ) → 65535 ≤ mask → size ≤ 4096 → 0 < size → Config (new mask size)
unfolding new
new-Config mask size wide small room = omega arith

-- With a mask of 65535 at least and a size from 1 to 4096, a new window lets any index in range
-- through, and recording it leaves the window of that index alone.
pub new-first :
    (mask size v : ℕ)
    → 65535 ≤ mask
    → size ≤ 4096
    → 0 < size
    → v ≤ mask
    → (can_proceed (new mask size) v ≡ true) × Recorded (set_value (new mask size) v) (first v)
unfolding new can_proceed set_value
new-first mask size v wide small room hv =
    let n : ℕ = (size + 8 - 1) / 8 in
    let b : IsBitmap n (replicate n 0) = Bitmap.replicate-IsBitmap n (omega arith) in
    (
      refl,
      (
        refl,
        (
          set_impl (replicate n 0) n v,
          record {
            config = record {
              wide = wide;
              small = small;
              some_room = room;
              bytes = omega arith;
              quarter = refl;
            };
            allocated = refl;
            bitmap = Bitmap.set_impl-IsBitmap n (replicate n 0) b v;
            same_cur = refl;
            in_range = hv;
            agrees = first_agrees n size v b (omega arith);
          },
        ),
      ),
    )
  where
    first_agrees :
        (n size v : ℕ)
        → IsBitmap n (replicate n 0)
        → size ≤ 8 * n
        → Agrees n size v (set_impl (replicate n 0) n v) (λ x. x == v)
    first_agrees n size v b room x lx nx =
        Refine.set_impl-Agrees n 0 size 0 (replicate n 0) b room v v (λ x. false) (omega arith)
          (omega arith) (λ y ly ny. Bitmap.is_set-replicate n y) x lx nx
        ∙ ground arith
