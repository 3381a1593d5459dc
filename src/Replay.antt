-- ===== src/Replay.antt =====
-- src/replay_protection.cpp and include/srtc/replay_protection.h: the sliding window that refuses
-- packet indices which were seen before.
pub mod Bitmap
pub mod Forward
pub mod Spec
pub mod Refine
pub mod Window
pub mod Runs
mod Tests
use srtc.Common.{ℕ, zero, suc, ◌+◌, ◌-◌, ◌*◌, ◌/◌, ◌%◌, Bool, true, false, not, ◌&&◌, ◌||◌}
use srtc.Common.{Option, none, some, List, ltb, leb, ◌==◌, if◌then◌else◌, get_or, set, replicate}
use srtc.Common.Bits.{test_bit, set_bit, clear_bit}

-- `storage` is `none` for the null pointer. The four constants are fields, as in the class.
pub record ReplayProtection : Type 0 where
  pub max_possible_value : ℕ
  pub size : ℕ
  pub storage_size : ℕ
  pub max_distance_forward : ℕ
  pub cur_max : ℕ
  pub storage : Option (List ℕ)

-- The subtraction is exact where the code calls it, at `value < cur_max`.
unfoldable pub get_rollover_forward_distance : ℕ → ℕ → ℕ → ℕ
get_rollover_forward_distance max_possible_value cur_max_value value =
    max_possible_value - cur_max_value + 1 + value

unfoldable pub is_set : List ℕ → ℕ → ℕ → Bool
is_set storage storage_size value =
    test_bit (get_or storage (value / 8 % storage_size) 0) (value % 8)

unfoldable pub set_impl : List ℕ → ℕ → ℕ → List ℕ
set_impl storage storage_size value =
    let index = value / 8 % storage_size in
    set storage index (set_bit (get_or storage index 0) (value % 8))

unfoldable pub clear_impl : List ℕ → ℕ → ℕ → List ℕ
clear_impl storage storage_size value =
    let index = value / 8 % storage_size in
    set storage index (clear_bit (get_or storage index 0) (value % 8))

unfoldable pub new : ℕ → ℕ → ReplayProtection
new max_possible_value size = record {
  max_possible_value = max_possible_value;
  size = size;
  storage_size = (size + 8 - 1) / 8;
  max_distance_forward = size / 4;
  cur_max = 0;
  storage = none;
}

unfoldable pub can_proceed_at : ReplayProtection → List ℕ → ℕ → Bool
can_proceed_at r storage value =
    if value == r.cur_max
    then false
    else if ltb r.cur_max value
    then (if ltb r.max_distance_forward (value - r.cur_max) then false else true)
    else if leb (get_rollover_forward_distance r.max_possible_value r.cur_max value)
        r.max_distance_forward
    then true
    else if leb r.size (r.cur_max - value)
    then false
    else not (is_set storage r.storage_size value)

unfoldable pub can_proceed : ReplayProtection → ℕ → Bool
unfolding can_proceed_at
can_proceed r value = elim r.storage [ none ↦ true | some st ↦ can_proceed_at r st value ]

-- The `while` of `setForward`. The mask is `max_possible_value`, which the constructor asserts to be
-- 2 ^ 16 - 1 or 2 ^ 32 - 1, so that `& mask` is `% (mask + 1)`.
unfoldable pub forward_loop : ℕ → ℕ → ℕ → ℕ → ℕ → List ℕ → ℕ × List ℕ
forward_loop storage_size mask value zero cur st = (cur, st)
forward_loop storage_size mask value (suc fuel) cur st = elim (cur == value) [
  | true ↦ (cur, st)
  | false ↦
      forward_loop storage_size mask value fuel ((cur + 1) % (mask + 1))
        (clear_impl st storage_size cur)
]

-- The loop makes fewer than `max_distance_forward` rounds where `set` calls it.
unfoldable pub set_forward : ReplayProtection → List ℕ → ℕ → ReplayProtection
set_forward r storage value =
    let mask = r.max_possible_value in
    let (cur, st) =
      forward_loop r.storage_size mask value r.max_distance_forward ((r.cur_max + 1) % (mask + 1))
        storage in
    record r { cur_max = cur; storage = some (set_impl st r.storage_size cur) }

unfoldable set_at : ReplayProtection → List ℕ → ℕ → ReplayProtection × Bool
set_at r storage value =
    if value == r.cur_max
    then (r, false)
    else if ltb r.cur_max value
    then (if ltb r.max_distance_forward (value - r.cur_max)
        then (r, false)
        else (set_forward r storage value, true))
    else if leb (get_rollover_forward_distance r.max_possible_value r.cur_max value)
        r.max_distance_forward
    then (set_forward r storage value, true)
    else if leb r.size (r.cur_max - value)
    then (r, false)
    else (record r { storage = some (set_impl storage r.storage_size value) }, true)

-- `ReplayProtection::set`; its `assert` is a precondition of the theorems, and not a test.
unfoldable pub set_value : ReplayProtection → ℕ → ReplayProtection × Bool
unfolding set_at
set_value r value = elim r.storage [
  | none ↦ (
    record r {
      cur_max = value;
      storage = some (set_impl (replicate r.storage_size 0) r.storage_size value);
    },
    true,
  )
  | some st ↦ set_at r st value
]
