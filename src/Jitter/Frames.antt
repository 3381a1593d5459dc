-- ===== src/Jitter/Frames.antt =====
-- `processDeque` of src/jitter_buffer.cpp: what one round of its loop does to the buffer.
use srtc.Common.{
  ℕ, zero, suc, ◌+◌, ◌-◌, ◌%◌, ◌≤◌, ◌<◌, ◌≡◌, refl, ap, sym, subst, List, [], ◌∷◌, ◌++◌, Option,
  none, some,
}
use srtc.Common.{false, arith, if-elim}
use srtc.Rtp.{Track}
use srtc.Jitter.{
  PacketKind, standalone, start, middle, last, JitterBufferItem, JitterBuffer, Slots, slots_of, put,
  set_item,
}
use srtc.Jitter.Window.{Filled, erase_first}
use srtc.Jitter.Store.{slots_of-some}
use srtc.Jitter.Consume.{is_too_late}
use srtc.Jitter.Deque.{
  EncodedFrame, frames_of, append_to_result, abs_capture_time, delete_item_list, drop_up_to,
}

-- Not before the last timestamp.
abbrev NotBefore : Option ℕ → ℕ → Type 0
NotBefore none timestamp = Unit
NotBefore (some before) timestamp = before ≤ timestamp

-- The timestamps of frames do not go back, from one last timestamp to another.
abbrev pub InOrder : Option ℕ → List EncodedFrame → Option ℕ → Type 0
InOrder before [] after = before ≡ after
InOrder before (f ∷ rest) after =
    NotBefore before f.rtp_timestamp_ext × InOrder (some f.rtp_timestamp_ext) rest after

pub InOrder-append :
    (xs ys : List EncodedFrame) (a b c : Option ℕ)
    → InOrder a xs b
    → InOrder b ys c
    → InOrder a (xs ++ ys) c
InOrder-append [] ys a b c h k = subst (λ o. InOrder o ys c) (sym h) k
InOrder-append (x ∷ xs) ys a b c (first, h) k =
    (first, InOrder-append xs ys (some x.rtp_timestamp_ext) b c h k)

frames_of-InOrder :
    (track : Track) (item last_item : JitterBufferItem) (now : ℕ) (capture : ℕ × ℕ)
    (list : List (List ℕ))
    → InOrder
        (some item.rtp_timestamp_ext)
        (frames_of track item last_item now capture list)
        (some item.rtp_timestamp_ext)
unfolding frames_of
frames_of-InOrder track item last_item now capture [] = refl
frames_of-InOrder track item last_item now capture (bytes ∷ rest) =
    (omega arith, frames_of-InOrder track item last_item now capture rest)

not_late : (o : Option ℕ) (timestamp : ℕ) → is_too_late o timestamp ≡ false → NotBefore o timestamp
unfolding is_too_late
not_late none timestamp h = tt
not_late (some before) timestamp h = ground arith

pub kind-elim {ℓ κ} :
    {B : Type ℓ} (P : B → Type κ) (kind : PacketKind) (x y z : B)
    → P x
    → P y
    → P z
    → P (elim kind [ standalone ↦ x | start ↦ y | _ ↦ z ])
kind-elim P standalone x y z h k l = h
kind-elim P start x y z h k l = k
kind-elim P middle x y z h k l = l
kind-elim P last x y z h k l = l

module _ {D : Type 0} where
  -- The array and the lower limit, and what `append_to_result` and the depacketizer change.
  abbrev pub moved : JitterBuffer D → Slots → ℕ → Option ℕ → D → JitterBuffer D
  moved b slots low after depacketizer = record b {
    item_list = some slots;
    min_seq = low;
    last_frame_timestamp = after;
    depacketizer = depacketizer;
  }

  -- A round hands out frames in order and moves the lower limit up.
  pub record Progress (b : JitterBuffer D) (r : List EncodedFrame × JitterBuffer D) : Type 0 where
    pub slots : Slots
    pub low : ℕ
    pub after : Option ℕ
    pub depacketizer : D
    pub buffer : r.1 ≡ moved b slots low after depacketizer
    pub filled : Filled b.capacity slots low b.max_seq
    pub ahead : b.min_seq < low
    pub ordered : InOrder b.last_frame_timestamp r.0 after

  delete_item_list_lem :
      (n : ℕ) (b : JitterBuffer D) (slots : Slots) (seq high : ℕ)
      → b.item_list ≡ some slots
      → Filled b.capacity slots seq high
      → n ≤ high - seq
      → (left : Slots) × (delete_item_list b n seq ≡ record b { item_list = some left })
        × Filled b.capacity left (seq + n) high
  unfolding delete_item_list
  delete_item_list_lem zero b slots seq high e f h = (
    slots,
    ap (λ o. record b { item_list = o }) e,
    subst (λ n. Filled b.capacity slots n high) (omega arith) f,
  )
  delete_item_list_lem (suc n) b slots seq high e f h =
      let erased = put (slots_of b) (seq % b.capacity) none in
      let (left, same, filled) =
        delete_item_list_lem n (set_item b seq none) erased (seq + 1) high refl
          (rw (slots_of-some b slots e) (erase_first b.capacity slots seq high f (omega arith)))
          (omega arith) in
      (left, same, subst (λ n. Filled b.capacity left n high) (omega arith) filled)

  pub drop_up_to_lem :
      (b : JitterBuffer D) (slots : Slots) (seq : ℕ)
      → b.item_list ≡ some slots
      → Filled b.capacity slots b.min_seq b.max_seq
      → b.min_seq ≤ seq
      → seq < b.max_seq
      → (left : Slots) × (drop_up_to b seq ≡ record b { item_list = some left; min_seq = seq + 1 })
        × Filled b.capacity left (seq + 1) b.max_seq
  unfolding drop_up_to
  drop_up_to_lem b slots seq e f lo hi =
      let (left, same, filled) =
        delete_item_list_lem (seq + 1 - b.min_seq) b slots b.min_seq b.max_seq e f (omega arith) in
      (
        left,
        ap {B = JitterBuffer D} (λ (c : JitterBuffer D). record c { min_seq = seq + 1 }) same,
        subst (λ n. Filled b.capacity left n b.max_seq) (omega arith) filled,
      )

  -- A round without frames.
  pub drop_up_to-Progress :
      (b : JitterBuffer D) (slots : Slots) (seq : ℕ)
      → b.item_list ≡ some slots
      → Filled b.capacity slots b.min_seq b.max_seq
      → b.min_seq ≤ seq
      → seq < b.max_seq
      → Progress b ([], drop_up_to b seq)
  drop_up_to-Progress b slots seq e f lo hi =
      let (left, same, filled) = drop_up_to_lem b slots seq e f lo hi in
      record {
        slots = left;
        low = seq + 1;
        after = b.last_frame_timestamp;
        depacketizer = b.depacketizer;
        buffer = same;
        filled = filled;
        ahead = omega arith;
        ordered = refl;
      }

  pub append_to_result_lem :
      (b : JitterBuffer D) (item last_item : JitterBufferItem) (now : ℕ) (list : List (List ℕ))
      → (after : Option ℕ) × ((append_to_result b item last_item now list).1
          ≡ record b { last_frame_timestamp = after })
        × InOrder b.last_frame_timestamp (append_to_result b item last_item now list).0 after
  unfolding append_to_result
  append_to_result_lem b item last_item now [] = (b.last_frame_timestamp, refl, refl)
  append_to_result_lem b item last_item now (bytes ∷ rest) =
      if-elim
        (λ (r : List EncodedFrame × JitterBuffer D).
          (after : Option ℕ) × (r.1 ≡ record b { last_frame_timestamp = after })
          × InOrder b.last_frame_timestamp r.0 after)
        (is_too_late b.last_frame_timestamp item.rtp_timestamp_ext) _ _
        (λ late. (b.last_frame_timestamp, refl, refl))
        (λ in_time. (
          some item.rtp_timestamp_ext,
          refl,
          start_in_order (not_late b.last_frame_timestamp item.rtp_timestamp_ext in_time),
        ))
    where
      start_in_order :
          NotBefore b.last_frame_timestamp item.rtp_timestamp_ext
          → InOrder b.last_frame_timestamp
              (frames_of b.track item last_item now
                (abs_capture_time b.abs_capture_time_extension_id item.extension)
                (bytes ∷ rest))
              (some item.rtp_timestamp_ext)
      start_in_order h =
          unfold frames_of in
          (
            h,
            frames_of-InOrder b.track item last_item now
                (abs_capture_time b.abs_capture_time_extension_id item.extension) rest,
          )
