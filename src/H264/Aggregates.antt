-- ===== src/H264/Aggregates.antt =====
-- The loops of src/depacketizer_h264.cpp over the units of an aggregation packet.
use srtc.Common.{
  ℕ, zero, suc, ◌+◌, ◌*◌, ◌%◌, ◌^◌, ◌≤◌, ◌≡◌, refl, ap, List, [], ◌∷◌, length, take, drop,
}
use srtc.Common.{length-drop, get_or, Bool, false, ltb, leb, ◌&&◌, ◌||◌, if◌then◌else◌, arith}
use srtc.Jitter.{JitterBufferItem}
use srtc.H264.Depacketizer.{Extraction, add_nalu, stap_a_loop, is_frame_start_impl, stap_a_starts}

-- Any fuel that is not below the number of bytes is enough for the units of an aggregation packet.
stap_a_loop_enough :
    (fuel fuel' : ℕ) (x : Extraction) (packet : JitterBufferItem) (bytes : List ℕ)
    → length bytes ≤ fuel
    → length bytes ≤ fuel'
    → stap_a_loop fuel x packet bytes ≡ stap_a_loop fuel' x packet bytes
unfolding stap_a_loop
stap_a_loop_enough zero zero x packet bytes h h' = refl
stap_a_loop_enough zero (suc fuel') x packet [] h h' = refl
stap_a_loop_enough zero (suc fuel') x packet (a ∷ bytes) h h' = absurd (omega arith)
stap_a_loop_enough (suc fuel) zero x packet [] h h' = refl
stap_a_loop_enough (suc fuel) zero x packet (a ∷ bytes) h h' = absurd (omega arith)
stap_a_loop_enough (suc fuel) (suc fuel') x packet [] h h' = refl
stap_a_loop_enough (suc fuel) (suc fuel') x packet (a ∷ []) h h' = refl
stap_a_loop_enough (suc fuel) (suc fuel') x packet (high ∷ low ∷ rest) h h' =
    let size = high * 2 ^ 8 + low in
    ap (λ (later : Extraction). if leb size (length rest) && ltb 0 size then later else x)
      (stap_a_loop_enough fuel fuel' (add_nalu x packet (take size rest)) packet (drop size rest)
        (omega (arith, length-drop size rest)) (omega (arith, length-drop size rest)))

-- The same for the test for the start of a frame.
stap_a_starts_enough :
    (fuel fuel' : ℕ) (bytes : List ℕ)
    → length bytes ≤ fuel
    → length bytes ≤ fuel'
    → stap_a_starts fuel bytes ≡ stap_a_starts fuel' bytes
unfolding stap_a_starts
stap_a_starts_enough zero zero bytes h h' = refl
stap_a_starts_enough zero (suc fuel') [] h h' = refl
stap_a_starts_enough zero (suc fuel') (a ∷ bytes) h h' = absurd (omega arith)
stap_a_starts_enough (suc fuel) zero [] h h' = refl
stap_a_starts_enough (suc fuel) zero (a ∷ bytes) h h' = absurd (omega arith)
stap_a_starts_enough (suc fuel) (suc fuel') [] h h' = refl
stap_a_starts_enough (suc fuel) (suc fuel') (a ∷ []) h h' = refl
stap_a_starts_enough (suc fuel) (suc fuel') (high ∷ low ∷ rest) h h' =
    let size = high * 2 ^ 8 + low in
    ap
      (λ (later : Bool).
        if leb size (length rest) && ltb 0 size
        then (ltb 1 size && is_frame_start_impl (get_or rest 0 0 % 32) (drop 1 (take size rest)))
          || later
        else false)
      (stap_a_starts_enough fuel fuel' (drop size rest) (omega (arith, length-drop size rest))
        (omega (arith, length-drop size rest)))
