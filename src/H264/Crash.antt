-- ===== src/H264/Crash.antt =====
-- `extract` of src/depacketizer_h264.cpp on a fragment that nothing started.
use srtc.Common.{ℕ, ◌+◌, ◌*◌, ◌/◌, ◌%◌, ◌^◌, ◌<◌, ◌≡◌, refl, ap, ◌∙◌, List, [], ◌∷◌, length}
use srtc.Common.{Option, none, some, arith, Bool, ==_true, ==_false, if◌then◌else◌}
use srtc.Jitter.{JitterBufferItem}
use srtc.H264.{packet_stap_a, packet_fu_a}
use srtc.H264.Depacketizer.{
  DepacketizerH264, Extraction, add_nalu, fu_start, fu_write, fu_end, fu_a, extract_payload,
  extract_loop, extract,
}
use srtc.H264.Fragments.{extract_payload-nalu}

fu_write-none : (bytes : List ℕ) → 0 < length bytes → fu_write none bytes ≡ none
unfolding fu_write
fu_write-none [] h = absurd (omega arith)
fu_write-none (b ∷ bs) h = refl

not_started :
    (fu_buf : Option (List ℕ)) (nri fu_header : ℕ)
    → fu_header / 2 ^ 7 % 2 ≡ 0
    → fu_start fu_buf nri fu_header ≡ fu_buf
unfolding fu_start
not_started fu_buf nri fu_header flag =
    ap (λ (c : Bool). if c then some ((nri + fu_header % 32) ∷ []) else fu_buf)
      (==_false (fu_header / 2 ^ 7 % 2) 1 (λ e. omega arith))

no_writer :
    (x : Extraction) (packet : JitterBufferItem) (nri fu_header : ℕ) (bytes : List ℕ)
    → x.fu_buf ≡ none
    → fu_header / 2 ^ 7 % 2 ≡ 0
    → 0 < length bytes
    → fu_a x packet nri fu_header bytes ≡ none
unfolding fu_a
no_writer x packet nri fu_header bytes empty flag filled =
    ap {A = Option (Option (List ℕ))} {B = Option Extraction}
      (λ (o : Option (Option (List ℕ))). elim o [
        | none ↦ none
        | some buf ↦ some (fu_end x packet fu_header buf)
      ])
      (ap (λ (buf : Option (List ℕ)). fu_write buf bytes)
          (not_started x.fu_buf nri fu_header flag ∙ empty)
        ∙ fu_write-none bytes filled)

no_buffer :
    (x : Extraction) (packet : JitterBufferItem) (indicator fu_header : ℕ) (bytes : List ℕ)
    → x.fu_buf ≡ none
    → indicator % 32 ≡ packet_fu_a
    → fu_header / 2 ^ 7 % 2 ≡ 0
    → 0 < length bytes
    → extract_payload x packet (indicator ∷ fu_header ∷ bytes) ≡ none
unfolding extract_payload
no_buffer x packet indicator fu_header bytes empty type flag filled =
    rw
      (
        ==_false (indicator % 32) packet_stap_a (λ e. omega arith),
        ==_true (indicator % 32) packet_fu_a type,
      )
      (no_writer x packet (indicator / 32 % 4 * 32) fu_header bytes empty flag filled)

-- A fragment with a body that no fragment with the start flag came before, here behind a unit in a packet
-- of its own, makes `extract` write by a writer that is not there, which crashes.
pub extract_crashes :
    (d : DepacketizerH264) (first packet : JitterBufferItem) (rest : List JitterBufferItem)
    (header byte indicator fu_header : ℕ) (unit bytes : List ℕ)
    → header % 32 < 23
    → first.payload ≡ header ∷ byte ∷ unit
    → packet.payload ≡ indicator ∷ fu_header ∷ bytes
    → indicator % 32 ≡ packet_fu_a
    → fu_header / 2 ^ 7 % 2 ≡ 0
    → 0 < length bytes
    → extract d (first ∷ packet ∷ rest) ≡ none
unfolding extract
extract_crashes d first packet rest header byte indicator fu_header unit bytes type e k fragment
      flag filled =
    let x : Extraction = record { out = []; fu_buf = none; state = d } in
    let y = add_nalu x first (header ∷ byte ∷ unit) in
    let taken : extract_payload x first first.payload ≡ some y =
      ap (extract_payload x first) e ∙ extract_payload-nalu x first header byte unit type in
    let crash : extract_payload y packet packet.payload ≡ none =
      ap (extract_payload y packet) k
      ∙ no_buffer y packet indicator fu_header bytes (unfold add_nalu in refl) fragment flag
          filled in
    ap {A = Option Extraction} {B = Option (List (List ℕ) × DepacketizerH264)}
      (λ (o : Option Extraction). elim o [ none ↦ none | some z ↦ some (z.out, z.state) ])
      (unfold extract_loop in
        (ap {A = Option Extraction} {B = Option Extraction}
            (λ (o : Option Extraction). elim o [
              | none ↦ none
              | some z ↦ extract_loop z (packet ∷ rest)
            ])
            taken
          ∙ ap {A = Option Extraction} {B = Option Extraction}
              (λ (o : Option Extraction). elim o [ none ↦ none | some z ↦ extract_loop z rest ])
              crash))
