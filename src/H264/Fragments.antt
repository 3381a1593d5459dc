-- ===== src/H264/Fragments.antt =====
-- src/depacketizer_h264.cpp on the packets of src/packetizer_h264.cpp: one fragment, and one whole unit.
use srtc.Common.{
  ℕ, ◌+◌, ◌*◌, ◌/◌, ◌%◌, ◌^◌, ◌<◌, ◌≡◌, refl, ap, ◌∙◌, List, [], ◌∷◌, ◌++◌, length, Option, none,
  some, arith, Bool, true, false, ==_false, lt→ltb, if◌then◌else◌, ◌==◌,
}
use srtc.Jitter.{JitterBufferItem, new_item}
use srtc.Rtp.{RtpPacket}
use srtc.H264.{packet_stap_a, packet_fu_a}
use srtc.H264.Depacketizer.{
  Extraction, extract_impl, emit, add_nalu, fu_start, fu_write, fu_end, fu_a, extract_payload,
}
use srtc.H264.Packetizer.{fu_header_of}

-- A received packet as the jitter buffer holds it, and what the depacketizer reads of it besides the
-- payload.
abbrev pub stamp : ℕ → Bool → JitterBufferItem
stamp timestamp marker = record new_item { rtp_timestamp_ext = timestamp; marker = marker }

abbrev pub received : ℕ → Bool → List ℕ → JitterBufferItem
received timestamp marker payload = record (stamp timestamp marker) {
  received = true;
  payload = payload;
}

abbrev pub item_of : ℕ → RtpPacket → JitterBufferItem
item_of timestamp packet = received timestamp packet.marker packet.payload

pub add_nalu-stamp :
    (x : Extraction) (timestamp : ℕ) (marker : Bool) (payload nalu : List ℕ)
    → add_nalu x (received timestamp marker payload) nalu ≡ add_nalu x (stamp timestamp marker) nalu
unfolding add_nalu extract_impl emit
add_nalu-stamp x timestamp marker payload [] = refl
add_nalu-stamp x timestamp marker payload (b ∷ bs) = refl

-- The two header bits of a unit that count, already shifted.
abbrev pub nri_of : ℕ → ℕ
nri_of header = header / 32 % 4 * 32

fu_write-some :
    (acc bytes : List ℕ) → 0 < length bytes → fu_write (some acc) bytes ≡ some (some (acc ++ bytes))
unfolding fu_write
fu_write-some acc [] h = absurd (omega arith)
fu_write-some acc (b ∷ bs) h = refl

module _ (x : Extraction) (packet : JitterBufferItem) (header nalu_type : ℕ) (bytes : List ℕ)
    (small : nalu_type < 32) (filled : 0 < length bytes) where
  -- A fragment is told by its indicator.
  pub extract_payload-fu_a :
      (fu_header : ℕ)
      → extract_payload x packet ((nri_of header + packet_fu_a) ∷ fu_header ∷ bytes)
        ≡ fu_a x packet (nri_of header) fu_header bytes
  unfolding extract_payload
  extract_payload-fu_a fu_header =
      let type : (nri_of header + packet_fu_a) % 32 ≡ 28 = omega arith in
      let nri : (nri_of header + packet_fu_a) / 32 % 4 * 32 ≡ nri_of header = omega arith in
      rw (type, nri) refl

  not_started : (is_end : Bool) → fu_header_of false is_end nalu_type / 2 ^ 7 % 2 == 1 ≡ false
  unfolding fu_header_of
  not_started true = ground arith
  not_started false = ground arith

  ends : (is_start : Bool) → fu_header_of is_start true nalu_type / 2 ^ 6 % 2 == 1 ≡ true
  unfolding fu_header_of
  ends true = ground arith
  ends false = ground arith

  goes_on : (is_start : Bool) → fu_header_of is_start false nalu_type / 2 ^ 6 % 2 == 1 ≡ false
  unfolding fu_header_of
  goes_on true = ground arith
  goes_on false = ground arith

  starts : (is_end : Bool) → fu_header_of true is_end nalu_type / 2 ^ 7 % 2 == 1 ≡ true
  unfolding fu_header_of
  starts true = ground arith
  starts false = ground arith

  type_of : (is_end : Bool) → fu_header_of true is_end nalu_type % 32 ≡ nalu_type
  unfolding fu_header_of
  type_of true = omega arith
  type_of false = omega arith

  fu_start-new :
      (is_end : Bool)
      → fu_start x.fu_buf (nri_of header) (fu_header_of true is_end nalu_type)
        ≡ some ((nri_of header + nalu_type) ∷ [])
  unfolding fu_start
  fu_start-new is_end =
      ap
        (λ (c : Bool).
          if c
          then some ((nri_of header + fu_header_of true is_end nalu_type % 32) ∷ [])
          else x.fu_buf)
        (starts is_end)
      ∙ ap (λ (n : ℕ). some ((nri_of header + n) ∷ [])) (type_of is_end)

  fu_start-old :
      (is_end : Bool)
      → fu_start x.fu_buf (nri_of header) (fu_header_of false is_end nalu_type) ≡ x.fu_buf
  unfolding fu_start
  fu_start-old is_end =
      ap
        (λ (c : Bool).
          if c
          then some ((nri_of header + fu_header_of false is_end nalu_type % 32) ∷ [])
          else x.fu_buf)
        (not_started is_end)

  module _ (acc : List ℕ) where
    written :
        (fu_header : ℕ)
        → fu_start x.fu_buf (nri_of header) fu_header ≡ some acc
        → fu_a x packet (nri_of header) fu_header bytes
          ≡ some (fu_end x packet fu_header (some (acc ++ bytes)))
    unfolding fu_a
    written fu_header e =
        ap {A = Option (Option (List ℕ))} {B = Option Extraction}
          (λ (o : Option (Option (List ℕ))). elim o [
            | none ↦ none
            | some buf ↦ some (fu_end x packet fu_header buf)
          ])
          (ap (λ (buf : Option (List ℕ)). fu_write buf bytes) e ∙ fu_write-some acc bytes filled)

    kept_open :
        (is_start : Bool)
        → fu_end x packet (fu_header_of is_start false nalu_type) (some (acc ++ bytes))
          ≡ record x { fu_buf = some (acc ++ bytes) }
    unfolding fu_end
    kept_open is_start =
        ap
          (λ (c : Bool).
            if c
            then add_nalu (record x { fu_buf = some (acc ++ bytes) }) packet (acc ++ bytes)
            else record x { fu_buf = some (acc ++ bytes) })
          (goes_on is_start)

    closed :
        (is_start : Bool)
        → fu_end x packet (fu_header_of is_start true nalu_type) (some (acc ++ bytes))
          ≡ add_nalu (record x { fu_buf = some (acc ++ bytes) }) packet (acc ++ bytes)
    unfolding fu_end
    closed is_start =
        ap
          (λ (c : Bool).
            if c
            then add_nalu (record x { fu_buf = some (acc ++ bytes) }) packet (acc ++ bytes)
            else record x { fu_buf = some (acc ++ bytes) })
          (ends is_start)

    pub fu_a-middle :
        x.fu_buf ≡ some acc
        → fu_a x packet (nri_of header) (fu_header_of false false nalu_type) bytes
          ≡ some (record x { fu_buf = some (acc ++ bytes) })
    fu_a-middle open_buf = written _ (fu_start-old false ∙ open_buf) ∙ ap some (kept_open false)

    pub fu_a-last :
        x.fu_buf ≡ some acc
        → fu_a x packet (nri_of header) (fu_header_of false true nalu_type) bytes
          ≡ some (add_nalu (record x { fu_buf = some (acc ++ bytes) }) packet (acc ++ bytes))
    fu_a-last open_buf = written _ (fu_start-old true ∙ open_buf) ∙ ap some (closed false)

  -- The first fragment starts the buffer with the unit's header.
  pub fu_a-first :
      fu_a x packet (nri_of header) (fu_header_of true false nalu_type) bytes
      ≡ some (record x { fu_buf = some (((nri_of header + nalu_type) ∷ []) ++ bytes) })
  fu_a-first =
      let acc = (nri_of header + nalu_type) ∷ [] in
      written acc (fu_header_of true false nalu_type) (fu_start-new false)
      ∙ ap some (kept_open acc true)

-- A unit in a packet of its own.
pub extract_payload-nalu :
    (x : Extraction) (packet : JitterBufferItem) (header byte : ℕ) (rest : List ℕ)
    → header % 32 < 23
    → extract_payload x packet (header ∷ byte ∷ rest)
      ≡ some (add_nalu x packet (header ∷ byte ∷ rest))
unfolding extract_payload
extract_payload-nalu x packet header byte rest h =
    rw
      (
        ==_false (header % 32) packet_stap_a (λ e. omega arith),
        ==_false (header % 32) packet_fu_a (λ e. omega arith),
        lt→ltb (header % 32) 23 h,
      )
      refl
