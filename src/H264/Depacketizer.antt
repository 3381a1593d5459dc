-- ===== src/H264/Depacketizer.antt =====
-- src/depacketizer_h264.cpp and src/depacketizer_video.cpp: frames from the payloads of RTP packets.
use srtc.Common.{ℕ, zero, suc, ◌+◌, ◌*◌, ◌/◌, ◌%◌, ◌^◌, List, [], ◌∷◌, ◌++◌, length, take, drop}
use srtc.Common.{get_or, Option, none, some, Bool, true, false, ltb, leb, ◌==◌, ◌&&◌, ◌||◌}
use srtc.Common.{if◌then◌else◌}
use srtc.H264.{
  packet_stap_a, packet_fu_a, sps, pps, key_frame, non_key_frame, is_slice_nalu,
  is_slice_frame_start,
}
use srtc.Jitter.{PacketKind, standalone, start, middle, last, JitterBufferItem}
use srtc.Jitter

-- The bits of `mHaveBits` by name.
pub record DepacketizerH264 : Type 0 where
  pub have_sps : Bool
  pub have_pps : Bool
  pub have_key : Bool
  pub frame_buffer : List ℕ
  pub last_rtp_timestamp : ℕ

unfoldable pub new_depacketizer : DepacketizerH264
new_depacketizer = record {
  have_sps = false;
  have_pps = false;
  have_key = false;
  frame_buffer = [];
  last_rtp_timestamp = 0;
}

-- `reset` gives every field its first value.
unfoldable pub reset : DepacketizerH264 → DepacketizerH264
unfolding new_depacketizer
reset d = new_depacketizer

abbrev annex_b : List ℕ
annex_b = 0 ∷ 0 ∷ 0 ∷ 1 ∷ []

abbrev have_all : DepacketizerH264 → Bool
have_all d = d.have_sps && d.have_pps && d.have_key

-- The wait for a key frame: `none` where the unit is dropped.
unfoldable await_key_frame : DepacketizerH264 → ℕ → Option DepacketizerH264
await_key_frame d nalu_type =
    if have_all d
    then some d
    else if nalu_type == sps
    then some (record d { have_sps = true })
    else if nalu_type == pps
    then some (record d { have_pps = true })
    else if nalu_type == key_frame
    then some (record d { have_key = true })
    else if is_slice_nalu nalu_type
    then none
    else some d

-- A unit joins the frame of its timestamp; the marker ends the frame.
unfoldable pub emit :
    DepacketizerH264 → JitterBufferItem → List ℕ → List (List ℕ) × DepacketizerH264
emit d packet nalu =
    let before = if d.last_rtp_timestamp == packet.rtp_timestamp_ext then d.frame_buffer else [] in
    let frame = before ++ annex_b ++ nalu in
    let d' = record d { last_rtp_timestamp = packet.rtp_timestamp_ext } in
    if packet.marker
    then (frame ∷ [], record d' { frame_buffer = [] })
    else ([], record d' { frame_buffer = frame })

unfoldable pub extract_impl :
    DepacketizerH264 → JitterBufferItem → List ℕ → List (List ℕ) × DepacketizerH264
unfolding await_key_frame emit
extract_impl d packet [] = ([], d)
extract_impl d packet (first ∷ rest) = elim (await_key_frame d (first % 32)) [
  | none ↦ ([], d)
  | some d' ↦ emit d' packet (first ∷ rest)
]

-- What `extract` keeps from packet to packet: the frames so far, and the buffer of a fragmented unit with
-- its writer, which are there together. `extractImpl` copies what it is given, so that the buffer of a unit
-- that is complete keeps its bytes.
pub record Extraction : Type 0 where
  pub out : List (List ℕ)
  pub fu_buf : Option (List ℕ)
  pub state : DepacketizerH264

unfoldable pub add_nalu : Extraction → JitterBufferItem → List ℕ → Extraction
unfolding extract_impl
add_nalu x packet nalu =
    let (frames, state) = extract_impl x.state packet nalu in
    record x { out = x.out ++ frames; state = state }

-- The units of an aggregation packet; each round takes two bytes at least.
unfoldable pub stap_a_loop : ℕ → Extraction → JitterBufferItem → List ℕ → Extraction
unfolding add_nalu
stap_a_loop zero x packet bytes = x
stap_a_loop (suc fuel) x packet (high ∷ low ∷ rest) =
    let size = high * 2 ^ 8 + low in
    let later = stap_a_loop fuel (add_nalu x packet (take size rest)) packet (drop size rest) in
    if leb size (length rest) && ltb 0 size then later else x
stap_a_loop (suc fuel) x packet bytes = x

-- The buffer after a start flag.
unfoldable pub fu_start : Option (List ℕ) → ℕ → ℕ → Option (List ℕ)
fu_start fu_buf nri fu_header =
    if fu_header / 2 ^ 7 % 2 == 1 then some ((nri + fu_header % 32) ∷ []) else fu_buf

-- A write by a writer that is not there crashes.
unfoldable pub fu_write : Option (List ℕ) → List ℕ → Option (Option (List ℕ))
fu_write fu_buf [] = some fu_buf
fu_write none (byte ∷ bytes) = none
fu_write (some buf) (byte ∷ bytes) = some (some (buf ++ (byte ∷ bytes)))

unfoldable pub fu_end : Extraction → JitterBufferItem → ℕ → Option (List ℕ) → Extraction
unfolding add_nalu
fu_end x packet fu_header none = record x { fu_buf = none }
fu_end x packet fu_header (some buf) =
    if fu_header / 2 ^ 6 % 2 == 1
    then add_nalu (record x { fu_buf = some buf }) packet buf
    else record x { fu_buf = some buf }

unfoldable pub fu_a : Extraction → JitterBufferItem → ℕ → ℕ → List ℕ → Option Extraction
unfolding fu_start fu_write fu_end
fu_a x packet nri fu_header bytes = elim (fu_write (fu_start x.fu_buf nri fu_header) bytes) [
  | none ↦ none
  | some fu_buf ↦ some (fu_end x packet fu_header fu_buf)
]

-- One packet of more than one byte; `none` is the crash.
unfoldable pub extract_payload : Extraction → JitterBufferItem → List ℕ → Option Extraction
unfolding stap_a_loop fu_a add_nalu
extract_payload x packet (indicator ∷ second ∷ rest) =
    let nri = indicator / 32 % 4 * 32 in
    let type = indicator % 32 in
    if type == packet_stap_a
    then some (stap_a_loop (length rest + 1) x packet (second ∷ rest))
    else if type == packet_fu_a
    then fu_a x packet nri second rest
    else if ltb type 23
    then some (add_nalu x packet (indicator ∷ second ∷ rest))
    else some x
extract_payload x packet bytes = some x

unfoldable pub extract_loop : Extraction → List JitterBufferItem → Option Extraction
unfolding extract_payload
extract_loop x [] = some x
extract_loop x (packet ∷ rest) = elim (extract_payload x packet packet.payload) [
  | none ↦ none
  | some x' ↦ extract_loop x' rest
]

unfoldable pub extract :
    DepacketizerH264 → List JitterBufferItem → Option (List (List ℕ) × DepacketizerH264)
unfolding extract_loop
extract d packets = elim (extract_loop (record { out = []; fu_buf = none; state = d }) packets) [
  | none ↦ none
  | some x ↦ some (x.out, x.state)
]

-- Where a frame starts.
unfoldable pub is_frame_start_impl : ℕ → List ℕ → Bool
is_frame_start_impl nalu_type bytes =
    nalu_type == sps || (nalu_type == non_key_frame && is_slice_frame_start bytes)

unfoldable pub stap_a_starts : ℕ → List ℕ → Bool
unfolding is_frame_start_impl
stap_a_starts zero bytes = false
stap_a_starts (suc fuel) (high ∷ low ∷ rest) =
    let size = high * 2 ^ 8 + low in
    let later = stap_a_starts fuel (drop size rest) in
    if leb size (length rest) && ltb 0 size
    then (ltb 1 size && is_frame_start_impl (get_or rest 0 0 % 32) (drop 1 (take size rest)))
      || later
    else false
stap_a_starts (suc fuel) bytes = false

unfoldable is_frame_start : List ℕ → Bool
unfolding stap_a_starts is_frame_start_impl
is_frame_start (indicator ∷ second ∷ rest) =
    let type = indicator % 32 in
    if type == packet_stap_a
    then stap_a_starts (length rest + 1) (second ∷ rest)
    else if type == packet_fu_a
    then second / 2 ^ 7 % 2 == 1 && is_frame_start_impl (second % 32) rest
    else if leb type 23
    then is_frame_start_impl type (second ∷ rest)
    else false
is_frame_start bytes = false

-- `DepacketizerVideo::getPacketKind`
unfoldable pub get_packet_kind : List ℕ → Bool → PacketKind
unfolding is_frame_start
get_packet_kind payload marker =
    if is_frame_start payload
    then (if marker then standalone else start)
    else if marker
    then last
    else middle

-- What the jitter buffer uses. Where `extract` crashes, it gives nothing here.
unfoldable pub depacketizer : Jitter.Depacketizer DepacketizerH264
unfolding get_packet_kind reset extract
depacketizer = record {
  get_packet_kind = λ d. get_packet_kind;
  reset = reset;
  extract = λ d packets. elim (extract d packets) [ none ↦ ([], d) | some r ↦ r ];
}
