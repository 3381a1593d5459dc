-- ===== src/H264/Packetizer.antt =====
-- src/packetizer_h264.cpp with src/packetizer_video.cpp and src/packetizer.cpp: the RTP packets of a frame.
use srtc.Common.{
  ℕ, zero, suc, ◌+◌, ◌-◌, ◌*◌, ◌/◌, ◌%◌, ◌^◌, min, max, List, [], ◌∷◌, ◌++◌, length, take,
}
use srtc.Common.{drop, get_or, Bool, true, false, not, ltb, leb, ◌==◌, ◌&&◌, ◌||◌, if◌then◌else◌}
use srtc.Bytes.Writer.{write, write_u8, write_u16}
use srtc.Extension
use srtc.Extension.{RtpExtension}
use srtc.Rtp.{Track, RtpPacket}
use srtc.Rtp.Source.{RtpPacketSource, get_next_sequence}
use srtc.H264.{
  packet_stap_a, packet_fu_a, sps, pps, key_frame, is_parameter_nalu, NaluParser, nalu_parser,
  has_nalu, is_at_end, next, curr_type, curr_data,
}

-- What the packetizer asks the list of extension sources for, whose state is an `E`: the padding for a
-- number of remaining bytes, and the extension of a packet by its number and whether it is of a key frame.
pub record ExtensionSources (E : Type 0) : Type 0 where
  pub get_padding : E → ℕ → ℕ × E
  pub build_extension : E → Bool → ℕ → RtpExtension × E

-- The state of the packetizer, with that of the packet source and the extension sources.
pub record PacketizerH264 (E : Type 0) : Type 0 where
  pub track : Track
  pub sps_data : List ℕ
  pub pps_data : List ℕ
  pub source : RtpPacketSource
  pub extensions : E

abbrev pub min_payload_size : ℕ
min_payload_size = 600

-- `kMaxPayloadSize` less `kHeaderSize` and the overhead, as a `size_t`.
unfoldable pub get_basic_packet_size : ℕ → ℕ
get_basic_packet_size overhead = (1200 - 12 + 2 ^ 64 - overhead) % 2 ^ 64

unfoldable pub adjust_packet_size : ℕ → ℕ → RtpExtension → ℕ
unfolding Extension.size
adjust_packet_size basic_packet_size padding extension =
    let less_padding =
      if ltb 0 padding && leb padding (basic_packet_size / 2)
      then basic_packet_size - padding
      else basic_packet_size in
    let size = Extension.size extension in
    if size == 0
    then less_padding
    else if ltb basic_packet_size (size + min_payload_size)
    then less_padding
    else (less_padding + 2 ^ 64 - size) % 2 ^ 64

abbrev packet_of :
    {E : Type 0} → PacketizerH264 E → Bool → ℕ → ℕ → ℕ → ℕ → RtpExtension → List ℕ → RtpPacket
packet_of p marker rollover sequence timestamp padding extension payload = record {
  track = p.track;
  ssrc = p.track.ssrc;
  payload_id = p.track.payload_id;
  marker = marker;
  rollover = rollover;
  sequence = sequence;
  timestamp = timestamp;
  padding_size = padding;
  payload = payload;
  extension = extension;
}

-- The parameters before a key frame, as an aggregation packet.
unfoldable stap_a_payload : List ℕ → List ℕ → List ℕ
stap_a_payload sps_data pps_data =
    let nri = max (get_or sps_data 0 0 / 32 % 4 * 32) (get_or pps_data 0 0 / 32 % 4 * 32) in
    let header = write_u8 [] (nri + packet_stap_a) in
    let with_sps = write (write_u16 header (length sps_data % 2 ^ 16)) sps_data in
    write (write_u16 with_sps (length pps_data % 2 ^ 16)) pps_data

-- The size of a fragment. A subtraction that goes below zero wraps as a `size_t`.
unfoldable pub fragment_size : ℕ → ℕ → ℕ → RtpExtension → ℕ → ℕ
unfolding adjust_packet_size
fragment_size basic packet_number padding extension curr_size =
    let size = adjust_packet_size ((basic + 2 ^ 64 - 2) % 2 ^ 64) padding extension in
    if packet_number == 0 && leb curr_size size then (curr_size + 2 ^ 64 - 10) % 2 ^ 64 else size

-- The header of a fragment: whether it is the first and the last one, and the type of the unit.
unfoldable pub fu_header_of : Bool → Bool → ℕ → ℕ
fu_header_of is_start is_end nalu_type =
    (if is_start then 2 ^ 7 else 0) + (if is_end then 2 ^ 6 else 0) + nalu_type

module _ {E : Type 0} (ext : ExtensionSources E) where
  unfoldable add_parameters : PacketizerH264 E → ℕ → List RtpPacket × PacketizerH264 E
  unfolding stap_a_payload
  add_parameters p timestamp =
      if ltb 0 (length p.sps_data) && ltb 0 (length p.pps_data)
      then (let (extension, extensions) = ext.build_extension p.extensions true 0 in
          let ((rollover, sequence), source) = get_next_sequence p.source in
          (
            packet_of p false rollover sequence timestamp 0 extension
                  (stap_a_payload p.sps_data p.pps_data)
                ∷ [],
            record p { source = source; extensions = extensions },
          ))
      else ([], p)

  -- The padding and the extension of a fragment: those of the whole unit for the first one.
  unfoldable pub fragment_extras :
      PacketizerH264 E → ℕ → Bool → ℕ → ℕ → RtpExtension → (ℕ × RtpExtension) × PacketizerH264 E
  fragment_extras p nalu_size is_key packet_number padding extension =
      if ltb 0 packet_number
      then (let (padding', extensions) = ext.get_padding p.extensions nalu_size in
          let (extension', extensions') = ext.build_extension extensions is_key packet_number in
          ((padding', extension'), record p { extensions = extensions' }))
      else ((padding, extension), p)

  -- The loop over the fragments of a unit. A round takes `write_now` bytes, so that fuel for one byte each
  -- suffices unless a fragment has no room for any.
  unfoldable pub fu_a_loop :
      ℕ
      → PacketizerH264 E
      → ℕ
      → ℕ
      → Bool
      → ℕ
      → ℕ
      → ℕ
      → List ℕ
      → ℕ
      → ℕ
      → RtpExtension
      → List RtpPacket × PacketizerH264 E
  unfolding fragment_extras fragment_size fu_header_of
  fu_a_loop zero p basic timestamp at_end nalu_size nri nalu_type curr packet_number padding
        extension =
      ([], p)
  fu_a_loop (suc fuel) p basic timestamp at_end nalu_size nri nalu_type [] packet_number padding
        extension =
      ([], p)
  fu_a_loop (suc fuel) p basic timestamp at_end nalu_size nri nalu_type (b ∷ bs) packet_number
        padding extension =
      let curr = b ∷ bs in
      let ((rollover, sequence), source) = get_next_sequence p.source in
      let ((padding', extension'), p') =
        fragment_extras (record p { source = source }) nalu_size (nalu_type == key_frame)
          packet_number padding extension in
      let size = fragment_size basic packet_number padding' extension' (length curr) in
      let is_end = leb (length curr) size in
      let fu_header = fu_header_of (packet_number == 0) is_end nalu_type in
      let write_now = min (length curr) size in
      let payload =
        write (write_u8 (write_u8 [] (nri + packet_fu_a)) fu_header) (take write_now curr) in
      let (rest, p'') =
        fu_a_loop fuel p' basic timestamp at_end nalu_size nri nalu_type (drop write_now curr)
          (packet_number + 1) padding' extension' in
      (
        packet_of p (is_end && at_end) rollover sequence timestamp padding' extension' payload
            ∷ rest,
        p'',
      )

  -- A unit that is not a parameter: whole where it fits, else in fragments.
  unfoldable pub add_nalu :
      PacketizerH264 E → ℕ → ℕ → Bool → ℕ → List ℕ → List RtpPacket × PacketizerH264 E
  unfolding get_basic_packet_size adjust_packet_size fu_a_loop
  add_nalu p overhead timestamp at_end nalu_type nalu =
      let size = length nalu in
      let (padding, extensions) = ext.get_padding p.extensions size in
      let (extension, extensions') = ext.build_extension extensions (nalu_type == key_frame) 0 in
      let p' = record p { extensions = extensions' } in
      let basic = get_basic_packet_size overhead in
      if leb size (adjust_packet_size basic padding extension)
      then (let ((rollover, sequence), source) = get_next_sequence p'.source in
          (
            packet_of p at_end rollover sequence timestamp padding extension nalu ∷ [],
            record p' { source = source },
          ))
      else if ltb 1 size
      then fu_a_loop (size - 1) p' basic timestamp at_end size (get_or nalu 0 0 / 32 % 4 * 32)
          nalu_type (drop 1 nalu) 0 padding extension
      else ([], p')

  -- One round of the loop over the units, and whether the parameters were added.
  unfoldable generate_nalu :
      PacketizerH264 E → ℕ → ℕ → Bool → NaluParser → (List RtpPacket × Bool) × PacketizerH264 E
  unfolding curr_type curr_data is_at_end is_parameter_nalu add_parameters add_nalu
  generate_nalu p overhead timestamp added parser =
      let nalu_type = curr_type parser in
      let nalu = curr_data parser in
      if nalu_type == sps
      then (([], added), record p { sps_data = nalu })
      else if nalu_type == pps
      then (([], added), record p { pps_data = nalu })
      else (let (parameters, p') =
            if nalu_type == key_frame && not added then add_parameters p timestamp else ([], p) in
          let (packets, p'') = add_nalu p' overhead timestamp (is_at_end parser) nalu_type nalu in
          ((parameters ++ packets, nalu_type == key_frame || added), p''))

  unfoldable generate_loop :
      ℕ → PacketizerH264 E → ℕ → ℕ → Bool → NaluParser → List RtpPacket × PacketizerH264 E
  unfolding has_nalu next generate_nalu
  generate_loop zero p overhead timestamp added parser = ([], p)
  generate_loop (suc fuel) p overhead timestamp added parser =
      let ((packets, added'), p') = generate_nalu p overhead timestamp added parser in
      let (rest, p'') = generate_loop fuel p' overhead timestamp added' (next parser) in
      if has_nalu parser then (packets ++ rest, p'') else ([], p)

  -- `timestamp` is the frame's, which the time source gives. Each round moves past a start code.
  unfoldable pub generate : PacketizerH264 E → ℕ → ℕ → List ℕ → List RtpPacket × PacketizerH264 E
  unfolding nalu_parser generate_loop
  generate p overhead timestamp frame =
      generate_loop (length frame) p overhead timestamp false (nalu_parser frame)

-- `setCodecSpecificData`: the last SPS and PPS of the buffers.
unfoldable csd_loop : {E : Type 0} → ℕ → PacketizerH264 E → NaluParser → PacketizerH264 E
unfolding has_nalu next curr_type curr_data
csd_loop zero p parser = p
csd_loop (suc fuel) p parser =
    let p' =
      if curr_type parser == sps
      then record p { sps_data = curr_data parser }
      else if curr_type parser == pps
      then record p { pps_data = curr_data parser }
      else p in
    let rest = csd_loop fuel p' (next parser) in if has_nalu parser then rest else p

unfoldable csd_buffers : {E : Type 0} → PacketizerH264 E → List (List ℕ) → PacketizerH264 E
unfolding csd_loop nalu_parser
csd_buffers p [] = p
csd_buffers p (item ∷ rest) = csd_buffers (csd_loop (length item) p (nalu_parser item)) rest

unfoldable set_codec_specific_data :
    {E : Type 0} → PacketizerH264 E → List (List ℕ) → PacketizerH264 E
unfolding csd_buffers
set_codec_specific_data p csd = csd_buffers (record p { sps_data = []; pps_data = [] }) csd

unfoldable key_frame_loop : ℕ → NaluParser → Bool
unfolding has_nalu next curr_type
key_frame_loop zero parser = false
key_frame_loop (suc fuel) parser =
    has_nalu parser && (curr_type parser == key_frame || key_frame_loop fuel (next parser))

unfoldable is_key_frame : List ℕ → Bool
unfolding key_frame_loop nalu_parser
is_key_frame frame = key_frame_loop (length frame) (nalu_parser frame)
