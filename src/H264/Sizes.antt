-- ===== src/H264/Sizes.antt =====
-- src/packetizer_video.cpp and src/packetizer_h264.cpp: the sizes of packets and fragments.
use srtc.Common.{ℕ, ◌+◌, ◌-◌, ◌/◌, ◌%◌, ◌^◌, ◌≤◌, ◌<◌, ◌≡◌, arith}
use srtc.Common.{Bool, true, false, ltb, leb, ◌==◌, ◌&&◌, if-elim, if◌then◌else◌}
use srtc.Extension
use srtc.Extension.{RtpExtension}
use srtc.H264.Packetizer.{min_payload_size, adjust_packet_size, fragment_size}

-- Between the two bounds.
abbrev Within : ℕ → ℕ → ℕ → Type 0
Within low high n = (low ≤ n) × (n ≤ high)

-- For a basic size of 600 bytes at least and padding that fits a byte, the size that is left for the
-- payload after padding and extension is 345 bytes at least, and at most the basic size.
pub adjust_packet_size-Within :
    (basic padding : ℕ) (extension : RtpExtension)
    → 600 ≤ basic
    → basic < 2 ^ 64
    → padding ≤ 255
    → Within 345 basic (adjust_packet_size basic padding extension)
unfolding adjust_packet_size
adjust_packet_size-Within basic padding extension h k l =
    less (ltb 0 padding && leb padding (basic / 2)) (basic - padding) (omega arith) (omega arith)
  where
    less :
        (c : Bool) (cut : ℕ)
        → basic ≤ cut + 255
        → cut ≤ basic
        → Within 345 basic (
            let less_padding = if c then cut else basic in
            let size = Extension.size extension in
            if size == 0
            then less_padding
            else if ltb basic (size + min_payload_size)
            then less_padding
            else (less_padding + 2 ^ 64 - size) % 2 ^ 64)
    less true cut lo hi = ground arith
    less false cut lo hi = ground arith

abbrev IsPart : ℕ → ℕ → Type 0
IsPart curr size = (0 < size) × (size < curr)

-- The first fragment of a unit that does not fit into a packet leaves some of it over.
pub fragment_size-IsPart :
    (basic padding : ℕ) (extension : RtpExtension) (curr : ℕ)
    → 602 ≤ basic
    → basic < 2 ^ 64
    → padding ≤ 255
    → adjust_packet_size basic padding extension ≤ curr
    → IsPart curr (fragment_size basic 0 padding extension curr)
unfolding fragment_size
fragment_size-IsPart basic padding extension curr h k l over =
    let room = adjust_packet_size-Within basic padding extension (omega arith) k l in
    let less : (basic + 2 ^ 64 - 2) % 2 ^ 64 ≡ basic - 2 = omega arith in
    rw less (
      let size = adjust_packet_size (basic - 2) padding extension in
      let inner =
        adjust_packet_size-Within (basic - 2) padding extension (omega arith) (omega arith) l in
      if-elim (IsPart curr) (leb curr size) ((curr + 2 ^ 64 - 10) % 2 ^ 64) size
        (λ fits. let fits' : curr ≤ size = ground arith in (omega arith, omega arith))
        (λ large. (omega arith, ground arith)))

-- A later one takes some bytes.
pub later_fragment-lt :
    (basic n padding : ℕ) (extension : RtpExtension) (curr : ℕ)
    → 602 ≤ basic
    → basic < 2 ^ 64
    → padding ≤ 255
    → 0 < n
    → 0 < fragment_size basic n padding extension curr
unfolding fragment_size
later_fragment-lt basic n padding extension curr h k l later =
    let less : (basic + 2 ^ 64 - 2) % 2 ^ 64 ≡ basic - 2 = omega arith in
    rw less (
      let inner =
        adjust_packet_size-Within (basic - 2) padding extension (omega arith) (omega arith) l in
      if-elim (λ n. 0 < n) (n == 0 && leb curr (adjust_packet_size (basic - 2) padding extension)) _
        _ (λ first. absurd (ground arith)) (λ other. omega arith))
