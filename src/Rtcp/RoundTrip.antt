-- ===== src/Rtcp/RoundTrip.antt =====
-- `generate`, `RtcpPacketMulti` and `fromUdpPacket` of src/rtcp_packet.cpp, one after the other.
use srtc.Common.{
  ℕ, zero, suc, ◌+◌, ◌-◌, ◌*◌, ◌/◌, ◌%◌, ◌^◌, ◌≤◌, ◌<◌, ◌≡◌, refl, ap, sym, subst, ◌∙◌, List, [],
  ◌∷◌, ◌++◌,
}
use srtc.Common.{
  All, length, arith, length-append, ltb-false, false, take-append, drop-append, ◌==◌, Option, some,
  append_assoc, append-nil,
}
use srtc.Bytes.Writer.{write, write_u16, write_u32}
use srtc.Rtp.Fields.{fill_done}
use srtc.Rtcp.{RtcpPacket, generate, prepend, packets_loop, from_udp_packet, combine, unpad}

-- A packet that a datagram can carry: whole words, and a length that fits 16 bits.
pub record Carries (p : RtcpPacket) : Type 0 where
  pub count : p.rc < 32
  pub type : p.payload_id < 256
  pub source : p.ssrc < 2 ^ 32
  pub words : length p.payload % 4 ≡ 0
  pub short : length p.payload < 4 * 65535

abbrev words_of : RtcpPacket → ℕ
words_of p = length p.payload / 4 + 1

-- The bytes of a packet that fits.
abbrev bytes_of : RtcpPacket → List ℕ → List ℕ
bytes_of p rest =
    (128 + p.rc)
    ∷ p.payload_id
    ∷ (words_of p / 2 ^ 8 % 256)
    ∷ (words_of p % 256)
    ∷ (p.ssrc / 2 ^ 24 % 256)
    ∷ (p.ssrc / 2 ^ 16 % 256)
    ∷ (p.ssrc / 2 ^ 8 % 256)
    ∷ (p.ssrc % 256)
    ∷ (p.payload ++ rest)

header_bytes :
    (p : RtcpPacket)
    → Carries p
    → ((2 * 2 ^ 14 + p.rc % 32 * 2 ^ 8 + p.payload_id) / 2 ^ 8 % 256 ≡ 128 + p.rc)
      × ((2 * 2 ^ 14 + p.rc % 32 * 2 ^ 8 + p.payload_id) % 256 ≡ p.payload_id)
      × ((2 + 2 + 4 + length p.payload + 3) / 4 - 1 ≡ words_of p)
header_bytes p c =
    let count = c.count in
    let type = c.type in let words = c.words in (omega arith, omega arith, omega arith)

generate-bytes :
    (p : RtcpPacket) → Carries p → (rest : List ℕ) → generate p ++ rest ≡ bytes_of p rest
unfolding generate write write_u16 write_u32
generate-bytes p c rest =
    let (hi, lo, words) = header_bytes p c in
    let whole = c.words in
    ap (λ xs. xs ++ rest) (fill_done 3 _ (2 + 2 + 4 + length p.payload) (omega arith))
    ∙ rw (hi, lo, words) refl

-- One round of the parser.
abbrev len : RtcpPacket → ℕ
len p = (words_of p / 2 ^ 8 % 256 * 2 ^ 8 + words_of p % 256 + 1) * 4

length_field : (p : RtcpPacket) → Carries p → len p ≡ length p.payload + 8
length_field p c = let words = c.words in let short = c.short in omega arith

module _ (p : RtcpPacket) (c : Carries p) (fuel : ℕ) (rest : List ℕ) where
  source_field :
      p.ssrc / 2 ^ 24 % 256 * 2 ^ 24
        + p.ssrc / 2 ^ 16 % 256 * 2 ^ 16
        + p.ssrc / 2 ^ 8 % 256 * 2 ^ 8
        + p.ssrc % 256
      ≡ p.ssrc
  source_field = let source = c.source in omega arith

  no_padding : ((128 + p.rc) / 32 % 2 == 1) ≡ false
  no_padding = let count = c.count in ground arith

  pub packets_loop-bytes :
      packets_loop (suc fuel) (bytes_of p rest) ≡ prepend p (packets_loop fuel rest)
  unfolding packets_loop unpad
  packets_loop-bytes =
      let count = c.count in
      rw
        (
          ltb-false (length (bytes_of p rest)) (len p)
              (omega (arith, length-append p.payload rest, length_field p c)),
          ltb-false (len p) 8 (omega (arith, length_field p c)),
          source_field,
          no_padding,
          take-append p.payload rest (len p - 8) (omega (arith, length_field p c)),
          drop-append p.payload rest (len p - 8) (omega (arith, length_field p c)),
          packets_loop,
        )
        (ap (λ n. prepend (record p { rc = n }) (packets_loop fuel rest)) (omega arith))

bytes_of-fuel : (p : RtcpPacket) (rest : List ℕ) → length rest < length (bytes_of p rest)
bytes_of-fuel p rest = omega (arith, length-append p.payload rest)

-- The packets in front of what comes of the rest.
abbrev pub prepend_all : List RtcpPacket → Option (List RtcpPacket) → Option (List RtcpPacket)
prepend_all [] answer = answer
prepend_all (p ∷ ps) answer = prepend p (prepend_all ps answer)

-- Packets with a tail behind them, of which the parser makes `answer`. Any fuel at least the length is enough.
module _ (tail : List ℕ) (answer : Option (List RtcpPacket))
    (answers : (fuel : ℕ) → length tail ≤ fuel → packets_loop fuel tail ≡ answer) where
  pub packets_loop-combine :
      (ps : List RtcpPacket)
      → All Carries ps
      → (fuel : ℕ) → length (combine ps ++ tail) ≤ fuel
      → packets_loop fuel (combine ps ++ tail) ≡ prepend_all ps answer
  unfolding combine
  packets_loop-combine [] all fuel h = answers fuel h
  packets_loop-combine (p ∷ ps) (c, all) fuel h =
      let bytes : combine (p ∷ ps) ++ tail ≡ bytes_of p (combine ps ++ tail) =
        append_assoc (generate p) (combine ps) tail ∙ generate-bytes p c (combine ps ++ tail) in
      ap (packets_loop fuel) bytes
      ∙ later fuel (subst (λ (xs : List ℕ). length xs ≤ fuel) bytes h)
          (λ fuel' k. packets_loop-combine ps all fuel' k)
    where
      later :
          (fuel : ℕ)
          → length (bytes_of p (combine ps ++ tail)) ≤ fuel
          → ((fuel' : ℕ)
              → length (combine ps ++ tail) ≤ fuel'
              → packets_loop fuel' (combine ps ++ tail) ≡ prepend_all ps answer)
          → packets_loop fuel (bytes_of p (combine ps ++ tail)) ≡ prepend_all (p ∷ ps) answer
      later zero k rest = absurd (omega arith)
      later (suc fuel) k rest =
          packets_loop-bytes p c fuel (combine ps ++ tail)
          ∙ ap (prepend p) (rest fuel (omega (arith, bytes_of-fuel p (combine ps ++ tail))))

packets_loop-nil : (fuel : ℕ) → length {A = ℕ} [] ≤ fuel → packets_loop fuel [] ≡ some []
unfolding packets_loop
packets_loop-nil zero h = refl
packets_loop-nil (suc fuel) h = refl

prepend_all-nil : (ps : List RtcpPacket) → prepend_all ps (some []) ≡ some ps
prepend_all-nil [] = refl
prepend_all-nil (p ∷ ps) = ap (prepend p) (prepend_all-nil ps)

-- Packets whose fields fit their widths and whose payloads are whole words come out of `fromUdpPacket`
-- in their order, after `RtcpPacketMulti` has put them into one datagram.
pub from_udp_packet-combine :
    (ps : List RtcpPacket) → All Carries ps → from_udp_packet (combine ps) ≡ some ps
unfolding from_udp_packet
from_udp_packet-combine ps all =
    ap (λ (xs : List ℕ). packets_loop (length xs) xs) (sym (append-nil (combine ps)))
    ∙ packets_loop-combine [] (some []) packets_loop-nil ps all (length (combine ps ++ []))
        (omega arith)
    ∙ prepend_all-nil ps
