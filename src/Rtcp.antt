-- ===== src/Rtcp.antt =====
-- src/rtcp_packet.cpp and src/rtcp_packet_multi.cpp: control packets, one after another in a datagram.
pub mod RoundTrip
pub mod Lengths
mod Tests
use srtc.Common.{
  ℕ, zero, suc, ◌+◌, ◌-◌, ◌*◌, ◌/◌, ◌%◌, ◌^◌, List, [], ◌∷◌, ◌++◌, Bool, true, false, ◌&&◌, not,
}
use srtc.Common.{ltb, leb, ◌==◌, if◌then◌else◌, length, take, drop, get_or, Option, none, some}
use srtc.Bytes.Writer.{write, write_u8, write_u16, write_u32}
use srtc.Rtp.{fill_word}

pub record RtcpPacket : Type 0 where
  pub ssrc : ℕ
  pub rc : ℕ
  pub payload_id : ℕ
  pub payload : List ℕ

-- `mRC & 0x1F` is below 32, so that the `|` of the header is a sum. The loop that fills the last word
-- is the one of the RTP extension, from the same kind of size.
unfoldable pub generate : RtcpPacket → List ℕ
generate p =
    let header = 2 * 2 ^ 14 + p.rc % 32 * 2 ^ 8 + p.payload_id in
    let len_raw = 2 + 2 + 4 + length p.payload in
    let len_rtcp = (len_raw + 3) / 4 - 1 in
    let head = write_u32 (write_u16 (write_u16 [] header) len_rtcp) p.ssrc in
    fill_word 3 (write head p.payload) len_raw

-- The payload of a packet without its padding, if the flag is set and the count is in range.
unfoldable pub unpad : Bool → List ℕ → List ℕ
unpad padding payload =
    if padding && not (length payload == 0)
    then (let amount = get_or payload (length payload - 1) 0 in
        if leb amount (length payload) then take (length payload - amount) payload else payload)
    else payload

abbrev pub prepend : RtcpPacket → Option (List RtcpPacket) → Option (List RtcpPacket)
prepend p none = none
prepend p (some ps) = some (p ∷ ps)

-- The loop of `fromUdpPacket` on what is left of the datagram. The length word 0 stands for four bytes, fewer
-- than the header has: the payload then has 2 ^ 64 - 4 bytes by the wrap of `size_t`, and the allocation of
-- so many throws, which is `none` here. Otherwise a round takes the eight bytes of a header at least, so that
-- the length is fuel enough.
unfoldable pub packets_loop : ℕ → List ℕ → Option (List RtcpPacket)
packets_loop (suc fuel) (a ∷ b ∷ c ∷ d ∷ e ∷ f ∷ g ∷ h ∷ rest) =
    let len = (c * 2 ^ 8 + d + 1) * 4 in
    let bytes = a ∷ b ∷ c ∷ d ∷ e ∷ f ∷ g ∷ h ∷ rest in
    elim (ltb (length bytes) len) [
      | true ↦ some []
      | false ↦ elim (ltb len 8) [
        | true ↦ none
        | false ↦
            prepend
              (record {
                ssrc = e * 2 ^ 24 + f * 2 ^ 16 + g * 2 ^ 8 + h;
                rc = a % 32;
                payload_id = b;
                payload = unpad (a / 32 % 2 == 1) (take (len - 8) rest);
              })
              (packets_loop fuel (drop (len - 8) rest))
      ]
    ]
packets_loop _ _ = some []

unfoldable pub from_udp_packet : List ℕ → Option (List RtcpPacket)
from_udp_packet bytes = packets_loop (length bytes) bytes

-- `RtcpPacketMulti`: the packets of a list, one behind the other.
unfoldable pub combine : List RtcpPacket → List ℕ
combine [] = []
combine (p ∷ ps) = generate p ++ combine ps
