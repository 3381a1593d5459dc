-- ===== src/Rtcp/Lengths.antt =====
-- The length words of control packets in src/rtcp_packet.cpp.
use srtc.Common.{
  ℕ, zero, suc, ◌+◌, ◌-◌, ◌*◌, ◌^◌, ◌≤◌, ◌<◌, ◌≡◌, refl, ap, sym, ◌∙◌, List, [], ◌∷◌, ◌++◌,
}
use srtc.Common.{
  All, length, take, drop, length-drop, ◌==◌, ◌/◌, ◌%◌, arith, ltb, ltb-false, Option, none, some,
  true, false,
}
use srtc.Rtcp.{RtcpPacket, unpad, prepend, packets_loop, from_udp_packet, combine}
use srtc.Rtcp.RoundTrip.{Carries, prepend_all, packets_loop-combine}

-- A header with the length word 0.
abbrev pub no_length : ℕ → ℕ → ℕ → ℕ → ℕ → ℕ → List ℕ → List ℕ
no_length a b e f g h rest = a ∷ b ∷ 0 ∷ 0 ∷ e ∷ f ∷ g ∷ h ∷ rest

packets_loop-no_length :
    (a b e f g h : ℕ) (rest : List ℕ) (fuel : ℕ)
    → length (no_length a b e f g h rest) ≤ fuel
    → packets_loop fuel (no_length a b e f g h rest) ≡ none
unfolding packets_loop
packets_loop-no_length a b e f g h rest zero k = absurd (omega arith)
packets_loop-no_length a b e f g h rest (suc fuel) k =
    rw (ltb-false (length (no_length a b e f g h rest)) 4 (omega arith), packets_loop) refl

prepend_all-none : (ps : List RtcpPacket) → prepend_all ps none ≡ none
prepend_all-none [] = refl
prepend_all-none (p ∷ ps) = ap (prepend p) (prepend_all-none ps)

-- A datagram in which a header with the length word 0 follows any packets that fit, whatever its other bytes
-- and what comes behind it, makes `fromUdpPacket` ask for a payload of 2 ^ 64 - 4 bytes, which throws.
pub from_udp_packet_crashes :
    (ps : List RtcpPacket) (a b e f g h : ℕ) (rest : List ℕ)
    → All Carries ps
    → from_udp_packet (combine ps ++ no_length a b e f g h rest) ≡ none
unfolding from_udp_packet
from_udp_packet_crashes ps a b e f g h rest all =
    packets_loop-combine (no_length a b e f g h rest) none (packets_loop-no_length a b e f g h rest)
      ps all (length (combine ps ++ no_length a b e f g h rest)) (omega arith)
    ∙ prepend_all-none ps

-- Fewer bytes than a header has end the loop.
packets_loop-short :
    (fuel : ℕ) (bytes : List ℕ) → length bytes < 8 → packets_loop fuel bytes ≡ some []
unfolding packets_loop
packets_loop-short zero bytes k = refl
packets_loop-short (suc fuel) [] k = refl
packets_loop-short (suc fuel) (a ∷ []) k = refl
packets_loop-short (suc fuel) (a ∷ b ∷ []) k = refl
packets_loop-short (suc fuel) (a ∷ b ∷ c ∷ []) k = refl
packets_loop-short (suc fuel) (a ∷ b ∷ c ∷ d ∷ []) k = refl
packets_loop-short (suc fuel) (a ∷ b ∷ c ∷ d ∷ e ∷ []) k = refl
packets_loop-short (suc fuel) (a ∷ b ∷ c ∷ d ∷ e ∷ f ∷ []) k = refl
packets_loop-short (suc fuel) (a ∷ b ∷ c ∷ d ∷ e ∷ f ∷ g ∷ []) k = refl
packets_loop-short (suc fuel) (a ∷ b ∷ c ∷ d ∷ e ∷ f ∷ g ∷ h ∷ rest) k = absurd (omega arith)

ended :
    (fuel fuel' : ℕ) (bytes : List ℕ)
    → length bytes < 8
    → packets_loop fuel bytes ≡ packets_loop fuel' bytes
ended fuel fuel' bytes k = packets_loop-short fuel bytes k ∙ sym (packets_loop-short fuel' bytes k)

-- Any fuel that is not below the number of bytes is enough: the loop ends by its own test.
packets_loop_enough :
    (fuel fuel' : ℕ) (bytes : List ℕ)
    → length bytes ≤ fuel
    → length bytes ≤ fuel'
    → packets_loop fuel bytes ≡ packets_loop fuel' bytes
unfolding packets_loop
packets_loop_enough zero fuel' bytes k k' = ended zero fuel' bytes (omega arith)
packets_loop_enough (suc fuel) zero bytes k k' = ended (suc fuel) zero bytes (omega arith)
packets_loop_enough (suc fuel) (suc fuel') [] k k' = ended (suc fuel) (suc fuel') [] (omega arith)
packets_loop_enough (suc fuel) (suc fuel') (a ∷ []) k k' =
    ended (suc fuel) (suc fuel') (a ∷ []) (omega arith)
packets_loop_enough (suc fuel) (suc fuel') (a ∷ b ∷ []) k k' =
    ended (suc fuel) (suc fuel') (a ∷ b ∷ []) (omega arith)
packets_loop_enough (suc fuel) (suc fuel') (a ∷ b ∷ c ∷ []) k k' =
    ended (suc fuel) (suc fuel') (a ∷ b ∷ c ∷ []) (omega arith)
packets_loop_enough (suc fuel) (suc fuel') (a ∷ b ∷ c ∷ d ∷ []) k k' =
    ended (suc fuel) (suc fuel') (a ∷ b ∷ c ∷ d ∷ []) (omega arith)
packets_loop_enough (suc fuel) (suc fuel') (a ∷ b ∷ c ∷ d ∷ e ∷ []) k k' =
    ended (suc fuel) (suc fuel') (a ∷ b ∷ c ∷ d ∷ e ∷ []) (omega arith)
packets_loop_enough (suc fuel) (suc fuel') (a ∷ b ∷ c ∷ d ∷ e ∷ f ∷ []) k k' =
    ended (suc fuel) (suc fuel') (a ∷ b ∷ c ∷ d ∷ e ∷ f ∷ []) (omega arith)
packets_loop_enough (suc fuel) (suc fuel') (a ∷ b ∷ c ∷ d ∷ e ∷ f ∷ g ∷ []) k k' =
    ended (suc fuel) (suc fuel') (a ∷ b ∷ c ∷ d ∷ e ∷ f ∷ g ∷ []) (omega arith)
packets_loop_enough (suc fuel) (suc fuel') (a ∷ b ∷ c ∷ d ∷ e ∷ f ∷ g ∷ h ∷ rest) k k' =
    let left = drop ((c * 2 ^ 8 + d + 1) * 4 - 8) rest in
    let same : packets_loop fuel left ≡ packets_loop fuel' left =
      packets_loop_enough fuel fuel' left
        (omega (arith, length-drop ((c * 2 ^ 8 + d + 1) * 4 - 8) rest))
        (omega (arith, length-drop ((c * 2 ^ 8 + d + 1) * 4 - 8) rest)) in
    (let len = (c * 2 ^ 8 + d + 1) * 4 in
      ap {A = Option (List RtcpPacket)} {B = Option (List RtcpPacket)}
        (λ (later : Option (List RtcpPacket)).
          elim (ltb (length (a ∷ b ∷ c ∷ d ∷ e ∷ f ∷ g ∷ h ∷ rest)) len) [
            | true ↦ some []
            | false ↦ elim (ltb len 8) [
              | true ↦ none
              | false ↦
                  prepend
                    (record {
                      ssrc = e * 2 ^ 24 + f * 2 ^ 16 + g * 2 ^ 8 + h;
                      rc = a % 32;
                      payload_id = b;
                      payload = unpad (a / 32 % 2 == 1) (take (len - 8) rest);
                    })
                    later
            ]
          ])
        same)
