-- ===== src/Sctp/Packet/Tests.antt =====
-- SCTP packets at concrete inputs, with a sum of the bytes for a checksum.
use srtc.Common.{ℕ, ◌+◌, ◌%◌, ◌^◌, ◌<◌, ◌≡◌, List, [], ◌∷◌, arith, some, Option}
use srtc.Sctp.Packet.{Chunk, SctpPacket, new_builder, build, parse}
use srtc.Sctp.Packet.RoundTrip.{add_chunks, parse-build}
use srtc.Sctp.Packet.Total.{parse_answers}

abbrev sum : List ℕ → ℕ
sum [] = 0
sum (x ∷ xs) = (x + sum xs) % 2 ^ 32

sum_lt : (xs : List ℕ) → sum xs < 2 ^ 32
sum_lt [] = omega arith
sum_lt (x ∷ xs) = omega arith

abbrev cookie_ack : Chunk
cookie_ack = record { type = 11; flags = 0; value = [] }

abbrev message : Chunk
message = record { type = 0; flags = 3; value = 1 ∷ 2 ∷ 3 ∷ 4 ∷ 5 ∷ [] }

parse-build_example :
    parse sum (build sum (add_chunks (new_builder 5000 5001 0xcafe) (cookie_ack ∷ message ∷ [])))
    ≡ some (
        some (record {
          src_port = 5000;
          dst_port = 5001;
          verification_tag = 0xcafe;
          chunks = cookie_ack ∷ message ∷ [];
        }))
parse-build_example =
    parse-build 5000 5001 0xcafe (omega arith) (omega arith) (omega arith) sum sum_lt
      (cookie_ack ∷ message ∷ [])
      (
        record { kind = omega arith; bits = omega arith; short = omega arith },
        (record { kind = omega arith; bits = omega arith; short = omega arith }, tt),
      )

-- A chunk that announces more bytes than there are.
parse_answers_example :
    (found : Option SctpPacket) × (parse sum
        (0 ∷ 0 ∷ 0 ∷ 0 ∷ 0 ∷ 0 ∷ 0 ∷ 0 ∷ 9 ∷ 0 ∷ 0 ∷ 0 ∷ 0 ∷ 0 ∷ 0 ∷ 9 ∷ [])
      ≡ some found)
parse_answers_example =
    parse_answers sum (0 ∷ 0 ∷ 0 ∷ 0 ∷ 0 ∷ 0 ∷ 0 ∷ 0 ∷ 9 ∷ 0 ∷ 0 ∷ 0 ∷ 0 ∷ 0 ∷ 0 ∷ 9 ∷ [])
