-- ===== src/Nack.antt =====
-- The loss reports of RTCP: `compressNackList` of src/util.cpp, which makes them, and
-- `onReceivedControlMessage_NACK` of src/peer_candidate.cpp, which takes them apart.
pub mod Flags
pub mod RoundTrip
mod Tests
use srtc.Common.{ℕ, zero, suc, ◌+◌, ◌-◌, ◌*◌, ◌/◌, ◌%◌, ◌^◌, List, [], ◌∷◌, ◌++◌, leb, ◌==◌}
use srtc.Common.{if◌then◌else◌}

-- `blp |= 1u << shift`. A shift by 32 or more, which is undefined, sets no bit.
unfoldable pub set_flag : ℕ → ℕ → ℕ
set_flag blp shift =
    if leb 16 shift then blp else if blp / 2 ^ shift % 2 == 1 then blp else blp + 2 ^ shift

-- The distance between two sequence numbers, as a `uint16_t`.
unfoldable pub distance : ℕ → ℕ → ℕ
distance seq other = (other + 2 ^ 16 - seq) % 2 ^ 16

-- The inner loop and the outer one: the numbers that a report covers join its mask.
unfoldable pub compress_from : ℕ → ℕ → List ℕ → List (ℕ × ℕ)
unfolding set_flag distance
compress_from seq blp [] = (seq, blp) ∷ []
compress_from seq blp (x ∷ rest) =
    let near = compress_from seq (set_flag blp ((x + 2 ^ 16 - seq + 2 ^ 16 - 1) % 2 ^ 16)) rest in
    let far = compress_from x 0 rest in if leb (distance seq x) 16 then near else (seq, blp) ∷ far

unfoldable pub compress_nack_list : List ℕ → List (ℕ × ℕ)
unfolding compress_from
compress_nack_list [] = []
compress_nack_list (seq ∷ rest) = compress_from seq 0 rest

-- The numbers of the bits that are set, from a bit on, with `count` bits left.
unfoldable pub missing_from : ℕ → ℕ → ℕ → ℕ → List ℕ
missing_from pid blp zero index = []
missing_from pid blp (suc count) index =
    let rest = missing_from pid blp count (index + 1) in
    if blp / 2 ^ index % 2 == 1 then (pid + index + 1) % 2 ^ 16 ∷ rest else rest

unfoldable pub missing_seq_list : ℕ × ℕ → List ℕ
unfolding missing_from
missing_seq_list (pid, blp) = pid ∷ (if blp == 0 then [] else missing_from pid blp 16 0)

-- The lists of all reports, one after the other.
unfoldable pub all_missing : List (ℕ × ℕ) → List ℕ
unfolding missing_seq_list
all_missing [] = []
all_missing (report ∷ rest) = missing_seq_list report ++ all_missing rest
