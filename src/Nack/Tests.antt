-- ===== src/Nack/Tests.antt =====
-- Loss reports at concrete inputs, over the end of a cycle.
use srtc.Common.{◌+◌, ◌^◌, ◌≡◌, refl, [], ◌∷◌, arith}
use srtc.Nack.{compress_nack_list, compress_from, set_flag, distance, all_missing}
use srtc.Nack.RoundTrip.{low_halves, all_missing-compress_nack_list}

two_reports : compress_nack_list (10 ∷ 12 ∷ 26 ∷ 27 ∷ []) ≡ (10, 2 + 2 ^ 15) ∷ (27, 0) ∷ []
unfolding compress_nack_list compress_from set_flag distance
two_reports = refl

all_missing-compress_nack_list_example :
    all_missing (compress_nack_list (low_halves (65530 ∷ 65535 ∷ 65540 ∷ 66000 ∷ [])))
    ≡ low_halves (65530 ∷ 65535 ∷ 65540 ∷ 66000 ∷ [])
all_missing-compress_nack_list_example =
    all_missing-compress_nack_list 65530 (65535 ∷ 65540 ∷ 66000 ∷ [])
      (omega arith, omega arith, (omega arith, omega arith, (omega arith, omega arith, tt)))
