-- ===== src/Extended/Tests.antt =====
-- Extended counters at concrete inputs: across the end of the first cycle, and back.
use srtc.Common.{◌+◌, ◌^◌, ◌≡◌, ◌%◌, refl, arith, inl}
use srtc.Extended.{ExtendedValue, new, extend, started, extend_from}
use srtc.Extended.Recovery.{Tracks, seen, extend-Tracks, new-Tracks}

abbrev before : ExtendedValue
before = (extend (new (2 ^ 16)) 65530 7).1

before-Tracks : Tracks (2 ^ 16) before 65530
before-Tracks = (new-Tracks (2 ^ 16) (inl refl) 65530 7 (omega arith)).1

new-Tracks_example :
    ((extend (new (2 ^ 16)) 65530 7).0 ≡ 2 ^ 16 + 65530) × Tracks (2 ^ 16) before 65530
new-Tracks_example = new-Tracks (2 ^ 16) (inl refl) 65530 7 (omega arith)

across : (extend before 4 8).0 ≡ 2 ^ 17 + 4
unfolding extend started extend_from new
across = refl

extend-Tracks_example :
    ((extend before (65540 % 2 ^ 16) 8).0 ≡ 2 ^ 16 + 65540)
    × Tracks (2 ^ 16) (extend before (65540 % 2 ^ 16) 8).1 (seen (2 ^ 16) 65530 65540)
extend-Tracks_example =
    extend-Tracks (2 ^ 16) (inl refl) before 65530 65540 8 before-Tracks
      (record { ahead = omega arith; behind = omega arith }) (omega arith)
      (λ h. absurd (omega arith))
