-- ===== src/Sctp/Receive/Tests.antt =====
-- The receive buffer at concrete inputs.
use srtc.Common.{ℕ, ◌%◌, ◌^◌, ◌≡◌, refl, List, [], ◌∷◌, arith, false, ◌==◌, ◌||◌, replicate}
use srtc.Sctp.Receive.{Message, empty_buffer, receive, data_flag_e}
use srtc.Sctp.Receive.Order.{Holds, Delivered, receive-Delivered}
use srtc.Sctp.Receive.Fragments.{fragments, receive_all}
use srtc.Sctp.Receive.Waits.{Waits, last_fragment_first}
use srtc.Sctp.Receive.RoundTrip.{receive_all-fragments}

abbrev numbered : ℕ → Message
numbered i = record { ppid = 53; bytes = i ∷ [] }

empty-Holds : Holds numbered empty_buffer 0 (λ i. false)
unfolding empty_buffer
empty-Holds = record {
  next = refl;
  window = λ i h. absurd (ground (arith, h));
  held = λ i lo hi. refl;
}

receive-Delivered_example :
    Delivered numbered 0
      (λ j. j == 2 || false)
      (receive empty_buffer (2 % 2 ^ 16) 3 false 53 (2 ∷ []))
receive-Delivered_example =
    receive-Delivered numbered empty_buffer 0 2 (λ i. false) empty-Holds (omega arith) (omega arith)

empty-Waits : Waits empty_buffer 0 (record { ppid = 0; payload = []; complete = false })
unfolding empty_buffer
empty-Waits = record { next = refl; here = refl; after = refl }

abbrev long_payload : List ℕ
long_payload = replicate 3000 65

receive_all-fragments_example :
    (receive_all empty_buffer 0 false 51 (fragments false long_payload)).0
    ≡ record { ppid = 51; bytes = long_payload } ∷ []
receive_all-fragments_example = receive_all-fragments 0 51 empty_buffer long_payload empty-Waits

last_fragment_first_example :
    (receive empty_buffer 0 data_flag_e false 51 (9 ∷ [])).0
    ≡ record { ppid = 0; bytes = 9 ∷ [] } ∷ []
last_fragment_first_example = last_fragment_first empty_buffer 0 51 (9 ∷ []) empty-Waits
