-- ===== src/Sctp/Receive/Fragments.antt =====
-- The fragments that `sendMessageNow` of src/sctp/sctp_session.cpp makes of a message, and what the
-- receive buffer makes of them.
use srtc.Common.{ℕ, zero, suc, ◌+◌, List, [], ◌∷◌, ◌++◌, Bool, true, false}
use srtc.Common.{leb, length, take, drop, min, ◌==◌, if◌then◌else◌}
use srtc.Sctp.Receive.{Message, ReceiveBuffer, data_flag_b, data_flag_e, receive}

-- `kMaxFragmentPayload`
abbrev max_fragment_payload : ℕ
max_fragment_payload = 1100

-- The flags and the payload that `sendFragment` takes. The three bits are apart, so that `|=` adds.
pub record Fragment : Type 0 where
  pub flags : ℕ
  pub bytes : List ℕ

abbrev unordered_flag : Bool → ℕ
unordered_flag unordered = if unordered then 4 else 0

-- The loop over the offset, on what is left of the payload; each round takes a byte at least.
unfoldable pub fragments_loop : ℕ → Bool → Bool → List ℕ → List Fragment
fragments_loop zero unordered is_first rest = []
fragments_loop (suc fuel) unordered is_first rest =
    let frag_size = min (length rest) max_fragment_payload in
    let is_last = leb (length rest) max_fragment_payload in
    let flags =
      unordered_flag unordered
      + (if is_first then data_flag_b else 0)
      + (if is_last then data_flag_e else 0) in
    elim (length rest == 0) [
      | true ↦ []
      | false ↦
          record { flags = flags; bytes = take frag_size rest }
          ∷ fragments_loop fuel unordered false (drop frag_size rest)
    ]

unfoldable pub fragments : Bool → List ℕ → List Fragment
fragments unordered payload =
    if leb (length payload) max_fragment_payload
    then record { flags = data_flag_b + data_flag_e + unordered_flag unordered; bytes = payload }
      ∷ []
    else fragments_loop (length payload) unordered true payload

-- The receiver takes the fragments one after another.
unfoldable pub receive_all :
    ReceiveBuffer → ℕ → Bool → ℕ → List Fragment → List Message × ReceiveBuffer
receive_all b ssn unordered ppid [] = ([], b)
receive_all b ssn unordered ppid (f ∷ fs) =
    let (out, b') = receive b ssn f.flags unordered ppid f.bytes in
    let (more, b'') = receive_all b' ssn unordered ppid fs in (out ++ more, b'')
