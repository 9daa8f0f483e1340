-- ===== src/Slip/Examples.antt =====
-- Frames on the line, one by one.
use net_mount.Base.{ℕ, ◌≡◌, ◌++◌, refl, List, [], ◌∷◌, arith, replicate}
use net_mount.Slip.{encode_slip, encode_slip_block, escape, decode, byte, timeout, recv_decode_slip}
use net_mount.Slip.RoundTrip.{arriving, recv_decode_slip-encode_slip, recv_decode_slip_overlong}

abbrev noise : List ℕ
noise = 7 ∷ 0xdb ∷ []

abbrev headers : List ℕ
headers = 0xc0 ∷ 1 ∷ []

abbrev payload : List ℕ
payload = 0xdb ∷ 2 ∷ 0xdc ∷ []

encode_slip_test :
    encode_slip headers payload ≡ 0xc0 ∷ 0xdb ∷ 0xdc ∷ 1 ∷ 0xdb ∷ 0xdd ∷ 2 ∷ 0xdc ∷ 0xc0 ∷ []
unfolding encode_slip encode_slip_block escape
encode_slip_test = refl

-- A line that falls silent inside a frame gives the bytes so far.
timeout_test : recv_decode_slip (byte 0xc0 ∷ byte 5 ∷ timeout ∷ byte 6 ∷ []) ≡ (5 ∷ [], byte 6 ∷ [])
unfolding recv_decode_slip decode
timeout_test = refl

recv_decode_slip-encode_slip_example :
    recv_decode_slip (arriving noise ++ (arriving (encode_slip headers payload) ++ byte 9 ∷ []))
    ≡ (headers ++ payload, byte 9 ∷ [])
recv_decode_slip-encode_slip_example =
    recv_decode_slip-encode_slip noise headers payload (byte 9 ∷ []) (ground arith) (omega arith)
      (omega arith)

recv_decode_slip_overlong_example :
    (recv_decode_slip (arriving (encode_slip headers (replicate 1499 0xc0)) ++ [])).0 ≡ []
recv_decode_slip_overlong_example =
    recv_decode_slip_overlong headers (replicate 1499 0xc0) [] (omega arith)
