-- ===== src/Proto/Examples.antt =====
-- Requests and replies, one by one.
use net_mount.Base.{ℕ, ◌≡◌, ◌≢◌, ◌<◌, ◌^◌, ◌++◌, refl, List, [], ◌∷◌, arith, true, false, some}
use net_mount.Bytes.{little, load16, from_little16}
use net_mount.Proto.{
  Answer, DriveProtoHdr, bsd_checksum, check_request, reply_packet, finish_reply, hdr_at,
}
use net_mount.Proto.Checksum.{bsd_checksum_differs}
use net_mount.Proto.Accept.{check_request-finish_reply}

abbrev request : List ℕ
request = 1 ∷ 8 ∷ 0 ∷ 0x24 ∷ 0x95 ∷ 5 ∷ 2 ∷ 0x23 ∷ []

abbrev answer : Answer
answer = record { extended_features = true; return_code = 2; content = 10 ∷ 20 ∷ [] }

abbrev header : DriveProtoHdr
header = record {
  version = 1;
  length_flags = 0;
  checksum = 0;
  sequence = 5;
  drive = 0;
  function = 0;
}

check_request_test : check_request little request ≡ some (request, false)
unfolding check_request hdr_at from_little16 load16
check_request_test = refl

bsd_checksum_differs_example :
    bsd_checksum ((1 ∷ 2 ∷ []) ++ 3 ∷ 4 ∷ []) ≢ bsd_checksum ((1 ∷ 2 ∷ []) ++ 5 ∷ 4 ∷ [])
bsd_checksum_differs_example =
    bsd_checksum_differs (1 ∷ 2 ∷ []) (4 ∷ []) 3 5 (omega arith) (omega arith) (omega arith)

request_version : (hdr_at little request).version ≡ 1
unfolding hdr_at
request_version = refl

request_checksum : (hdr_at little request).checksum < 2 ^ 16
unfolding hdr_at load16
request_checksum = omega arith

check_request-finish_reply_example :
    check_request little (finish_reply little true true (reply_packet little request answer))
    ≡ some (finish_reply little true true (reply_packet little request answer), true)
check_request-finish_reply_example =
    check_request-finish_reply true true request answer request_version request_checksum
      (omega arith)
