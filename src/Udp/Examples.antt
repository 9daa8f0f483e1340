-- ===== src/Udp/Examples.antt =====
-- Datagrams and checksums, one by one.
use net_mount.Base.{ℕ, ◌≡◌, ◌≢◌, ◌++◌, refl, List, [], ◌∷◌, arith, length, replicate}
use net_mount.Bytes.{little, big, load16, store16}
use net_mount.Slip.{byte}
use net_mount.Slip.RoundTrip.{arriving}
use net_mount.Udp.{
  SlipUdpSerial, build_headers, net_bytes, internet_checksum, fold_sum, sum_words, parse_udp_packet,
  receive, send, sent, overrun,
}
use net_mount.Udp.Headers.{delivered}
use net_mount.Udp.Checksum.{internet_checksum-verifies}
use net_mount.Udp.Delivery.{parse_udp_packet-build_headers}
use net_mount.Udp.Transmission.{receive-send, send_in_bounds, send_overruns}

abbrev fresh : SlipUdpSerial
fresh = record {
  last_udp_data_len = 0;
  last_rx_udp_data = [];
  last_remote_ip = 0;
  last_remote_port = 0;
  last_remote_ip_str = [];
  last_dst_ip = 0;
  last_dst_port = 0;
  last_dst_ip_str = [];
  last_sent_packet_id = 65535;
}

abbrev payload : List ℕ
payload = 0xc0 ∷ 2 ∷ 0xdb ∷ []

abbrev awkward : List ℕ
awkward = replicate 1490 0xc0

summed_up : internet_checksum big (0x12 ∷ 0x34 ∷ 0xed ∷ 0xcb ∷ []) ≡ 0
unfolding internet_checksum fold_sum sum_words load16
summed_up = refl

parse_udp_packet-build_headers_example :
    parse_udp_packet little
      (net_bytes big (build_headers big 9 0x0a000001 0x0a000002 1024 12200 3).0 ++ payload)
      fresh
    ≡ (3, delivered 0x0a000001 0x0a000002 1024 12200 payload fresh)
parse_udp_packet-build_headers_example =
    parse_udp_packet-build_headers big little 9 0x0a000001 0x0a000002 1024 12200 payload
      (omega arith) (omega arith) (omega arith) (omega arith) (omega arith) fresh

receive-send_example :
    (frame : List ℕ) × ((send big fresh 0x0a000001 0x0a000002 1024 12200 payload (λ m. length m)).0
      ≡ sent frame)
    × (receive little (arriving (1 ∷ []) ++ (arriving frame ++ byte 4 ∷ [])) fresh
        ≡ (3, delivered 0x0a000001 0x0a000002 1024 12200 payload fresh, byte 4 ∷ []))
receive-send_example =
    receive-send big fresh 0x0a000001 0x0a000002 1024 12200 payload (λ m. length m) (omega arith)
      (omega arith) (omega arith) (omega arith) little fresh (1 ∷ []) (byte 4 ∷ []) (omega arith)
      (λ m. refl) (ground arith)

send_in_bounds_example :
    (send little fresh 0x0a000001 0x0a000002 1024 12200 payload (λ m. 0)).0 ≢ overrun
send_in_bounds_example =
    send_in_bounds little fresh 0x0a000001 0x0a000002 1024 12200 payload (λ m. 0) (omega arith)
      (omega arith) (omega arith) (omega arith) (omega arith)

send_overruns_example :
    (send little fresh 0x0a000001 0x0a000002 1024 12200 awkward (λ m. length m)).0 ≡ overrun
send_overruns_example =
    send_overruns little fresh 0x0a000001 0x0a000002 1024 12200 awkward (λ m. length m)
      (omega arith) (omega arith) (omega arith) (omega arith) (omega arith) (omega arith)

abbrev front : List ℕ
front = 69 ∷ 1 ∷ []

abbrev behind : List ℕ
behind = 7 ∷ 8 ∷ 9 ∷ []

internet_checksum-verifies_example :
    internet_checksum big (
      front ++ (store16 big (internet_checksum big (front ++ (store16 big 0 ++ behind))) ++ behind))
    ≡ 0
internet_checksum-verifies_example =
    internet_checksum-verifies big front behind (ground arith) (ground arith) (omega arith) refl
