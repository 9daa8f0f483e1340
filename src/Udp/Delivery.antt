-- ===== src/Udp/Delivery.antt =====
-- From `build_headers` on one host to `parse_udp_packet` on another.
use net_mount.Base.{ℕ, ◌+◌, ◌^◌, ◌≤◌, ◌<◌, ◌≡◌, refl, List, [], ◌∷◌, ◌++◌, arith, length}
use net_mount.Bytes.{Endian, store16, u16}
use net_mount.Slip.{mtu}
use net_mount.Udp.Checksum.{
  AreBytes, internet_checksum-lt, internet_checksum-verifies, internet_checksum_any_host,
}
use net_mount.Udp.Headers.{
  ipv4_head, addresses, udp_head, net_bytes-build_headers, store16_two, delivered,
  parse_udp_packet-image,
}
use net_mount.Udp.{SlipUdpSerial, build_headers, net_bytes, internet_checksum, parse_udp_packet}

module _ (e f : Endian) (last_id src dst sp dp : ℕ) (payload : List ℕ) (hs : src < 2 ^ 32)
    (hd : dst < 2 ^ 32) (hsp : sp < 2 ^ 16) (hdp : dp < 2 ^ 16) (fits : length payload ≤ mtu) where
  abbrev headers : List ℕ
  headers = net_bytes e (build_headers e last_id src dst sp dp (length payload)).0

  abbrev total : ℕ
  total = u16 (28 + length payload)

  abbrev ulen : ℕ
  ulen = u16 (8 + length payload)

  abbrev front : List ℕ
  front = ipv4_head total (u16 (last_id + 1))

  abbrev sum : ℕ
  sum = internet_checksum e (front ++ (store16 e 0 ++ addresses src dst))

  header_verifies : internet_checksum f (front ++ (store16 e sum ++ addresses src dst)) ≡ 0
  header_verifies = internet_checksum_any_host e f _ bytes (rw eq (omega arith)) (rw eq refl) (
      internet_checksum-verifies e front (addresses src dst) (omega arith) (omega arith)
        (omega arith) refl)
    where
      two : (a : ℕ) × (b : ℕ) × (store16 e sum ≡ a ∷ b ∷ []) × (a < 256) × (b < 256)
      two = store16_two e sum (internet_checksum-lt e _)

      eq : store16 e sum ≡ two.0 ∷ two.1 ∷ []
      eq = two.2

      bytes : AreBytes (front ++ (store16 e sum ++ addresses src dst))
      bytes = rw eq (omega (arith, two.3, two.4))

  parse_shape :
      (c a b z y : ℕ) (s : SlipUdpSerial)
      → store16 e c ≡ a ∷ b ∷ []
      → store16 e 0 ≡ z ∷ y ∷ []
      → internet_checksum f (front ++ (store16 e c ++ addresses src dst)) ≡ 0
      → parse_udp_packet f
          ((front ++ (store16 e c ++ (addresses src dst ++ udp_head e sp dp ulen))) ++ payload)
          s
        ≡ (length payload, delivered src dst sp dp payload s)
  parse_shape c a b z y s eq zeq ok =
      rw (eq, zeq)
        (parse_udp_packet-image f src dst sp dp total (u16 (last_id + 1)) ulen a b z y payload hs hd
          hsp hdp (omega arith) (omega arith) s (omega arith) (omega arith) (rw eq at ok))

  -- A packet of the headers that `build_headers` makes and a payload of at most 1500 bytes, from one
  -- 32-bit address and 16-bit port to another, is accepted by `parse_udp_packet`, with hosts of any
  -- byte order on the two ends: it gives the payload, its length, the addresses and the ports.
  pub parse_udp_packet-build_headers :
      (s : SlipUdpSerial)
      → parse_udp_packet f (headers ++ payload) s
        ≡ (length payload, delivered src dst sp dp payload s)
  parse_udp_packet-build_headers s =
      let (a, b, eq, _, _) = store16_two e sum (internet_checksum-lt e _) in
      let (z, y, zeq, _, _) = store16_two e 0 (omega arith) in
      rw
        (net_bytes-build_headers e last_id src dst sp dp (length payload) hs hd hsp hdp
          (omega arith))
        (parse_shape sum a b z y s eq zeq header_verifies)

  -- The headers take 28 bytes.
  pub length-headers : length headers ≡ 28
  length-headers =
      let (a, b, eq, _, _) = store16_two e sum (internet_checksum-lt e _) in
      let (z, y, zeq, _, _) = store16_two e 0 (omega arith) in
      rw
        (net_bytes-build_headers e last_id src dst sp dp (length payload) hs hd hsp hdp
          (omega arith))
        (length_shape sum a b z y eq zeq)
    where
      length_shape :
          (c a b z y : ℕ)
          → store16 e c ≡ a ∷ b ∷ []
          → store16 e 0 ≡ z ∷ y ∷ []
          → length (front ++ (store16 e c ++ (addresses src dst ++ udp_head e sp dp ulen))) ≡ 28
      length_shape c a b z y eq zeq = rw (eq, zeq) refl
