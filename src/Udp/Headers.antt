-- ===== src/Udp/Headers.antt =====
-- The 28 bytes of headers that `build_headers` makes, and what `parse_udp_packet` reads in them.
use net_mount.Base.{
  ℕ, ◌+◌, ◌/◌, ◌%◌, ◌^◌, ◌≤◌, ◌<◌, ◌≡◌, refl, ap, ◌∙◌, List, [], ◌∷◌, ◌++◌, arith, length, take,
  append_assoc,
}
use net_mount.Bytes.{Endian, little, big, store16, from_big16, from_big32, u16}
use net_mount.Bytes.Wire.{store16-to_big16, store32-to_big32, from_big16-load16, from_big32-load32}
use net_mount.Udp.{
  SlipUdpSerial, net_bytes, net_headers_at, build_headers, internet_checksum, parse_udp_packet,
  accept_udp,
}

-- A 16-bit and a 32-bit number in network order.
abbrev pub be16 : ℕ → List ℕ
be16 x = x / 256 ∷ x % 256 ∷ []

abbrev pub be32 : ℕ → List ℕ
be32 x = x / 16777216 ∷ x / 65536 % 256 ∷ x / 256 % 256 ∷ x % 256 ∷ []

-- The IPv4 header before and behind its checksum, and the UDP header.
abbrev pub ipv4_head : ℕ → ℕ → List ℕ
ipv4_head total id =
    69 ∷ 0 ∷ total / 256 ∷ total % 256 ∷ id / 256 ∷ id % 256 ∷ 64 ∷ 0 ∷ 64 ∷ 17 ∷ []

abbrev pub addresses : ℕ → ℕ → List ℕ
addresses src dst = be32 src ++ be32 dst

abbrev pub udp_head : Endian → ℕ → ℕ → ℕ → List ℕ
udp_head e sp dp len = be16 sp ++ (be16 dp ++ (be16 len ++ store16 e 0))

module _ (e : Endian) (last_id src dst sp dp len : ℕ) (hs : src < 2 ^ 32) (hd : dst < 2 ^ 32)
    (hsp : sp < 2 ^ 16) (hdp : dp < 2 ^ 16) (hl : len ≤ 1500) where
  abbrev head : List ℕ
  head = ipv4_head (u16 (28 + len)) (u16 (last_id + 1))

  abbrev csum : ℕ
  csum = internet_checksum e (head ++ (store16 e 0 ++ addresses src dst))

  -- The memory of the headers on the wire, on a host of either byte order.
  pub net_bytes-build_headers :
      net_bytes e (build_headers e last_id src dst sp dp len).0
      ≡ head ++ (store16 e csum ++ (addresses src dst ++ udp_head e sp dp (u16 (8 + len))))
  unfolding net_bytes build_headers
  net_bytes-build_headers =
      rw
        (
          store16-to_big16 e (u16 (28 + len)) (omega arith),
          store16-to_big16 e (u16 (last_id + 1)) (omega arith),
          store16-to_big16 e 16384 (omega arith),
          store32-to_big32 e src hs,
          store32-to_big32 e dst hd,
          store16-to_big16 e sp hsp,
          store16-to_big16 e dp hdp,
          store16-to_big16 e (u16 (8 + len)) (omega arith),
        )
        (ap (λ l. head ++ l)
          (append_assoc (store16 e csum) (addresses src dst) (udp_head e sp dp (u16 (8 + len)))))

-- A 16-bit object takes two bytes.
pub store16_two :
    (e : Endian) (v : ℕ)
    → v < 2 ^ 16
    → (a : ℕ) × (b : ℕ) × (store16 e v ≡ a ∷ b ∷ []) × (a < 256) × (b < 256)
unfolding store16
store16_two little v h = (v % 256, v / 256, refl, omega arith, omega arith)
store16_two big v h = (v / 256, v % 256, refl, omega arith, omega arith)

-- The state after a packet is delivered.
abbrev pub delivered : ℕ → ℕ → ℕ → ℕ → List ℕ → SlipUdpSerial → SlipUdpSerial
delivered src dst sp dp payload s = record s {
  last_remote_ip = src;
  last_dst_ip = dst;
  last_remote_port = sp;
  last_dst_port = dp;
  last_remote_ip_str = be32 src;
  last_dst_ip_str = be32 dst;
  last_rx_udp_data = payload;
  last_udp_data_len = length payload;
}

-- What the source reads in a packet of this shape.
module _ (e : Endian) (src dst sp dp total id ulen c0 c1 z0 z1 : ℕ) (payload : List ℕ)
    (hs : src < 2 ^ 32) (hd : dst < 2 ^ 32) (hsp : sp < 2 ^ 16) (hdp : dp < 2 ^ 16)
    (ht : total < 2 ^ 16) (hu : ulen < 2 ^ 16) where
  abbrev pub image : List ℕ
  image =
      ipv4_head total id
      ++ c0 ∷ c1 ∷ (addresses src dst ++ (be16 sp ++ (be16 dp ++ (be16 ulen ++ z0 ∷ z1 ∷ payload))))

  total_len-image : from_big16 e (net_headers_at e image).ipv4.total_len ≡ total
  unfolding net_headers_at
  total_len-image =
      from_big16-load16 e image 2 (total / 256) (total % 256) (omega arith) (omega arith) refl refl
      ∙ omega arith

  version-image : (net_headers_at e image).ipv4.version_ihl ≡ 69
  unfolding net_headers_at
  version-image = refl

  protocol-image : (net_headers_at e image).ipv4.protocol ≡ 17
  unfolding net_headers_at
  protocol-image = refl

  udp_length-image : from_big16 e (net_headers_at e image).udp.udp_length ≡ ulen
  unfolding net_headers_at
  udp_length-image =
      from_big16-load16 e image 24 (ulen / 256) (ulen % 256) (omega arith) (omega arith) refl refl
      ∙ omega arith

  src_port-image : from_big16 e (net_headers_at e image).udp.src_port ≡ sp
  unfolding net_headers_at
  src_port-image =
      from_big16-load16 e image 20 (sp / 256) (sp % 256) (omega arith) (omega arith) refl refl
      ∙ omega arith

  dst_port-image : from_big16 e (net_headers_at e image).udp.dst_port ≡ dp
  unfolding net_headers_at
  dst_port-image =
      from_big16-load16 e image 22 (dp / 256) (dp % 256) (omega arith) (omega arith) refl refl
      ∙ omega arith

  src_addr-image : from_big32 e (net_headers_at e image).ipv4.src_addr ≡ src
  unfolding net_headers_at
  src_addr-image =
      from_big32-load32 e image 12 (src / 16777216) (src / 65536 % 256) (omega arith) (omega arith)
        refl refl (src / 256 % 256) (src % 256) (omega arith) (omega arith) refl refl
      ∙ omega arith

  dst_addr-image : from_big32 e (net_headers_at e image).ipv4.dst_addr ≡ dst
  unfolding net_headers_at
  dst_addr-image =
      from_big32-load32 e image 16 (dst / 16777216) (dst / 65536 % 256) (omega arith) (omega arith)
        refl refl (dst / 256 % 256) (dst % 256) (omega arith) (omega arith) refl refl
      ∙ omega arith

  accept_udp-image :
      (s : SlipUdpSerial)
      → ulen ≡ 8 + length payload
      → accept_udp e image s ≡ (length payload, delivered src dst sp dp payload s)
  unfolding accept_udp
  accept_udp-image s el =
      rw (udp_length-image, src_addr-image, dst_addr-image, src_port-image, dst_port-image)
        (ground arith)

  pub parse_udp_packet-image :
      (s : SlipUdpSerial)
      → total ≡ 28 + length payload
      → ulen ≡ 8 + length payload
      → internet_checksum e (take 20 image) ≡ 0
      → parse_udp_packet e image s ≡ (length payload, delivered src dst sp dp payload s)
  unfolding parse_udp_packet
  parse_udp_packet-image s et el ok =
      rw (version-image, protocol-image, ok, total_len-image, accept_udp-image s el) (ground arith)
