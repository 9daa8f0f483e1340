-- ===== src/Udp.antt =====
-- netmount-server/slip_udp_serial.cpp, the IPv4 and UDP part: `internet_checksum`,
-- `build_headers`, `SlipUdpSerial::parse_udp_packet`, `send`, `send_reply` and `receive`.
-- A structure that the source lays over memory is a record of its fields as the host reads them,
-- with the bytes that it stands for. The byte order of the host is an argument. Messages to the
-- log are left out. A text that shows an IP address is kept as its four numbers.
pub mod Checksum
pub mod Headers
pub mod Delivery
pub mod Transmission
mod Examples
use net_mount.Base.{
  ℕ, ◌+◌, ◌-◌, ◌*◌, ◌/◌, ◌%◌, ◌^◌, zero, suc, List, [], ◌∷◌, ◌++◌, Bool, true, false, ltb, leb,
  ◌==◌, not, if◌then◌else◌, length, take, drop, get_or, bit_and, bit_or, Option, none, some,
}
use net_mount.Bytes.{
  Endian, u16, u32, load16, load32, store16, store32, to_big16, to_big32, from_big16, from_big32,
}
use net_mount.Slip.{mtu, Event, encode_slip, recv_decode_slip}

abbrev pub ipv4_protocol_udp : ℕ
ipv4_protocol_udp = 17

pub record Ipv4Hdr : Type 0 where
  pub version_ihl : ℕ
  pub tos : ℕ
  pub total_len : ℕ
  pub id : ℕ
  pub flags_frag_offset : ℕ
  pub ttl : ℕ
  pub protocol : ℕ
  pub hdr_csum : ℕ
  pub src_addr : ℕ
  pub dst_addr : ℕ

pub record UdpHdr : Type 0 where
  pub src_port : ℕ
  pub dst_port : ℕ
  pub udp_length : ℕ
  pub checksum : ℕ

pub record NetHeaders : Type 0 where
  pub ipv4 : Ipv4Hdr
  pub udp : UdpHdr

-- sizeof
abbrev pub ipv4_hdr_size : ℕ
ipv4_hdr_size = 20

abbrev pub udp_hdr_size : ℕ
udp_hdr_size = 8

abbrev pub net_headers_size : ℕ
net_headers_size = 28

-- The memory of the packed structures.
unfoldable pub ipv4_bytes : Endian → Ipv4Hdr → List ℕ
ipv4_bytes e h =
    h.version_ihl
    ∷ h.tos
    ∷ (store16 e h.total_len
        ++ (store16 e h.id
            ++ (store16 e h.flags_frag_offset
                ++ h.ttl
                  ∷ h.protocol
                  ∷ (store16 e h.hdr_csum ++ (store32 e h.src_addr ++ store32 e h.dst_addr)))))

unfoldable pub udp_bytes : Endian → UdpHdr → List ℕ
udp_bytes e h =
    store16 e h.src_port
    ++ (store16 e h.dst_port ++ (store16 e h.udp_length ++ store16 e h.checksum))

unfoldable pub net_bytes : Endian → NetHeaders → List ℕ
unfolding ipv4_bytes udp_bytes
net_bytes e h = ipv4_bytes e h.ipv4 ++ udp_bytes e h.udp

-- The structures that lie over a packet.
unfoldable pub net_headers_at : Endian → List ℕ → NetHeaders
net_headers_at e m = record {
  ipv4 = record {
    version_ihl = get_or m 0 0;
    tos = get_or m 1 0;
    total_len = load16 e m 2;
    id = load16 e m 4;
    flags_frag_offset = load16 e m 6;
    ttl = get_or m 8 0;
    protocol = get_or m 9 0;
    hdr_csum = load16 e m 10;
    src_addr = load32 e m 12;
    dst_addr = load32 e m 16;
  };
  udp = record {
    src_port = load16 e m 20;
    dst_port = load16 e m 22;
    udp_length = load16 e m 24;
    checksum = load16 e m 26;
  };
}

-- The first loop of `internet_checksum`, with the left-over byte.
unfoldable pub sum_words : Endian → List ℕ → ℕ → ℕ
sum_words e [] sum = sum
sum_words e (a ∷ []) sum = u32 (sum + a)
sum_words e (a ∷ b ∷ rest) sum = sum_words e rest (u32 (sum + load16 e (a ∷ b ∷ []) 0))

-- The second loop, which folds the sum to 16 bits; the first argument bounds its rounds.
unfoldable pub fold_sum : ℕ → ℕ → ℕ
fold_sum zero sum = sum
fold_sum (suc rounds) sum =
    let next = fold_sum rounds (u32 (sum % 2 ^ 16 + sum / 2 ^ 16)) in
    if sum / 2 ^ 16 == 0 then sum else next

-- `~sum`, cut to 16 bits. A 32-bit sum is folded in two rounds.
unfoldable pub internet_checksum : Endian → List ℕ → ℕ
internet_checksum e m = u16 (2 ^ 32 - 1 - fold_sum 3 (sum_words e m 0))

-- The headers, and the new `last_sent_packet_id`.
unfoldable pub build_headers : Endian → ℕ → ℕ → ℕ → ℕ → ℕ → ℕ → NetHeaders × ℕ
build_headers e last_id src_ip dst_ip src_port dst_port len =
    let id = u16 (last_id + 1) in
    let blank : Ipv4Hdr = record {
      version_ihl = bit_or (4 * 2 ^ 4) (ipv4_hdr_size / 4);
      tos = 0;
      total_len = to_big16 e (u16 (net_headers_size + len));
      id = to_big16 e id;
      flags_frag_offset = to_big16 e (0x2 * 2 ^ 13);
      ttl = 64;
      protocol = ipv4_protocol_udp;
      hdr_csum = 0;
      src_addr = to_big32 e src_ip;
      dst_addr = to_big32 e dst_ip;
    } in
    (
      record {
        ipv4 = record blank { hdr_csum = internet_checksum e (ipv4_bytes e blank) };
        udp = record {
          src_port = to_big16 e src_port;
          dst_port = to_big16 e dst_port;
          udp_length = to_big16 e (u16 (udp_hdr_size + len));
          checksum = 0;
        };
      },
      id,
    )

-- The fields of `SlipUdpSerial` but for the two buffers and the port. `last_rx_udp_data` points
-- into `rx_buffer`: it is the bytes of the packet from there on.
pub record SlipUdpSerial : Type 0 where
  pub last_udp_data_len : ℕ
  pub last_rx_udp_data : List ℕ
  pub last_remote_ip : ℕ
  pub last_remote_port : ℕ
  pub last_remote_ip_str : List ℕ
  pub last_dst_ip : ℕ
  pub last_dst_port : ℕ
  pub last_dst_ip_str : List ℕ
  pub last_sent_packet_id : ℕ

-- What `parse_udp_packet` does behind its checks of the IPv4 header.
unfoldable pub accept_udp : Endian → List ℕ → SlipUdpSerial → ℕ × SlipUdpSerial
accept_udp e m s =
    let h = net_headers_at e m in
    let udp_len = from_big16 e h.udp.udp_length in
    let t = record s {
      last_remote_ip = from_big32 e h.ipv4.src_addr;
      last_dst_ip = from_big32 e h.ipv4.dst_addr;
      last_remote_port = from_big16 e h.udp.src_port;
      last_dst_port = from_big16 e h.udp.dst_port;
    } in
    if ltb udp_len udp_hdr_size
    then (0, t)
    else if ltb (length m) (ipv4_hdr_size + udp_len)
    then (0, t)
    else (
      udp_len - udp_hdr_size,
      record t {
        last_remote_ip_str = take 4 (drop 12 m);
        last_dst_ip_str = take 4 (drop 16 m);
        last_rx_udp_data = drop net_headers_size m;
        last_udp_data_len = udp_len - udp_hdr_size;
      },
    )

-- The packet is the first `rx_packet_len` bytes of `rx_buffer`.
unfoldable pub parse_udp_packet : Endian → List ℕ → SlipUdpSerial → ℕ × SlipUdpSerial
unfolding accept_udp
parse_udp_packet e m s =
    let h = net_headers_at e m in
    if ltb (length m) net_headers_size
    then (0, s)
    else if not (bit_and h.ipv4.version_ihl 0xf0 == 4 * 2 ^ 4)
    then (0, s)
    else if not (bit_and h.ipv4.version_ihl 0x0f == ipv4_hdr_size / 4)
    then (0, s)
    else if not (internet_checksum e (take ipv4_hdr_size m) == 0)
    then (0, s)
    else if not (h.ipv4.protocol == ipv4_protocol_udp)
    then (0, s)
    else if ltb (length m) (from_big16 e h.ipv4.total_len)
    then (0, s)
    else accept_udp e m s

-- `receive`: the result, the new state, and the events that were not read.
unfoldable pub receive : Endian → List Event → SlipUdpSerial → ℕ × SlipUdpSerial × List Event
receive e es s =
    let (m, rest) = recv_decode_slip es in
    if length m == 0 then (0, s, rest) else let (len, t) = parse_udp_packet e m s in (len, t, rest)

-- `send` throws (`too_long`, `short_write`), writes past the end of `tx_buffer` (`overrun`, which
-- C++ leaves undefined), or returns. The last argument is the answer of `serial.write_bytes`.
pub data Sent : Type 0 where
  too_long short_write overrun : Sent
  sent : List ℕ → Sent

unfoldable pub send :
    Endian → SlipUdpSerial → ℕ → ℕ → ℕ → ℕ → List ℕ → (List ℕ → ℕ) → Sent × SlipUdpSerial
send e s src_ip dst_ip src_port dst_port payload write_bytes =
    if ltb mtu (length payload)
    then (too_long, s)
    else let (headers, id) =
        build_headers e s.last_sent_packet_id src_ip dst_ip src_port dst_port (length payload) in
      let t = record s { last_sent_packet_id = id } in
      let frame = encode_slip (net_bytes e headers) payload in
      if ltb (mtu * 2) (length frame)
      then (overrun, t)
      else if write_bytes frame == length frame
      then (sent frame, t)
      else (short_write, t)

unfoldable pub send_reply : Endian → SlipUdpSerial → List ℕ → (List ℕ → ℕ) → Sent × SlipUdpSerial
unfolding send
send_reply e s payload write_bytes =
    send e s s.last_dst_ip s.last_remote_ip s.last_dst_port s.last_remote_port payload write_bytes
