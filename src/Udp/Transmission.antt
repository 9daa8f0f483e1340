-- ===== src/Udp/Transmission.antt =====
-- From `send` on one host to `receive` on another, and the bounds of `tx_buffer`.
use net_mount.Base.{
  ℕ, ◌+◌, ◌^◌, ◌≤◌, ◌<◌, ◌≡◌, ◌≢◌, refl, List, [], ◌∷◌, ◌++◌, arith, length, length-append, All,
  ◌==◌, if◌then◌else◌,
}
use net_mount.Bytes.{Endian}
use net_mount.Slip.{mtu, slip_end, slip_esc, Event, encode_slip, encode_slip_block, escape}
use net_mount.Slip.RoundTrip.{arriving, recv_decode_slip-encode_slip, length-encode_slip}
use net_mount.Udp.Headers.{delivered}
use net_mount.Udp.Delivery.{length-headers, parse_udp_packet-build_headers}
use net_mount.Udp.{SlipUdpSerial, build_headers, net_bytes, receive, send, sent, overrun}

-- The bytes of a payload that SLIP sends as two.
abbrev pub specials : List ℕ → ℕ
specials [] = 0
specials (b ∷ bs) = (if b == slip_end then 1 else if b == slip_esc then 1 else 0) + specials bs

length-encode_slip_block-eq :
    (bs : List ℕ) → length (encode_slip_block bs) ≡ length bs + specials bs
unfolding encode_slip_block escape
length-encode_slip_block-eq [] = refl
length-encode_slip_block-eq (b ∷ bs) =
    ground (arith, length-append (escape b) (encode_slip_block bs), length-encode_slip_block-eq bs)

length-encode_slip-eq :
    (hs bs : List ℕ)
    → length (encode_slip hs bs) ≡ 2 + length hs + specials hs + length bs + specials bs
unfolding encode_slip
length-encode_slip-eq hs bs = omega (
  arith,
  length-append (encode_slip_block hs) (encode_slip_block bs ++ slip_end ∷ []),
  length-append (encode_slip_block bs) (slip_end ∷ []),
  length-encode_slip_block-eq hs,
  length-encode_slip_block-eq bs,
)

module _ (e : Endian) (s : SlipUdpSerial) (src dst sp dp : ℕ) (payload : List ℕ)
    (write_bytes : List ℕ → ℕ) (hs : src < 2 ^ 32) (hd : dst < 2 ^ 32) (hsp : sp < 2 ^ 16)
    (hdp : dp < 2 ^ 16) where
  abbrev sent_headers : List ℕ
  sent_headers =
      net_bytes e (build_headers e s.last_sent_packet_id src dst sp dp (length payload)).0

  receive-sent :
      (f : Endian) (t : SlipUdpSerial) (noise : List ℕ) (es : List Event)
      → length payload ≤ 1472
      → All (λ b. b ≢ slip_end) noise
      → receive f (arriving noise ++ (arriving (encode_slip sent_headers payload) ++ es)) t
        ≡ (length payload, delivered src dst sp dp payload t, es)
  unfolding receive
  receive-sent f t noise es fits quiet =
      let size : length sent_headers ≡ 28 =
        length-headers e f s.last_sent_packet_id src dst sp dp payload hs hd hsp hdp
          (omega arith) in
      rw
        (
          recv_decode_slip-encode_slip noise sent_headers payload es quiet (omega (arith, size))
              (omega (arith, size)),
          parse_udp_packet-build_headers e f s.last_sent_packet_id src dst sp dp payload hs hd hsp
              hdp (omega arith) t,
        )
        (ground (arith, size, length-append sent_headers payload))

  send-eq-sent :
      length payload ≤ 1471
      → ((m : List ℕ) → write_bytes m ≡ length m)
      → (send e s src dst sp dp payload write_bytes).0 ≡ sent (encode_slip sent_headers payload)
  unfolding send
  send-eq-sent fits writes =
      let size : length sent_headers ≡ 28 =
        length-headers e e s.last_sent_packet_id src dst sp dp payload hs hd hsp hdp
          (omega arith) in
      ground (
        arith,
        size,
        length-encode_slip sent_headers payload,
        writes (encode_slip sent_headers payload),
      )

  -- A datagram of at most 1471 bytes, between 32-bit addresses and 16-bit ports, is sent, if the
  -- serial line takes all bytes that it is given. The frame that goes out is received by
  -- `receive`, on a host of either byte order, also behind bytes of noise other than END: the
  -- result is the length of the payload; the payload, the addresses and the ports are those of
  -- the sender; what follows on the line is left there.
  pub receive-send :
      (f : Endian) (t : SlipUdpSerial) (noise : List ℕ) (es : List Event)
      → length payload ≤ 1471
      → ((m : List ℕ) → write_bytes m ≡ length m)
      → All (λ b. b ≢ slip_end) noise
      → (frame : List ℕ) × ((send e s src dst sp dp payload write_bytes).0 ≡ sent frame)
        × (receive f (arriving noise ++ (arriving frame ++ es)) t
            ≡ (length payload, delivered src dst sp dp payload t, es))
  receive-send f t noise es fits writes quiet = (
    encode_slip sent_headers payload,
    send-eq-sent fits writes,
    receive-sent f t noise es (omega arith) quiet,
  )

  -- With at most 1471 bytes, 32-bit addresses and 16-bit ports, `send` stays inside `tx_buffer`,
  -- whatever the bytes.
  pub send_in_bounds :
      length payload ≤ 1471 → (send e s src dst sp dp payload write_bytes).0 ≢ overrun
  unfolding send
  send_in_bounds fits =
      let size : length sent_headers ≡ 28 =
        length-headers e e s.last_sent_packet_id src dst sp dp payload hs hd hsp hdp
          (omega arith) in
      ground (arith, size, length-encode_slip sent_headers payload)

  -- A payload that passes the length check of `send`, but has so many bytes to escape that its
  -- length and their number pass 2970 together, makes `send` write past the end of `tx_buffer`.
  -- Addresses have 32 bits and ports 16.
  pub send_overruns :
      length payload ≤ mtu
      → 2970 < length payload + specials payload
      → (send e s src dst sp dp payload write_bytes).0 ≡ overrun
  unfolding send
  send_overruns fits many =
      let size : length sent_headers ≡ 28 =
        length-headers e e s.last_sent_packet_id src dst sp dp payload hs hd hsp hdp fits in
      ground (arith, size, length-encode_slip-eq sent_headers payload)
