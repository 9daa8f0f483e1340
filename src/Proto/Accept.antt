-- ===== src/Proto/Accept.antt =====
-- A finished reply against the receiver's checks, on hosts of either byte order.
use net_mount.Base.{
  ℕ, ◌+◌, ◌*◌, ◌/◌, ◌%◌, ◌^◌, ◌≤◌, ◌<◌, ◌≡◌, refl, ap, ◌∙◌, List, ◌∷◌, ◌++◌, Bool, true, false, not,
  if◌then◌else◌, arith, length, take-length, drop, some, bit_and, bit_or, bit_or_disjoint,
  bit_or_comm, bit_or-zero, zero-bit_or, bit_and_ones, bit_and_shifted, ◌==◌,
}
use net_mount.Bytes.{Endian, little, to_little16, from_little16, u16}
use net_mount.Proto.Header.{hdr_at-hdr_bytes, summed-hdr_bytes, length-hdr_bytes}
use net_mount.Proto.Reply.{
  finished, finished_flags, finish_reply-hdr_bytes, finished_flags-lt, finished_checksum-lt,
  finished_checksum,
}
use net_mount.Proto.{
  DriveProtoHdr, hdr_at, hdr_bytes, bsd_checksum, check_request, Answer, reply_packet, finish_reply,
  reply_header, drive_proto_version, drive_proto_magic,
}

abbrev bit_of : Bool → ℕ
bit_of true = 1
bit_of false = 0

-- The value of the field `length_flags` on a little-endian host.
or_len :
    (x : Bool) (len : ℕ) → len < 2048 → bit_or (if x then 0x2000 else 0) len ≡ bit_of x * 8192 + len
or_len true len h = bit_or_disjoint 13 1 len (omega arith)
or_len false len h = zero-bit_or len ∙ omega arith

or_ro :
    (ro : Bool) (v : ℕ) → v < 16384 → bit_or v (if ro then 0x4000 else 0) ≡ bit_of ro * 16384 + v
or_ro true v h = bit_or_comm v 16384 ∙ bit_or_disjoint 14 1 v (omega arith)
or_ro false v h = bit_or-zero v ∙ omega arith

or_checksum : (v : ℕ) → v < 32768 → bit_or v 0x8000 ≡ 32768 + v
or_checksum v h = bit_or_comm v 32768 ∙ bit_or_disjoint 15 1 v (omega arith)

top_bit : (v : ℕ) → bit_and v 0x8000 ≡ v / 32768 % 2 * 32768
top_bit v = bit_and_shifted 15 v 1 ∙ ap (λ (t : ℕ). t * 32768) (bit_and_ones 1 (v / 32768))

bit_of-le : (b : Bool) → bit_of b ≤ 1
bit_of-le true = omega arith
bit_of-le false = omega arith

-- The field `length_flags` of a finished reply on a little-endian host.
finished_flags-value :
    (x ro ck : Bool) (len flags : ℕ)
    → flags ≡ (if x then 0x2000 else 0)
    → len < 2048
    → finished_flags little ro ck len flags
      ≡ bit_of ck * 32768 + (bit_of ro * 16384 + (bit_of x * 8192 + len))
unfolding to_little16
finished_flags-value x ro true len flags e small =
    rw
      (
        e,
        or_len x len small,
        or_ro ro (bit_of x * 8192 + len) (omega (arith, bit_of-le x)),
        or_checksum (bit_of ro * 16384 + (bit_of x * 8192 + len))
            (omega (arith, bit_of-le x, bit_of-le ro)),
      )
      (omega arith)
finished_flags-value x ro false len flags e small =
    rw
      (
        e,
        or_len x len small,
        or_ro ro (bit_of x * 8192 + len) (omega (arith, bit_of-le x)),
        bit_and_ones 15 (bit_of ro * 16384 + (bit_of x * 8192 + len)),
      )
      (omega (arith, bit_of-le x, bit_of-le ro))

-- How the receiver takes the field apart.
read_length :
    (x ro ck : Bool) (len : ℕ)
    → len < 2048
    → bit_and (bit_of ck * 32768 + (bit_of ro * 16384 + (bit_of x * 8192 + len))) 0x7ff ≡ len
read_length x ro ck len small = bit_and_ones 11 _ ∙ omega arith

read_checksum_flag :
    (x ro ck : Bool) (len : ℕ)
    → len < 2048
    → not (bit_and (bit_of ck * 32768 + (bit_of ro * 16384 + (bit_of x * 8192 + len))) 0x8000 == 0)
      ≡ ck
read_checksum_flag x ro true len small = rw (top_bit _) (ground (arith, bit_of-le x, bit_of-le ro))
read_checksum_flag x ro false len small = rw (top_bit _) (ground (arith, bit_of-le x, bit_of-le ro))

-- A packet whose header tells the truth is accepted whole.
check_request_true :
    (e : Endian) (ck : Bool) (p : List ℕ)
    → 8 ≤ length p
    → (hdr_at e p).version ≡ drive_proto_version
    → not (bit_and (from_little16 e (hdr_at e p).length_flags) 0x8000 == 0) ≡ ck
    → bit_and (from_little16 e (hdr_at e p).length_flags) 0x7ff ≡ length p
    → from_little16 e (hdr_at e p).checksum
      ≡ (if ck then bsd_checksum (drop 5 p) else drive_proto_magic)
    → check_request e p ≡ some (p, ck)
unfolding check_request
check_request_true e true p long version flag len sum =
    rw (version, flag, len, take-length (length p) p refl, sum) (ground arith)
check_request_true e false p long version flag len sum =
    rw (version, flag, len, take-length (length p) p refl, sum) (ground arith)

finished_checksum-reads :
    (ck : Bool) (tail : List ℕ)
    → from_little16 little (finished_checksum little ck tail)
      ≡ (if ck then bsd_checksum tail else drive_proto_magic)
unfolding from_little16 to_little16
finished_checksum-reads true tail = refl
finished_checksum-reads false tail = refl

module _ (x ro ck : Bool) (h : DriveProtoHdr) (rest : List ℕ)
    (flags : h.length_flags ≡ (if x then 0x2000 else 0)) (hc : h.checksum < 2 ^ 16)
    (version : h.version ≡ drive_proto_version) (small : 8 + length rest < 2048) where
  abbrev done : DriveProtoHdr
  done = finished little ro ck h rest

  read_back : hdr_at little (hdr_bytes little done ++ rest) ≡ done
  read_back =
      hdr_at-hdr_bytes little done rest
        (finished_flags-lt little ro ck (u16 (8 + length rest)) h.length_flags (omega arith)
          (rw flags (small_flags x)))
        (finished_checksum-lt little ck _)
    where
      small_flags : (x : Bool) → (if x then 0x2000 else 0) < 2 ^ 16
      small_flags true = omega arith
      small_flags false = omega arith

  done-value :
      done.length_flags
      ≡ bit_of ck * 32768 + (bit_of ro * 16384 + (bit_of x * 8192 + (8 + length rest)))
  done-value =
      let size : u16 (8 + length rest) ≡ 8 + length rest = omega arith in
      rw size (finished_flags-value x ro ck (8 + length rest) h.length_flags flags small)

  check_request-finished :
      check_request little (hdr_bytes little done ++ rest)
      ≡ some (hdr_bytes little done ++ rest, ck)
  unfolding from_little16
  check_request-finished =
      let size : length (hdr_bytes little done ++ rest) ≡ 8 + length rest =
        length-hdr_bytes little done rest in
      check_request_true little ck (hdr_bytes little done ++ rest) (omega (arith, size))
        (rw read_back version)
        (rw read_back (rw done-value (read_checksum_flag x ro ck (8 + length rest) small)))
        (rw (read_back, size) (rw done-value (read_length x ro ck (8 + length rest) small)))
        (rw (read_back, summed-hdr_bytes little done rest)
          (finished_checksum-reads ck (h.sequence ∷ h.drive ∷ h.function ∷ rest)))

-- On a little-endian host: the finished reply to a request of the right version and a 16-bit
-- checksum field, if it has less than 2048 bytes, passes the very checks that the server makes of
-- requests, is taken at its full length, and is read as having a checksum exactly if the reply
-- was to have one.
pub check_request-finish_reply :
    (ro ck : Bool) (request : List ℕ) (a : Answer)
    → (hdr_at little request).version ≡ drive_proto_version
    → (hdr_at little request).checksum < 2 ^ 16
    → 8 + length a.content < 2048
    → check_request little (finish_reply little ro ck (reply_packet little request a))
      ≡ some (finish_reply little ro ck (reply_packet little request a), ck)
unfolding reply_packet
check_request-finish_reply ro ck request a version sum small =
    rw
      (finish_reply-hdr_bytes little ro ck (reply_header little request a) a.content
        (flag_value a.extended_features) sum)
      (check_request-finished a.extended_features ro ck (reply_header little request a) a.content
        refl sum version small)
  where
    flag_value : (x : Bool) → (if x then 0x2000 else 0) < 2 ^ 16
    flag_value true = omega arith
    flag_value false = omega arith
