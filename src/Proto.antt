-- ===== src/Proto.antt =====
-- The packets of the NetMount protocol on the server: shared/drvproto.h (`drive_proto_hdr`) and,
-- of netmount-server/netmount-server.cpp, `bsd_checksum`, the checks of a received packet in the
-- main loop, the header of a reply in `process_request`, and the last touches that the main loop
-- gives to a reply. The byte order of the host is an argument.
pub mod Checksum
pub mod Header
pub mod Reply
pub mod Accept
mod Examples
use net_mount.Base.{
  ℕ, ◌+◌, ◌*◌, ◌/◌, ◌^◌, List, [], ◌∷◌, ◌++◌, Bool, true, false, ltb, ◌==◌, not, if◌then◌else◌,
  length, take, drop, get_or, bit_and, bit_or, Option, none, some,
}
use net_mount.Bytes.{Endian, u16, load16, store16, to_little16, from_little16}

abbrev pub drive_proto_version : ℕ
drive_proto_version = 1

abbrev pub drive_proto_magic : ℕ
drive_proto_magic = 0x9524

abbrev pub flag_checksum_used : ℕ
flag_checksum_used = 0x8000

abbrev pub flag_ro_share : ℕ
flag_ro_share = 0x4000

abbrev pub flag_extended_features : ℕ
flag_extended_features = 0x2000

-- The union of `ax` with `drive` and `function` is kept as its two bytes.
pub record DriveProtoHdr : Type 0 where
  pub version : ℕ
  pub length_flags : ℕ
  pub checksum : ℕ
  pub sequence : ℕ
  pub drive : ℕ
  pub function : ℕ

abbrev pub hdr_size : ℕ
hdr_size = 8

unfoldable pub hdr_at : Endian → List ℕ → DriveProtoHdr
hdr_at e m = record {
  version = get_or m 0 0;
  length_flags = load16 e m 1;
  checksum = load16 e m 3;
  sequence = get_or m 5 0;
  drive = get_or m 6 0;
  function = get_or m 7 0;
}

unfoldable pub hdr_bytes : Endian → DriveProtoHdr → List ℕ
hdr_bytes e h =
    h.version
    ∷ (store16 e h.length_flags ++ (store16 e h.checksum ++ h.sequence ∷ h.drive ∷ h.function ∷ []))

-- One round of the BSD checksum: rotate right by one, add.
unfoldable pub bsd_round : ℕ → ℕ → ℕ
bsd_round res b = u16 (u16 (bit_or (res * 2 ^ 15) (res / 2)) + b)

unfoldable pub bsd_loop : ℕ → List ℕ → ℕ
bsd_loop res [] = res
bsd_loop res (b ∷ bs) = bsd_loop (bsd_round res b) bs

unfoldable pub bsd_checksum : List ℕ → ℕ
bsd_checksum m = bsd_loop 0 m

-- The part of a packet behind the field `checksum`.
abbrev pub summed : List ℕ → List ℕ
summed = drop 5

-- The checks of the main loop: the packet cut to the length that its header states, and whether a
-- checksum is present; nothing if the packet is ignored.
unfoldable pub check_request : Endian → List ℕ → Option (List ℕ × Bool)
check_request e m =
    if ltb (length m) hdr_size
    then none
    else let h = hdr_at e m in
      if not (h.version == drive_proto_version)
      then none
      else let checksum_present =
          not (bit_and (from_little16 e h.length_flags) flag_checksum_used == 0) in
        let length_from_header = bit_and (from_little16 e h.length_flags) 0x7ff in
        if ltb length_from_header hdr_size
        then none
        else if ltb (length m) length_from_header
        then none
        else let request = take length_from_header m in
          if checksum_present
          then (if bsd_checksum (summed request) == from_little16 e h.checksum
              then some (request, true)
              else none)
          else if from_little16 e h.checksum == drive_proto_magic
          then some (request, false)
          else none

-- What the handler of a request decides: the flag of the extended features, the value of AX, and
-- the data behind the header.
pub record Answer : Type 0 where
  pub extended_features : Bool
  pub return_code : ℕ
  pub content : List ℕ

-- The header that `process_request` gives a reply. The flags are stored as a host value.
abbrev pub reply_header : Endian → List ℕ → Answer → DriveProtoHdr
reply_header e request a =
    let ax = store16 e (to_little16 e a.return_code) in
    record (hdr_at e request) {
      length_flags = if a.extended_features then flag_extended_features else 0;
      drive = get_or ax 0 0;
      function = get_or ax 1 0;
    }

-- The reply that `process_request` leaves in `send_packet`.
unfoldable pub reply_packet : Endian → List ℕ → Answer → List ℕ
reply_packet e request a = hdr_bytes e (reply_header e request a) ++ a.content

-- The header of a reply just before it is sent.
unfoldable pub finish_header : Endian → Bool → Bool → List ℕ → DriveProtoHdr
finish_header e read_only checksum_present p =
    let h = hdr_at e p in
    let sized = bit_or h.length_flags (to_little16 e (u16 (length p))) in
    let marked = if read_only then bit_or sized (to_little16 e flag_ro_share) else sized in
    if checksum_present
    then (record h {
      length_flags = bit_or marked (to_little16 e flag_checksum_used);
      checksum = to_little16 e (bsd_checksum (summed p));
    })
    else (record h {
      length_flags = bit_and marked (to_little16 e 0x7fff);
      checksum = to_little16 e drive_proto_magic;
    })

unfoldable pub finish_reply : Endian → Bool → Bool → List ℕ → List ℕ
unfolding finish_header
finish_reply e read_only checksum_present p =
    hdr_bytes e (finish_header e read_only checksum_present p) ++ drop hdr_size p
