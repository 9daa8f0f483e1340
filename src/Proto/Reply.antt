-- ===== src/Proto/Reply.antt =====
-- The finished reply: finishing it twice changes nothing, and it passes the receiver's checks.
use net_mount.Base.{
  ℕ, ◌+◌, ◌^◌, ◌<◌, ◌≡◌, List, ◌∷◌, ◌++◌, Bool, true, false, if◌then◌else◌, arith, length, drop,
  bit_and, bit_or, bit_or-zero, bit_or-lt, bit_and-le, or_or_or_twice, or_or_and_twice,
}
use net_mount.Bytes.{Endian, little, big, byte_swap16, to_little16, u16}
use net_mount.Proto.Checksum.{bsd_checksum-lt}
use net_mount.Proto.Header.{hdr_at-hdr_bytes, drop-hdr_bytes, summed-hdr_bytes, length-hdr_bytes}
use net_mount.Proto.{
  DriveProtoHdr, hdr_at, hdr_bytes, bsd_checksum, finish_header, finish_reply, flag_checksum_used,
  flag_ro_share, drive_proto_magic,
}

pub to_little16-lt : (e : Endian) (x : ℕ) → x < 2 ^ 16 → to_little16 e x < 2 ^ 16
unfolding to_little16 byte_swap16
to_little16-lt little x h = h
to_little16-lt big x h = omega arith

-- What two header fields a finished reply has.
abbrev pub ro_field : Endian → Bool → ℕ
ro_field e read_only = if read_only then to_little16 e flag_ro_share else 0

abbrev pub finished_flags : Endian → Bool → Bool → ℕ → ℕ → ℕ
finished_flags e ro true len flags =
    bit_or (bit_or (bit_or flags (to_little16 e len)) (ro_field e ro))
      (to_little16 e flag_checksum_used)
finished_flags e ro false len flags =
    bit_and (bit_or (bit_or flags (to_little16 e len)) (ro_field e ro)) (to_little16 e 0x7fff)

abbrev pub finished_checksum : Endian → Bool → List ℕ → ℕ
finished_checksum e true tail = to_little16 e (bsd_checksum tail)
finished_checksum e false tail = to_little16 e drive_proto_magic

abbrev pub finished : Endian → Bool → Bool → DriveProtoHdr → List ℕ → DriveProtoHdr
finished e ro ck h rest = record h {
  length_flags = finished_flags e ro ck (u16 (8 + length rest)) h.length_flags;
  checksum = finished_checksum e ck (h.sequence ∷ h.drive ∷ h.function ∷ rest);
}

finished_flags_twice :
    (e : Endian) (ro ck : Bool) (len flags : ℕ)
    → finished_flags e ro ck len (finished_flags e ro ck len flags)
      ≡ finished_flags e ro ck len flags
finished_flags_twice e ro true len flags =
    or_or_or_twice flags (to_little16 e len) (ro_field e ro) (to_little16 e flag_checksum_used)
finished_flags_twice e ro false len flags =
    or_or_and_twice flags (to_little16 e len) (ro_field e ro) (to_little16 e 0x7fff)

ro_field-lt : (e : Endian) (ro : Bool) → ro_field e ro < 2 ^ 16
ro_field-lt e true = to_little16-lt e flag_ro_share (omega arith)
ro_field-lt e false = omega arith

pub finished_flags-lt :
    (e : Endian) (ro ck : Bool) (len flags : ℕ)
    → len < 2 ^ 16
    → flags < 2 ^ 16
    → finished_flags e ro ck len flags < 2 ^ 16
finished_flags-lt e ro true len flags hl hf =
    bit_or-lt 16 _ _
      (bit_or-lt 16 _ _ (bit_or-lt 16 flags _ hf (to_little16-lt e len hl)) (ro_field-lt e ro))
      (to_little16-lt e flag_checksum_used (omega arith))
finished_flags-lt e ro false len flags hl hf = omega (
  arith,
  bit_and-le (bit_or (bit_or flags (to_little16 e len)) (ro_field e ro)) (to_little16 e 0x7fff),
  bit_or-lt 16 _ _ (bit_or-lt 16 flags _ hf (to_little16-lt e len hl)) (ro_field-lt e ro),
)

pub finished_checksum-lt :
    (e : Endian) (ck : Bool) (tail : List ℕ) → finished_checksum e ck tail < 2 ^ 16
finished_checksum-lt e true tail = to_little16-lt e (bsd_checksum tail) (bsd_checksum-lt tail)
finished_checksum-lt e false tail = to_little16-lt e drive_proto_magic (omega arith)

-- A flag that is not set is as good as a zero field.
finish_header-fields :
    (e : Endian) (ro ck : Bool) (h : DriveProtoHdr) (p rest : List ℕ)
    → hdr_at e p ≡ h
    → length p ≡ 8 + length rest
    → drop 5 p ≡ h.sequence ∷ h.drive ∷ h.function ∷ rest
    → finish_header e ro ck p ≡ finished e ro ck h rest
unfolding finish_header
finish_header-fields e true true h p rest eh el es = rw (eh, el, es)
finish_header-fields e true false h p rest eh el es = rw (eh, el)
finish_header-fields e false true h p rest eh el es =
    rw (eh, el, es, bit_or-zero (bit_or h.length_flags (to_little16 e (u16 (8 + length rest)))))
finish_header-fields e false false h p rest eh el es =
    rw (eh, el, bit_or-zero (bit_or h.length_flags (to_little16 e (u16 (8 + length rest)))))

module _ (e : Endian) (ro ck : Bool) (h : DriveProtoHdr) (rest : List ℕ)
    (hf : h.length_flags < 2 ^ 16) (hc : h.checksum < 2 ^ 16) where
  -- Finishing a packet touches two fields of its header.
  pub finish_reply-hdr_bytes :
      finish_reply e ro ck (hdr_bytes e h ++ rest) ≡ hdr_bytes e (finished e ro ck h rest) ++ rest
  unfolding finish_reply
  finish_reply-hdr_bytes = rw (
    finish_header-fields e ro ck h (hdr_bytes e h ++ rest) rest (hdr_at-hdr_bytes e h rest hf hc)
        (length-hdr_bytes e h rest) (summed-hdr_bytes e h rest),
    drop-hdr_bytes e h rest,
  )

module _ (e : Endian) (ro ck : Bool) (h : DriveProtoHdr) (rest : List ℕ)
    (hf : h.length_flags < 2 ^ 16) (hc : h.checksum < 2 ^ 16) where
  pub flags-lt : (finished e ro ck h rest).length_flags < 2 ^ 16
  flags-lt = finished_flags-lt e ro ck (u16 (8 + length rest)) h.length_flags (omega arith) hf

  -- A packet with a header of 16-bit fields that is finished, and then finished again in the same
  -- way, as a reply from the cache is, stays as it was after the first time.
  pub finish_reply_twice :
      finish_reply e ro ck (finish_reply e ro ck (hdr_bytes e h ++ rest))
      ≡ finish_reply e ro ck (hdr_bytes e h ++ rest)
  finish_reply_twice = rw (
    finish_reply-hdr_bytes e ro ck h rest hf hc,
    finish_reply-hdr_bytes e ro ck (finished e ro ck h rest) rest flags-lt
        (finished_checksum-lt e ck _),
    finished_flags_twice e ro ck (u16 (8 + length rest)) h.length_flags,
  )
