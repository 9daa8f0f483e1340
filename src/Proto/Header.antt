-- ===== src/Proto/Header.antt =====
-- `drive_proto_hdr` in memory: what is stored is read back.
use net_mount.Base.{ℕ, ◌+◌, ◌^◌, ◌<◌, ◌≡◌, refl, List, ◌∷◌, ◌++◌, arith, length, drop}
use net_mount.Bytes.{Endian, little, big, store16, load16}
use net_mount.Proto.{DriveProtoHdr, hdr_at, hdr_bytes}

module _ (e : Endian) (h : DriveProtoHdr) (rest : List ℕ) where
  -- The header that lies in memory is the header that was stored there.
  pub hdr_at-hdr_bytes :
      h.length_flags < 2 ^ 16 → h.checksum < 2 ^ 16 → hdr_at e (hdr_bytes e h ++ rest) ≡ h
  unfolding hdr_at hdr_bytes store16 load16
  hdr_at-hdr_bytes p q = elim e as (λ e. hdr_at e (hdr_bytes e h ++ rest) ≡ h) [
    | little ↦ ground arith
    | big ↦ ground arith
  ]

  -- Behind the header lies what was put there.
  pub drop-hdr_bytes : drop 8 (hdr_bytes e h ++ rest) ≡ rest
  unfolding hdr_bytes store16
  drop-hdr_bytes = elim e as (λ e. drop 8 (hdr_bytes e h ++ rest) ≡ rest) [
    | little ↦ refl
    | big ↦ refl
  ]

  pub summed-hdr_bytes : drop 5 (hdr_bytes e h ++ rest) ≡ h.sequence ∷ h.drive ∷ h.function ∷ rest
  unfolding hdr_bytes store16
  summed-hdr_bytes =
      elim e as (λ e. drop 5 (hdr_bytes e h ++ rest) ≡ h.sequence ∷ h.drive ∷ h.function ∷ rest) [
        | little ↦ refl
        | big ↦ refl
      ]

  pub length-hdr_bytes : length (hdr_bytes e h ++ rest) ≡ 8 + length rest
  unfolding hdr_bytes store16
  length-hdr_bytes = elim e as (λ e. length (hdr_bytes e h ++ rest) ≡ 8 + length rest) [
    | little ↦ omega arith
    | big ↦ omega arith
  ]
