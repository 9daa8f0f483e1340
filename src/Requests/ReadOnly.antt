-- ===== src/Requests/ReadOnly.antt =====
-- Requests to a drive that is read-only.
use net_mount.Base.{
  ℕ, ◌≡◌, ◌≢◌, refl, List, Bool, true, ◌||◌, not, ltb, Option, none, some, bit_and, Bool-cases, inl,
  inr,
}
use net_mount.Bytes.{Endian}
use net_mount.Proto.{hdr_at}
use net_mount.Exec.Keeps.{Keeps}
use net_mount.Os.{Os}
use net_mount.Folder.{Share}
use net_mount.Folder.Rules.{HasWorld}
use net_mount.Handlers.Opens.{open_file, create_file, extended_open_create}
use net_mount.Handlers.Reads.{
  get_attrs-Keeps, read-Keeps, lock-Keeps, disk_info-Keeps, disk_info_large-Keeps, seek-Keeps,
  feature-Keeps, find_first-Keeps, find_next-Keeps,
}
use net_mount.Handlers.Protected.{
  make-Keeps, remove-Keeps, delete-Keeps, set_attrs-Keeps, rename-Keeps, write-Keeps, close-Keeps,
  open-Keeps,
}
use net_mount.Requests.{
  Function, remove_dir, make_dir, change_dir, close_file, read_file, write_file, lock_unlock_file,
  unlock_file, disk_info, disk_info_large, set_attrs, get_attrs, rename_file, delete_file,
  find_first_file, find_next_file, seek_from_end, open_existing, create, extended_open,
  feature_query, function_of, Drive, Machine, serve, serve_on, serve_drive, handle, drive_read_only,
  is_read_only,
}

module _ (e : Endian) {W : Type 0} {w : W} (os : Os W) (to_ascii : List ℕ → List ℕ) (share : Share)
    (protected : share.read_only ≡ true) where
  serve-Keeps :
      (function : Function) (extended : Bool) (m : List ℕ)
      → function ≢ change_dir
      → Keeps (HasWorld w) (serve e os to_ascii share function extended m)
  unfolding serve
  serve-Keeps remove_dir x m ne = remove-Keeps e os share to_ascii protected m
  serve-Keeps make_dir x m ne = make-Keeps e os share to_ascii protected m
  serve-Keeps change_dir x m ne = absurd (ne refl)
  serve-Keeps close_file x m ne = close-Keeps e os share to_ascii protected x m
  serve-Keeps read_file x m ne = read-Keeps e os share to_ascii m
  serve-Keeps write_file x m ne = write-Keeps e os share to_ascii protected m
  serve-Keeps lock_unlock_file x m ne = lock-Keeps e os share to_ascii m
  serve-Keeps unlock_file x m ne = lock-Keeps e os share to_ascii m
  serve-Keeps disk_info x m ne = disk_info-Keeps e os share to_ascii m
  serve-Keeps disk_info_large x m ne = disk_info_large-Keeps e os share to_ascii m
  serve-Keeps set_attrs x m ne = set_attrs-Keeps e os share to_ascii protected m
  serve-Keeps get_attrs x m ne = get_attrs-Keeps e os share to_ascii m
  serve-Keeps rename_file x m ne = rename-Keeps e os share to_ascii protected m
  serve-Keeps delete_file x m ne = delete-Keeps e os share to_ascii protected m
  serve-Keeps find_first_file x m ne = find_first-Keeps e os share to_ascii m
  serve-Keeps find_next_file x m ne = find_next-Keeps e os share to_ascii m
  serve-Keeps seek_from_end x m ne = seek-Keeps e os share to_ascii m
  serve-Keeps open_existing x m ne = open-Keeps e os share to_ascii protected open_file m
  serve-Keeps create x m ne = open-Keeps e os share to_ascii protected create_file m
  serve-Keeps extended_open x m ne = open-Keeps e os share to_ascii protected extended_open_create m
  serve-Keeps feature_query x m ne = feature-Keeps e os share to_ascii m

module _ (e : Endian) {W : Type 0} (os : Os W) (to_ascii : List ℕ → List ℕ) where
  serve_on-world :
      (machine : Machine W) (n : ℕ) (drive : Drive) (function : Option Function) (extended : Bool)
      (m : List ℕ)
      → drive.share.read_only ≡ true
      → function ≢ some change_dir
      → (serve_on e os to_ascii machine n drive function extended m).0.world ≡ machine.world
  serve_on-world machine n drive none extended m h ne = refl
  serve_on-world machine n drive (some function) extended m h ne =
      (serve-Keeps e os to_ascii drive.share h function extended m
          (λ p. ne (λ i. some (p i)))).holds
        _ refl

  serve_drive-world :
      (machine : Machine W) (n : ℕ) (drive : Option Drive) (function : Option Function)
      (extended : Bool) (m : List ℕ)
      → drive_read_only drive ≡ true
      → function ≢ some change_dir
      → (serve_drive e os to_ascii machine n drive function extended m).0.world ≡ machine.world
  serve_drive-world machine n none function extended m h ne = refl
  serve_drive-world machine n (some drive) function extended m h ne =
      elim (Bool-cases (not drive.share.used)) [
        | inl unused ↦ rw unused refl
        | inr used ↦ rw used (serve_on-world machine n drive function extended m h ne)
      ]

  -- A request to a drive that is read-only, whatever its bytes are, leaves the world outside the
  -- server as it is, unless its function is CHANGE_DIR.
  pub handle-world :
      (machine : Machine W) (request : List ℕ)
      → is_read_only machine (bit_and (hdr_at e request).drive 0x1f) ≡ true
      → function_of (hdr_at e request).function ≢ some change_dir
      → (handle e os to_ascii machine request).0.world ≡ machine.world
  unfolding handle is_read_only
  handle-world machine request h ne =
      elim (Bool-cases (machine.ended || ltb (bit_and (hdr_at e request).drive 0x1f) 2)) [
        | inl low ↦ rw low refl
        | inr high ↦ rw high (serve_drive-world machine _ _ _ _ _ h ne)
      ]
