-- ===== src/Requests/Reading.antt =====
-- Requests that only read, to any drive.
use net_mount.Base.{
  ℕ, ◌≡◌, refl, List, Bool, true, ◌||◌, false, not, ltb, Option, none, some, bit_and, Bool-cases,
  inl, inr, arith,
}
use net_mount.Bytes.{Endian}
use net_mount.Proto.{hdr_at}
use net_mount.Exec.Keeps.{Keeps}
use net_mount.Os.{Os}
use net_mount.Folder.{Share}
use net_mount.Folder.Rules.{HasWorld}
use net_mount.Handlers.Reads.{
  get_attrs-Keeps, read-Keeps, lock-Keeps, disk_info-Keeps, disk_info_large-Keeps, seek-Keeps,
  feature-Keeps, find_first-Keeps, find_next-Keeps,
}
use net_mount.Requests.{
  Function, remove_dir, make_dir, change_dir, close_file, read_file, write_file, lock_unlock_file,
  unlock_file, disk_info, disk_info_large, set_attrs, get_attrs, rename_file, delete_file,
  find_first_file, find_next_file, seek_from_end, open_existing, create, extended_open,
  feature_query, function_of, Drive, Machine, serve, serve_on, serve_drive, handle,
}

-- The functions whose name promises no change: reading a file or its attributes, locks, the size of
-- the disk, searching, and the query of features. A code that is no function promises none either.
abbrev pub only_reads : Option Function → Bool
only_reads none = true
only_reads (some read_file) = true
only_reads (some lock_unlock_file) = true
only_reads (some unlock_file) = true
only_reads (some disk_info) = true
only_reads (some disk_info_large) = true
only_reads (some get_attrs) = true
only_reads (some find_first_file) = true
only_reads (some find_next_file) = true
only_reads (some seek_from_end) = true
only_reads (some feature_query) = true
only_reads (some remove_dir) = false
only_reads (some make_dir) = false
only_reads (some change_dir) = false
only_reads (some close_file) = false
only_reads (some write_file) = false
only_reads (some set_attrs) = false
only_reads (some rename_file) = false
only_reads (some delete_file) = false
only_reads (some open_existing) = false
only_reads (some create) = false
only_reads (some extended_open) = false

module _ (e : Endian) {W : Type 0} {w : W} (os : Os W) (to_ascii : List ℕ → List ℕ)
    (share : Share) where
  serve_reading-Keeps :
      (function : Function) (extended : Bool) (m : List ℕ)
      → only_reads (some function) ≡ true
      → Keeps (HasWorld w) (serve e os to_ascii share function extended m)
  unfolding serve
  serve_reading-Keeps read_file x m h = read-Keeps e os share to_ascii m
  serve_reading-Keeps lock_unlock_file x m h = lock-Keeps e os share to_ascii m
  serve_reading-Keeps unlock_file x m h = lock-Keeps e os share to_ascii m
  serve_reading-Keeps disk_info x m h = disk_info-Keeps e os share to_ascii m
  serve_reading-Keeps disk_info_large x m h = disk_info_large-Keeps e os share to_ascii m
  serve_reading-Keeps get_attrs x m h = get_attrs-Keeps e os share to_ascii m
  serve_reading-Keeps find_first_file x m h = find_first-Keeps e os share to_ascii m
  serve_reading-Keeps find_next_file x m h = find_next-Keeps e os share to_ascii m
  serve_reading-Keeps seek_from_end x m h = seek-Keeps e os share to_ascii m
  serve_reading-Keeps feature_query x m h = feature-Keeps e os share to_ascii m
  serve_reading-Keeps remove_dir x m h = absurd (ground (arith, h))
  serve_reading-Keeps make_dir x m h = absurd (ground (arith, h))
  serve_reading-Keeps change_dir x m h = absurd (ground (arith, h))
  serve_reading-Keeps close_file x m h = absurd (ground (arith, h))
  serve_reading-Keeps write_file x m h = absurd (ground (arith, h))
  serve_reading-Keeps set_attrs x m h = absurd (ground (arith, h))
  serve_reading-Keeps rename_file x m h = absurd (ground (arith, h))
  serve_reading-Keeps delete_file x m h = absurd (ground (arith, h))
  serve_reading-Keeps open_existing x m h = absurd (ground (arith, h))
  serve_reading-Keeps create x m h = absurd (ground (arith, h))
  serve_reading-Keeps extended_open x m h = absurd (ground (arith, h))

module _ (e : Endian) {W : Type 0} (os : Os W) (to_ascii : List ℕ → List ℕ) where
  serve_drive_reading-world :
      (machine : Machine W) (n : ℕ) (drive : Option Drive) (function : Option Function)
      (extended : Bool) (m : List ℕ)
      → only_reads function ≡ true
      → (serve_drive e os to_ascii machine n drive function extended m).0.world ≡ machine.world
  serve_drive_reading-world machine n none function extended m h = refl
  serve_drive_reading-world machine n (some drive) function extended m h =
      elim (Bool-cases (not drive.share.used)) [
        | inl unused ↦ rw unused refl
        | inr used ↦ rw used (on_drive function h)
      ]
    where
      on_drive :
          (function : Option Function)
          → only_reads function ≡ true
          → (serve_on e os to_ascii machine n drive function extended m).0.world ≡ machine.world
      on_drive none h = refl
      on_drive (some function) h =
          (serve_reading-Keeps e os to_ascii drive.share function extended m h).holds _ refl

  -- A request with a function that only reads, or with no function of the server, leaves the world
  -- outside the server as it is, whatever its data are and whatever the settings of its drive.
  pub handle_reading-world :
      (machine : Machine W) (request : List ℕ)
      → only_reads (function_of (hdr_at e request).function) ≡ true
      → (handle e os to_ascii machine request).0.world ≡ machine.world
  unfolding handle
  handle_reading-world machine request h =
      elim (Bool-cases (machine.ended || ltb (bit_and (hdr_at e request).drive 0x1f) 2)) [
        | inl low ↦ rw low refl
        | inr high ↦ rw high (serve_drive_reading-world machine _ _ _ _ _ h)
      ]
