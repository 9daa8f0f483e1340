-- ===== src/Handlers.antt =====
-- netmount-server/netmount-server.cpp, the cases of the switch in `process_request`, but for those
-- that search or open; shared/drvproto.h, the data of their requests and replies. A case works on
-- the state of the drive that the request names. It gives nothing where the source returns -1, and
-- otherwise the flag, the return code and the data of the reply. The byte order `e` of the host is an
-- argument.
pub mod Replies
pub mod Searches
pub mod Opens
pub mod Sizes
pub mod Fits
pub mod Reads
pub mod Protected
pub mod Escape
mod Examples
use net_mount.Base.{
  ℕ, ◌+◌, ◌-◌, ◌*◌, ◌/◌, ◌%◌, ◌^◌, List, [], ◌∷◌, ◌++◌, Bool, true, false, ◌||◌, not, if◌then◌else◌,
  ◌==◌, ltb, leb, length, take, drop, get_or, Option, none, some,
}
use net_mount.Bytes.{Endian, u16, load16, load32, from_little16, from_little32}
use net_mount.Proto.{Answer}
use net_mount.Drive.{FsPath, DosFileProperties}
use net_mount.DiskInfo.{disk_info, disk_info_large}
use net_mount.ClientPath.{create_relative_path, get_dos_err_code}
use net_mount.Exec.{Exec, Failure, pure, throw, look, try_catch, ◌>>=◌, ◌>>◌}
use net_mount.Os.{Os, no_error, path_not_found, access_denied, file_not_found}
use net_mount.Folder.{Share, State}
use net_mount.Operations as Drive
use net_mount.Handlers.Replies.{
  le16, bytes_of_disk_info, bytes_of_disk_info_large, bytes_of_attrs, bytes_of_position,
}

abbrev pub answer : ℕ → List ℕ → Answer
answer code content = record { extended_features = true; return_code = code; content = content }

-- The fields of a request, `i` bytes into its data.
abbrev pub field16 : Endian → List ℕ → ℕ → ℕ
field16 e m i = from_little16 e (load16 e m i)

abbrev pub field32 : Endian → List ℕ → ℕ → ℕ
field32 e m i = from_little32 e (load32 e m i)

-- The distance back from the end that a signed 32-bit offset states: a positive one counts as 0.
unfoldable pub back_from_end : ℕ → ℕ
back_from_end offset = if ltb offset (2 ^ 31) then 0 else 2 ^ 32 - offset

-- The answer for a size of 32 signed bits: from there back, but not beyond the start.
unfoldable pub seek_answer : Endian → ℕ → ℕ → Answer
seek_answer e offset size =
    if ltb size (2 ^ 31)
    then answer no_error (bytes_of_position e (size - back_from_end offset))
    else answer file_not_found []

module _ {S : Type 0} where
  -- A handler that the source leaves with -1.
  abbrev pub refuse : Exec S (Option Answer)
  refuse = pure none

  -- `try { m } catch (...)` with the code for an exception that has none.
  unfoldable pub guarded : ℕ → Exec S Answer → Exec S (Option Answer)
  guarded default_code m =
      try_catch m (λ e. pure (answer (get_dos_err_code e default_code) [])) >>= λ a. pure (some a)

  -- As above, but with the same code for every exception.
  unfoldable pub guarded_by : ℕ → Exec S Answer → Exec S (Option Answer)
  guarded_by code m = try_catch m (λ e. pure (answer code [])) >>= λ a. pure (some a)

  abbrev pub done : Exec S Unit → Exec S Answer
  done m = m >> pure (answer no_error [])

  -- The requests that only name a path.
  unfoldable pub on_path : ℕ → (FsPath → Exec S Answer) → List ℕ → Exec S (Option Answer)
  on_path default_code op m =
      if ltb (length m) 1 then refuse else guarded default_code (op (create_relative_path m))

module _ (e : Endian) {W : Type 0} (os : Os W) (share : Share) (to_ascii : List ℕ → List ℕ) where
  unfoldable pub make_dir : List ℕ → Exec (State W) (Option Answer)
  make_dir = on_path path_not_found (λ p. done (Drive.make_dir os share to_ascii p))

  unfoldable pub remove_dir : List ℕ → Exec (State W) (Option Answer)
  remove_dir = on_path path_not_found (λ p. done (Drive.delete_dir os share to_ascii p))

  unfoldable pub change_dir : List ℕ → Exec (State W) (Option Answer)
  change_dir = on_path path_not_found (λ p. done (Drive.change_dir os share to_ascii p))

  unfoldable pub delete_file : List ℕ → Exec (State W) (Option Answer)
  delete_file = on_path file_not_found (λ p. done (Drive.delete_files os share to_ascii p))

  unfoldable pub get_attrs : List ℕ → Exec (State W) (Option Answer)
  get_attrs = on_path file_not_found (λ p. do
    found ← Drive.get_dos_properties os share to_ascii p
    pure (answer no_error (bytes_of_attrs e found.1)))

  unfoldable pub set_attrs : List ℕ → Exec (State W) (Option Answer)
  set_attrs m =
      if leb (length m) 1
      then refuse
      else guarded file_not_found (
          done (
            Drive.set_item_attrs os share to_ascii (create_relative_path (drop 1 m))
              (get_or m 0 0)))

  -- Two paths, the first one behind its length.
  unfoldable pub rename_file : List ℕ → Exec (State W) (Option Answer)
  rename_file m =
      let path1_len = get_or m 0 0 in
      if ltb (length m) 3 || leb (length m) (path1_len + 1)
      then refuse
      else guarded access_denied (
          done (
            Drive.rename_file os share to_ascii (create_relative_path (take path1_len (drop 1 m)))
              (create_relative_path (drop (1 + path1_len) m))))

  -- The reply shows whether the time stamps of clients are used.
  abbrev pub with_flag : Answer → Exec (State W) Answer
  with_flag a = pure (record a { extended_features = share.use_client_timestamp })

  unfoldable pub close_plain : List ℕ → Exec (State W) Unit
  close_plain m = Drive.get_handle_path os share to_ascii (field16 e m 0) >> pure tt

  unfoldable pub close_extended : List ℕ → Exec (State W) Unit
  close_extended m =
      Drive.set_file_date_time os share to_ascii (field16 e m 0) (field32 e m 2) >> pure tt

  abbrev pub closed : Exec (State W) Unit → Exec (State W) (Option Answer)
  closed m = do
    a ← try_catch (done m) (λ ex. pure (answer (get_dos_err_code ex no_error) []))
    pure (some (record a { extended_features = share.use_client_timestamp }))

  -- `extended` says that the request has the flag of the extended features.
  unfoldable pub close_file : Bool → List ℕ → Exec (State W) (Option Answer)
  close_file extended m =
      if not (length m == (if extended then 6 else 2))
      then refuse
      else closed (if extended then close_extended m else close_plain m)

  unfoldable pub read_file : List ℕ → Exec (State W) (Option Answer)
  read_file m =
      if not (length m == 8)
      then refuse
      else guarded access_denied (do
        bytes ← Drive.read_file os share to_ascii (field16 e m 4) (field32 e m 0) (field16 e m 6)
        pure (answer no_error bytes))

  unfoldable pub write_file : List ℕ → Exec (State W) (Option Answer)
  write_file m =
      if ltb (length m) 6
      then refuse
      else guarded access_denied (do
        written ← Drive.write_file os share to_ascii (field16 e m 4) (field32 e m 0) (drop 6 m)
        pure (answer no_error (le16 e written)))

  -- LOCK_UNLOCK_FILE and UNLOCK_FILE only look whether the handle is there.
  unfoldable pub lock_file : List ℕ → Exec (State W) (Option Answer)
  lock_file m =
      if ltb (length m) 4
      then refuse
      else guarded no_error
          (done (Drive.get_handle_path os share to_ascii (field16 e m 2) >> pure tt))

  unfoldable pub get_disk_info : List ℕ → Exec (State W) (Option Answer)
  get_disk_info m =
      if not (length m == 0)
      then refuse
      else guarded_by access_denied (do
        space ← Drive.space_info os share to_ascii
        pure (answer 1 (bytes_of_disk_info e (disk_info space.0 space.1))))

  unfoldable pub get_disk_info_large : List ℕ → Exec (State W) (Option Answer)
  get_disk_info_large m =
      if not (length m == 0)
      then refuse
      else guarded_by access_denied (do
        space ← Drive.space_info os share to_ascii
        pure (answer no_error (bytes_of_disk_info_large e (disk_info_large space.0 space.1))))

  unfoldable pub seek_from_end : List ℕ → Exec (State W) (Option Answer)
  seek_from_end m = if not (length m == 6) then refuse else do
    size ← try_catch (Drive.get_file_size os share to_ascii (field16 e m 4)) (λ ex. pure 0xffffffff)
    pure (some (seek_answer e (field16 e m 2 * 2 ^ 16 + field16 e m 0) size))

  unfoldable pub feature_query : List ℕ → Exec (State W) (Option Answer)
  feature_query m = if not (length m == 2) then refuse else pure (some (answer no_error []))
