-- ===== src/Handlers/Searches.antt =====
-- netmount-server/netmount-server.cpp, the cases FIND_FIRST and FIND_NEXT of `process_request`.
use net_mount.Base.{
  ℕ, ◌+◌, List, [], false, not, if◌then◌else◌, ◌==◌, leb, length, take, drop, get_or, Option, some,
}
use net_mount.Bytes.{Endian}
use net_mount.Proto.{Answer}
use net_mount.Fcb.{FcbFileName, short_name_to_fcb}
use net_mount.Drive.{FsPath}
use net_mount.ClientPath.{create_relative_path, get_dos_err_code}
use net_mount.Exec.{Exec, Result, ok, err, dos_error, pure, try_catch, ◌>>=◌}
use net_mount.Os.{Os, no_error, no_more_files}
use net_mount.Os as Os
use net_mount.Folder.{
  Share, State, create_directory_list, create_server_path, handle_of, parent_path,
}
use net_mount.Search.{find_file, hit, not_found, invalid_handle}
use net_mount.Search as Search
use net_mount.Operations.{filename}
use net_mount.Handlers.{answer, field16, refuse, guarded_by}
use net_mount.Handlers.Replies.{bytes_of_find}

-- The exception of `find_file`.
abbrev pub or_throw : Search.Result → Result Search.Result
or_throw (hit props nth) = ok (hit props nth)
or_throw not_found = ok not_found
or_throw invalid_handle = err (dos_error Os.invalid_handle)

abbrev pub find_answer : Endian → ℕ → Search.Result → Answer
find_answer e handle (hit props nth) = answer no_error (bytes_of_find e props handle nth)
find_answer e handle not_found = answer no_more_files []
find_answer e handle invalid_handle = answer no_more_files []

-- The name in a request, `i` bytes into its data.
unfoldable pub mask_at : List ℕ → ℕ → FcbFileName
mask_at m i = record {
  name_blank_padded = take 8 (drop i m);
  ext_blank_padded = take 3 (drop (i + 8) m);
}

module _ (e : Endian) {W : Type 0} (os : Os W) (share : Share) (to_ascii : List ℕ → List ℕ) where
  -- `find_file` of the drive.
  unfoldable pub search : ℕ → FcbFileName → ℕ → ℕ → Exec (State W) Search.Result
  search handle mask attr nth s =
      let (r, items) =
        find_file (os.now s.world) (create_directory_list os share to_ascii s.world)
          share.volume_label s.items handle mask attr nth in
      (or_throw r, record s { items = items })

  -- The directory of a search template.
  unfoldable pub template_handle : FsPath → Exec (State W) ℕ
  template_handle template = do
    target ← create_server_path os share to_ascii template false
    handle_of os (parent_path target.0)

  -- Behind the `try` of FIND_FIRST: an exception of `find_file` is not caught.
  abbrev pub search_first : FcbFileName → ℕ → Result ℕ → Exec (State W) (Option Answer)
  search_first mask attr (err ex) = pure (some (answer (get_dos_err_code ex no_more_files) []))
  search_first mask attr (ok handle) =
      if handle == 0xffff
      then pure (some (answer no_more_files []))
      else search handle mask attr 0 >>= λ r. pure (some (find_answer e handle r))

  unfoldable pub find_first : List ℕ → Exec (State W) (Option Answer)
  find_first m = if leb (length m) 1 then refuse else do
    let template = create_relative_path (drop 1 m)
    start ← try_catch (template_handle template >>= λ h. pure (ok h)) (λ ex. pure (err ex))
    search_first (short_name_to_fcb (filename template)) (get_or m 0 0) start

  unfoldable pub find_next : List ℕ → Exec (State W) (Option Answer)
  find_next m =
      if not (length m == 16)
      then refuse
      else guarded_by no_more_files (do
        let handle = field16 e m 0
        r ← search handle (mask_at m 5) (get_or m 4 0) (field16 e m 2)
        pure (find_answer e handle r))
