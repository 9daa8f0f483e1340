-- ===== src/Handlers/Opens.antt =====
-- netmount-server/netmount-server.cpp, the cases OPEN_FILE, CREATE_FILE and
-- EXTENDED_OPEN_CREATE_FILE of `process_request`.
use net_mount.Base.{
  ℕ, List, [], false, not, if◌then◌else◌, ◌==◌, leb, length, drop, bit_and, Option,
}
use net_mount.Bytes.{Endian}
use net_mount.Proto.{Answer}
use net_mount.Fcb.{short_name_to_fcb}
use net_mount.Drive.{FsPath, DosFileProperties}
use net_mount.ClientPath.{create_relative_path}
use net_mount.Exec.{Exec, pure, throw, throw_if, ask, dos_error, ◌>>=◌, ◌>>◌}
use net_mount.Os.{
  Os, no_error, path_not_found, file_not_found, too_many_open_files, file_already_exists,
  fat_error_attr,
}
use net_mount.Folder.{Share, State, handle_of, parent_path}
use net_mount.Operations.{
  filename, server_path_of, not_root, recreate, get_server_path_attrs,
  get_server_path_dos_properties, create_or_truncate_file, try_open_file,
}
use net_mount.Handlers.{answer, field16, refuse, guarded}
use net_mount.Handlers.Replies.{bytes_of_open}

pub data OpenKind : Type 0 where
  open_file create_file extended_open_create : OpenKind

-- The mode and the result code for the client, and the properties of the file.
pub record Opened : Type 0 where
  pub mode : ℕ
  pub result_code : ℕ
  pub properties : DosFileProperties

abbrev pub opened : ℕ → ℕ → DosFileProperties → Opened
opened mode code props = record { mode = mode; result_code = code; properties = props }

module _ (e : Endian) {W : Type 0} (os : Os W) (share : Share) (to_ascii : List ℕ → List ℕ) where
  unfoldable pub do_open : FsPath → ℕ → Exec (State W) Opened
  do_open server_path stack_attr = do
    found ← get_server_path_dos_properties os share to_ascii server_path
    throw_if (found.0 == fat_error_attr) (dos_error file_not_found)
    try_open_file os share to_ascii server_path (bit_and stack_attr 0xff) found.0
    pure (opened (bit_and stack_attr 0xff) 0 found.1)

  unfoldable pub do_create : FsPath → FsPath → ℕ → Exec (State W) Opened
  do_create client_path server_path stack_attr = do
    there ← ask (λ s. os.exists server_path s.world)
    attr ←
        if there then get_server_path_attrs os share to_ascii server_path else pure fat_error_attr
    props ← create_or_truncate_file os share to_ascii server_path (bit_and stack_attr 0xff) attr
    if there then pure tt else recreate os share to_ascii client_path
    pure (opened 2 0 props)

  -- The file is not there.
  unfoldable pub create_new : FsPath → FsPath → ℕ → ℕ → ℕ → Exec (State W) Opened
  create_new client_path server_path stack_attr action mode =
      if not (bit_and action 0xf0 == 0x10) then throw (dos_error file_not_found) else do
        props ←
            create_or_truncate_file os share to_ascii server_path (bit_and stack_attr 0xff)
              fat_error_attr
        recreate os share to_ascii client_path
        pure (opened mode 2 props)

  -- The file is there, with the attributes `attr` and the properties `props`.
  unfoldable pub open_old : FsPath → ℕ → ℕ → ℕ → ℕ → DosFileProperties → Exec (State W) Opened
  open_old server_path stack_attr action mode attr props =
      if bit_and action 0x0f == 0x01
      then try_open_file os share to_ascii server_path mode attr >> pure (opened mode 1 props)
      else if bit_and action 0x0f == 0x02
      then create_or_truncate_file os share to_ascii server_path (bit_and stack_attr 0xff) attr
        >>= (λ replaced. pure (opened mode 3 replaced))
      else throw (dos_error file_already_exists)

  unfoldable pub do_extended : FsPath → FsPath → ℕ → ℕ → ℕ → Exec (State W) Opened
  do_extended client_path server_path stack_attr action ext_mode = do
    found ← get_server_path_dos_properties os share to_ascii server_path
    let mode = bit_and ext_mode 0x7f
    if found.0 == fat_error_attr
        then create_new client_path server_path stack_attr action mode
        else open_old server_path stack_attr action mode found.0 found.1

  abbrev pub do_kind : OpenKind → FsPath → FsPath → ℕ → ℕ → ℕ → Exec (State W) Opened
  do_kind open_file client_path server_path attrs action mode = do_open server_path attrs
  do_kind create_file client_path server_path attrs action mode =
      do_create client_path server_path attrs
  do_kind extended_open_create client_path server_path attrs action mode =
      do_extended client_path server_path attrs action mode

  unfoldable pub opened_answer : FsPath → FsPath → Opened → Exec (State W) Answer
  opened_answer client_path server_path o = do
    handle ← handle_of os server_path
    throw_if (handle == 0xffff) (dos_error too_many_open_files)
    pure (
        answer no_error (
          bytes_of_open e o.properties (short_name_to_fcb (filename client_path)) handle
            o.result_code o.mode))

  unfoldable pub open_in : OpenKind → FsPath → ℕ → ℕ → ℕ → Exec (State W) Answer
  open_in kind client_path attrs action mode = do
    target ← server_path_of os share to_ascii client_path false
    not_root os share to_ascii target.0
    is_dir ← ask (λ s. os.is_directory (parent_path target.0) s.world)
    if is_dir
        then do_kind kind client_path target.0 attrs action mode
          >>= opened_answer client_path target.0
        else pure (answer path_not_found [])

  unfoldable pub open_or_create : OpenKind → List ℕ → Exec (State W) (Option Answer)
  open_or_create kind m =
      if leb (length m) 6
      then refuse
      else guarded file_not_found (
          open_in kind (create_relative_path (drop 6 m)) (field16 e m 0) (field16 e m 2)
            (field16 e m 4))
