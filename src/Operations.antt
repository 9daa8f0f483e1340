-- ===== src/Operations.antt =====
-- netmount-server/fs.cpp, the operations of a drive (class `Drive`): on files by their handles
-- (`read_file`, `write_file`, `get_file_size`, `set_file_date_time`), and on paths of the client
-- (`make_dir`, `delete_dir`, `change_dir`, `set_item_attrs`, `get_dos_properties`, `rename_file`,
-- `delete_files`), and on paths of the server (`create_or_truncate_file`, `try_open_file`), and
-- `space_info`. A directory that is iterated over while its files are deleted gives the names that
-- it has at first.
pub mod Rules
use net_mount.Base.{
  ℕ, ◌+◌, List, [], ◌∷◌, ◌++◌, Bool, true, false, ◌&&◌, ◌||◌, not, if◌then◌else◌, ◌==◌, length, set,
  bit_and, bit_or, Option, none, some,
}
use net_mount.Fcb.{FcbFileName, elem, match_fcb_name_to_mask, short_name_to_fcb}
use net_mount.FatTime.{fat_to_time}
use net_mount.Drive.{
  FsPath, DosFileProperties, Item, is_empty, path_eq, get_item, get_item_or_blank,
}
use net_mount.Search.{fat_directory, fat_volume, fat_system}
use net_mount.Exec.{
  Exec, Result, ok, err, Failure, dos_error, other_error, pure, throw, ask, look, throw_if,
  try_catch, quiet, ◌>>=◌, ◌>>◌,
}
use net_mount.Os.{
  Os, Transfer, not_opened, not_positioned, moved, AttrsMode, ignore, is_ignore,
  is_dangling_symlink, get_item_attrs, get_path_dos_properties, resize_file, delete_file,
  fs_space_info, path_not_found, file_not_found, access_denied, invalid_handle,
  disk_write_protected, seek_error, fat_ro, fat_error_attr,
}
use net_mount.Os as Os
use net_mount.Folder.{
  Share, State, is_off, is_slash, append, parent_path, on_world, modify, create_server_path,
  handle_of,
}

-- `p.filename()`
abbrev pub filename : FsPath → List ℕ
filename [] = []
filename (part ∷ []) = if is_slash part then [] else part
filename (part ∷ next ∷ parts) = filename (next ∷ parts)

-- `p.string()`
unfoldable pub path_string : FsPath → List ℕ
path_string [] = []
path_string (part ∷ []) = part
path_string (part ∷ next ∷ parts) =
    let rest = path_string (next ∷ parts) in
    if is_slash part then part ++ rest else part ++ (b'/' ∷ rest)

abbrev pub has_bits : ℕ → ℕ → Bool
has_bits attrs mask = not (bit_and attrs mask == 0)

-- The bits of the open mode that ask for writing.
abbrev pub open_mode_write : ℕ
open_mode_write = 3

abbrev pub found_item : Option Item → Result Item
found_item none = err (dos_error invalid_handle)
found_item (some item) = ok item

abbrev pub attrs_or_zero : Result ℕ → ℕ
attrs_or_zero (ok attrs) = attrs
attrs_or_zero (err e) = 0

abbrev pub moved_or_throw : {W A : Type 0} → Transfer A → Exec (State W) A
moved_or_throw not_opened = throw (dos_error access_denied)
moved_or_throw not_positioned = throw (dos_error seek_error)
moved_or_throw (moved a) = pure a

-- The path of a new name is not found: DOS calls this "file not found".
abbrev pub as_file_not_found : Failure → Failure
as_file_not_found (dos_error code) =
    if code == path_not_found then dos_error file_not_found else dos_error code
as_file_not_found e = e

-- A loop that only acts.
abbrev pub for_each : {S A : Type 0} → (A → Exec S Unit) → List A → Exec S Unit
for_each f [] = pure tt
for_each f (x ∷ xs) = f x >> for_each f xs

-- The exception that an iteration ends in, if any.
abbrev pub finish : {S : Type 0} → Result (Unit {0}) → Exec S Unit
finish r = ask (λ s. r)

module _ {W : Type 0} (os : Os W) (share : Share) (to_ascii : List ℕ → List ℕ) where
  unfoldable pub writable : Exec (State W) Unit
  writable = throw_if share.read_only (dos_error disk_write_protected)

  unfoldable pub item_of : ℕ → Exec (State W) Item
  item_of handle = ask (λ s. found_item (get_item s.items handle))

  -- `item.update_last_used_timestamp()`
  unfoldable pub touch_item : ℕ → Exec (State W) Unit
  touch_item handle = modify (λ s.
      set s.items handle
        (record (get_item_or_blank s.items handle) { last_used_time = os.now s.world }))

  unfoldable pub get_handle_path : ℕ → Exec (State W) FsPath
  get_handle_path handle = do item ← item_of handle; touch_item handle; pure item.path

  unfoldable pub not_dangling : FsPath → Exec (State W) Unit
  not_dangling p = do
    dangling ← look (λ s. is_dangling_symlink os p s.world)
    throw_if dangling (dos_error access_denied)

  -- The bytes that are put into the buffer.
  unfoldable pub read_file : ℕ → ℕ → ℕ → Exec (State W) (List ℕ)
  read_file handle offset len = do
    item ← item_of handle
    touch_item handle
    not_dangling item.path
    transfer ← look (λ s. os.read item.path offset len s.world)
    moved_or_throw transfer

  -- No bytes at all mean "truncate" or "extend".
  abbrev pub put_bytes : FsPath → ℕ → List ℕ → Exec (State W) ℕ
  put_bytes p offset [] = on_world (resize_file os p offset) >> pure 0
  put_bytes p offset (x ∷ bytes) = do
    transfer ← on_world (os.write p offset (x ∷ bytes))
    moved_or_throw transfer

  unfoldable pub write_file : ℕ → ℕ → List ℕ → Exec (State W) ℕ
  write_file handle offset bytes = do
    writable
    item ← item_of handle
    touch_item handle
    not_dangling item.path
    put_bytes item.path offset bytes

  abbrev pub size_or_error : ℕ → ℕ × DosFileProperties → Exec (State W) ℕ
  size_or_error handle (attrs, props) =
      if attrs == fat_error_attr then pure 0xffffffff else (touch_item handle >> pure props.size)

  -- The 32 bits of the signed number that is returned.
  unfoldable pub get_file_size : ℕ → Exec (State W) ℕ
  get_file_size handle = do
    item ← item_of handle
    found ← look (λ s. get_path_dos_properties os ignore item.path s.world)
    size_or_error handle found

  unfoldable pub set_file_date_time : ℕ → ℕ → Exec (State W) Bool
  set_file_date_time handle date_time = do
    item ← item_of handle
    if share.read_only || not share.use_client_timestamp then pure false else do
      on_world (os.set_last_write_time item.path (fat_to_time os.mktime date_time))
      touch_item handle
      pure true

  unfoldable pub server_path_of : FsPath → Bool → Exec (State W) (FsPath × Bool)
  server_path_of = create_server_path os share to_ascii

  unfoldable pub not_root : FsPath → Exec (State W) Unit
  not_root p = throw_if (path_eq p share.root) (dos_error access_denied)

  -- `create_server_path(client_path, true)`, for what it does to the directory lists.
  unfoldable pub recreate : FsPath → Exec (State W) Unit
  recreate client_path = server_path_of client_path true >> pure tt

  unfoldable pub make_dir : FsPath → Exec (State W) Unit
  make_dir client_path = do
    writable
    target ← server_path_of client_path false
    not_root target.0
    throw_if target.1 (dos_error access_denied)
    on_world (Os.make_dir os target.0)
    recreate client_path

  unfoldable pub delete_dir : FsPath → Exec (State W) Unit
  delete_dir client_path = do
    writable
    target ← server_path_of client_path false
    not_root target.0
    throw_if (not target.1) (dos_error path_not_found)
    on_world (Os.delete_dir os target.0)
    recreate client_path

  unfoldable pub change_dir : FsPath → Exec (State W) Unit
  change_dir client_path = do
    target ← server_path_of client_path false
    throw_if (not target.1) (dos_error path_not_found)
    on_world (Os.change_dir os target.0)

  unfoldable pub set_item_attrs : FsPath → ℕ → Exec (State W) Unit
  set_item_attrs client_path attrs = do
    writable
    if is_ignore share.attrs_mode then pure tt else do
      target ← server_path_of client_path false
      not_root target.0
      on_world (Os.set_item_attrs os share.attrs_mode target.0 attrs)
      recreate client_path

  unfoldable pub get_server_path_attrs : FsPath → Exec (State W) ℕ
  get_server_path_attrs p = ask (λ s. get_item_attrs os share.attrs_mode p s.world)

  unfoldable pub get_server_path_dos_properties : FsPath → Exec (State W) (ℕ × DosFileProperties)
  get_server_path_dos_properties p =
      look (λ s. get_path_dos_properties os share.attrs_mode p s.world)

  unfoldable pub get_dos_properties : FsPath → Exec (State W) (ℕ × DosFileProperties)
  get_dos_properties client_path = do
    target ← server_path_of client_path false
    not_root target.0
    throw_if (not target.1) (dos_error file_not_found)
    found ← get_server_path_dos_properties target.0
    throw_if (found.0 == fat_error_attr) (dos_error file_not_found)
    pure found

  unfoldable pub rename_file : FsPath → FsPath → Exec (State W) Unit
  rename_file old_client_path new_client_path = do
    writable
    old ← server_path_of old_client_path false
    not_root old.0
    new ← try_catch (server_path_of new_client_path false) (λ e. throw (as_file_not_found e))
    not_root new.0
    throw_if new.1 (dos_error access_denied)
    on_world (Os.rename_file os old.0 new.0)
    recreate new_client_path

  -- The attributes of a file, 0 where they cannot be read.
  unfoldable pub attrs_of : FsPath → Exec (State W) ℕ
  attrs_of p = look (λ s. attrs_or_zero (get_item_attrs os share.attrs_mode p s.world))

  -- One round of the loop over the directory itself.
  unfoldable pub delete_found : FsPath → FcbFileName → List ℕ → Exec (State W) Unit
  delete_found directory mask name = do
    let p = append directory (name ∷ [])
    is_dir ← ask (λ s. os.is_directory p s.world)
    attrs ← attrs_of p
    if is_dir
          || not (match_fcb_name_to_mask mask (short_name_to_fcb (path_string p)))
          || has_bits attrs fat_ro
        then pure tt
        else (try_catch (on_world (os.remove p)) (λ e. pure false) >> pure tt)

  -- One round of the loop over the directory list.
  unfoldable pub delete_listed : FsPath → FcbFileName → DosFileProperties → Exec (State W) Unit
  delete_listed directory mask entry = do
    let p = append directory entry.server_name
    attrs ← attrs_of p
    if has_bits entry.attrs fat_directory
          || not (match_fcb_name_to_mask mask entry.fcb_name)
          || has_bits attrs fat_ro
        then pure tt
        else try_catch (on_world (delete_file os p)) (λ e. pure tt)

  abbrev pub delete_in_place : FsPath → FcbFileName → Exec (State W) Unit
  delete_in_place directory mask = do
    names ← look (λ s. os.iterate directory s.world)
    for_each (delete_found directory mask) names.0
    finish names.1

  abbrev pub delete_from_list : FsPath → FcbFileName → Exec (State W) Unit
  delete_from_list directory mask = do
    handle ← handle_of os directory
    item ← look (λ s. get_item_or_blank s.items handle)
    for_each (delete_listed directory mask) item.directory_list

  unfoldable pub delete_matching : FsPath → FcbFileName → Exec (State W) Unit
  delete_matching directory mask =
      if is_off share.name_conversion
      then delete_in_place directory mask
      else delete_from_list directory mask

  unfoldable pub delete_one : FsPath → Exec (State W) Unit
  delete_one p = do
    attrs ← attrs_of p
    throw_if (has_bits attrs fat_ro) (dos_error access_denied)
    on_world (delete_file os p)

  unfoldable pub delete_files : FsPath → Exec (State W) Unit
  delete_files client_pattern = do
    writable
    target ← server_path_of client_pattern false
    not_root target.0
    if target.1 then delete_one target.0 else do
      throw_if (not (elem b'?' (path_string target.0))) (dos_error file_not_found)
      delete_matching (parent_path target.0) (short_name_to_fcb (filename client_pattern))

  -- What may not be replaced by a file with the attributes that are asked for.
  unfoldable pub may_not_replace : ℕ → ℕ → Bool
  may_not_replace requested current =
      not (current == fat_error_attr)
      && (has_bits current (bit_or fat_volume fat_directory)
          || (has_bits current fat_ro
              || has_bits current fat_system && not (has_bits requested fat_system)))

  unfoldable pub create_or_truncate_file : FsPath → ℕ → ℕ → Exec (State W) DosFileProperties
  create_or_truncate_file server_path requested current = do
    writable
    throw_if (may_not_replace requested current) (dos_error access_denied)
    on_world (Os.create_or_truncate_file os share.attrs_mode server_path requested)

  unfoldable pub try_open_file : FsPath → ℕ → ℕ → Exec (State W) Unit
  try_open_file server_path open_mode current = do
    throw_if (share.read_only && has_bits open_mode open_mode_write)
        (dos_error disk_write_protected)
    throw_if (has_bits current (bit_or fat_volume fat_directory)) (dos_error access_denied)
    throw_if (has_bits current fat_ro && has_bits open_mode open_mode_write)
        (dos_error access_denied)
    on_world (Os.try_open_file os server_path open_mode)

  unfoldable pub space_info : Exec (State W) (ℕ × ℕ)
  space_info = do throw_if (is_empty share.root) other_error; on_world (fs_space_info os share.root)
