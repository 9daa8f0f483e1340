-- ===== src/Operations/Rules.antt =====
-- Operations that read leave the world outside as it is, and so does every operation that begins with
-- the test for a read-only drive, on such a drive.
use net_mount.Base.{ℕ, ◌≡◌, refl, List, Bool, true, Option, none, some}
use net_mount.Drive.{FsPath, DosFileProperties}
use net_mount.Exec.{Exec, throw, dos_error, ◌>>=◌}
use net_mount.Exec.Keeps.{Keeps, throw-Keeps}
use net_mount.Os.{
  Os, Transfer, not_opened, not_positioned, moved, try_open_file, open_stream, fs_space_info,
  disk_write_protected,
}
use net_mount.Folder.{Share, State}
use net_mount.Folder.Rules.{HasWorld, world_rules, create_server_path-Keeps, handle_of-Keeps}
use net_mount.Operations.{
  writable, item_of, touch_item, get_handle_path, not_dangling, moved_or_throw, read_file,
  get_file_size, size_or_error, server_path_of, not_root, recreate, get_server_path_attrs,
  get_server_path_dos_properties, get_dos_properties, attrs_of, space_info, write_file,
  set_file_date_time, make_dir, delete_dir, set_item_attrs, rename_file, delete_files,
  create_or_truncate_file,
}
use net_mount.Operations as Drive

module _ {W : Type 0} {w : W} (os : Os W) where
  open_stream-Keeps :
      (p : FsPath) (access : Option Bool) → Keeps (λ (v : W). v ≡ w) (open_stream os p access)
  open_stream-Keeps p none = search world_rules
  open_stream-Keeps p (some writing) = search world_rules

  os_open-Keeps : (p : FsPath) (mode : ℕ) → Keeps (λ (v : W). v ≡ w) (try_open_file os p mode)
  unfolding try_open_file
  os_open-Keeps p mode = search (world_rules, open_stream-Keeps)

  space-Keeps : (p : FsPath) → Keeps (λ (v : W). v ≡ w) (fs_space_info os p)
  unfolding fs_space_info
  space-Keeps p = search world_rules

module _ {W : Type 0} {w : W} where
  moved-Keeps : {A : Type 0} (t : Transfer A) → Keeps (HasWorld w) (moved_or_throw t)
  moved-Keeps not_opened = search world_rules
  moved-Keeps not_positioned = search world_rules
  moved-Keeps (moved a) = search world_rules

module _ {W : Type 0} {w : W} (os : Os W) (share : Share) (to_ascii : List ℕ → List ℕ) where
  item_of-Keeps : (handle : ℕ) → Keeps (HasWorld w) (item_of os share to_ascii handle)
  unfolding item_of
  item_of-Keeps handle = search world_rules

  touch_item-Keeps : (handle : ℕ) → Keeps (HasWorld w) (touch_item os share to_ascii handle)
  unfolding touch_item
  touch_item-Keeps handle = search world_rules

  not_dangling-Keeps : (p : FsPath) → Keeps (HasWorld w) (not_dangling os share to_ascii p)
  unfolding not_dangling
  not_dangling-Keeps p = search world_rules

  pub not_root-Keeps : (p : FsPath) → Keeps (HasWorld w) (not_root os share to_ascii p)
  unfolding not_root
  not_root-Keeps p = search world_rules

  pub server_path_of-Keeps :
      (p : FsPath) (again : Bool) → Keeps (HasWorld w) (server_path_of os share to_ascii p again)
  unfolding server_path_of
  server_path_of-Keeps p again = create_server_path-Keeps os share to_ascii p again

  pub get_handle_path-Keeps :
      (handle : ℕ) → Keeps (HasWorld w) (get_handle_path os share to_ascii handle)
  unfolding get_handle_path
  get_handle_path-Keeps handle = search (world_rules, item_of-Keeps, touch_item-Keeps)

  pub read_file-Keeps :
      (handle offset len : ℕ) → Keeps (HasWorld w) (read_file os share to_ascii handle offset len)
  unfolding read_file
  read_file-Keeps handle offset len =
      search (world_rules, item_of-Keeps, touch_item-Keeps, not_dangling-Keeps, moved-Keeps)

  size_or_error-Keeps :
      (handle : ℕ) (found : ℕ × DosFileProperties)
      → Keeps (HasWorld w) (size_or_error os share to_ascii handle found)
  size_or_error-Keeps handle (attrs, props) = search (world_rules, touch_item-Keeps)

  pub get_file_size-Keeps :
      (handle : ℕ) → Keeps (HasWorld w) (get_file_size os share to_ascii handle)
  unfolding get_file_size
  get_file_size-Keeps handle = search (world_rules, item_of-Keeps, size_or_error-Keeps)

  pub attrs-Keeps : (p : FsPath) → Keeps (HasWorld w) (get_server_path_attrs os share to_ascii p)
  unfolding get_server_path_attrs
  attrs-Keeps p = search world_rules

  pub properties-Keeps :
      (p : FsPath) → Keeps (HasWorld w) (get_server_path_dos_properties os share to_ascii p)
  unfolding get_server_path_dos_properties
  properties-Keeps p = search world_rules

  pub get_dos_properties-Keeps :
      (p : FsPath) → Keeps (HasWorld w) (get_dos_properties os share to_ascii p)
  unfolding get_dos_properties
  get_dos_properties-Keeps p =
      search (world_rules, server_path_of-Keeps, not_root-Keeps, properties-Keeps) depth 9

  pub try_open_file-Keeps :
      (p : FsPath) (mode current : ℕ)
      → Keeps (HasWorld w) (Drive.try_open_file os share to_ascii p mode current)
  unfolding Drive.try_open_file
  try_open_file-Keeps p mode current = search (world_rules, os_open-Keeps)

  pub space_info-Keeps : Keeps (HasWorld w) (space_info os share to_ascii)
  unfolding space_info
  space_info-Keeps = search (world_rules, space-Keeps)

pub ruleset read_rules = (
  world_rules, get_handle_path-Keeps, read_file-Keeps, get_file_size-Keeps, attrs-Keeps,
  properties-Keeps, get_dos_properties-Keeps, try_open_file-Keeps, space_info-Keeps,
  server_path_of-Keeps, not_root-Keeps,
)

module _ {W : Type 0} (os : Os W) (share : Share) (to_ascii : List ℕ → List ℕ)
    (protected : share.read_only ≡ true) where
  -- Nothing comes behind the test.
  pub writable-throws :
      {A : Type 0} (f : Unit → Exec (State W) A)
      → (writable os share to_ascii >>= f) ≡ throw (dos_error disk_write_protected)
  unfolding writable
  writable-throws f = rw protected refl

module _ {W : Type 0} {w : W} (os : Os W) (share : Share) (to_ascii : List ℕ → List ℕ)
    (protected : share.read_only ≡ true) where
  stops :
      {A : Type 0} (f : Unit → Exec (State W) A)
      → Keeps (HasWorld w) (writable os share to_ascii >>= f)
  stops f = rw (writable-throws os share to_ascii protected f) (throw-Keeps _)

  pub write_file-Keeps :
      (handle offset : ℕ) (bytes : List ℕ)
      → Keeps (HasWorld w) (write_file os share to_ascii handle offset bytes)
  unfolding write_file
  write_file-Keeps handle offset bytes = stops _

  pub set_time-Keeps :
      (handle date_time : ℕ)
      → Keeps (HasWorld w) (set_file_date_time os share to_ascii handle date_time)
  unfolding set_file_date_time
  set_time-Keeps handle date_time = rw protected (search (world_rules, item_of-Keeps))

  pub make_dir-Keeps : (p : FsPath) → Keeps (HasWorld w) (make_dir os share to_ascii p)
  unfolding make_dir
  make_dir-Keeps p = stops _

  pub delete_dir-Keeps : (p : FsPath) → Keeps (HasWorld w) (delete_dir os share to_ascii p)
  unfolding delete_dir
  delete_dir-Keeps p = stops _

  pub set_item_attrs-Keeps :
      (p : FsPath) (attrs : ℕ) → Keeps (HasWorld w) (set_item_attrs os share to_ascii p attrs)
  unfolding set_item_attrs
  set_item_attrs-Keeps p attrs = stops _

  pub rename_file-Keeps : (p q : FsPath) → Keeps (HasWorld w) (rename_file os share to_ascii p q)
  unfolding rename_file
  rename_file-Keeps p q = stops _

  pub delete_files-Keeps : (p : FsPath) → Keeps (HasWorld w) (delete_files os share to_ascii p)
  unfolding delete_files
  delete_files-Keeps p = stops _

  pub create-Keeps :
      (p : FsPath) (requested current : ℕ)
      → Keeps (HasWorld w) (create_or_truncate_file os share to_ascii p requested current)
  unfolding create_or_truncate_file
  create-Keeps p requested current = stops _
