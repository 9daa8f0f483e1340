-- ===== src/Os.antt =====
-- netmount-server/fs.cpp, the functions of the unnamed namespace that work on paths of the server:
-- `is_dangling_symlink`, `get_path_dos_properties`, `get_item_attrs`, `set_item_attrs`, `make_dir`,
-- `delete_dir`, `change_dir`, `create_or_truncate_file`, `try_open_file`, `resize_file`,
-- `delete_file`, `rename_file`, `fs_space_info`; and std::filesystem's paths.
-- What the operating system, the standard library and the files for each platform
-- (netmount-server/fs_linux.cpp and its like) do is the argument `os`: a record of functions on
-- what lies outside the server, its `world`. Questions leave the world alone. The build has both
-- ways to store DOS attributes, as on Linux.
pub mod Sample
use net_mount.Base.{
  ℕ, zero, suc, ◌+◌, ◌%◌, ◌^◌, List, [], ◌∷◌, ◌++◌, Bool, true, false, ◌&&◌, ◌||◌, not,
  if◌then◌else◌, ◌==◌, bit_and, bit_or, Option, none, some,
}
use net_mount.Bytes.{u32}
use net_mount.Fcb.{short_name_to_fcb}
use net_mount.FatTime.{Tm, time_to_fat}
use net_mount.Drive.{FsPath, DosFileProperties, is_empty}
use net_mount.Search.{fat_directory}
use net_mount.Exec.{
  Result, ok, err, Failure, dos_error, Exec, pure, throw, ask, look, throw_if, try_catch, quiet,
  ◌>>=◌, ◌>>◌,
}

-- What `fopen`, `fseek` and `fread` or `fwrite` come to.
pub data Transfer (A : Type 0) : Type 0 where
  not_opened not_positioned : Transfer A
  moved : A → Transfer A

pub data AttrsMode : Type 0 where
  auto ignore native in_extended : AttrsMode

pub record Os (W : Type 0) : Type 0 where
  pub is_symlink : FsPath → W → Result Bool
  pub exists : FsPath → W → Result Bool
  pub is_directory : FsPath → W → Result Bool
  -- The names that an iteration over a directory gives, and how it ends.
  pub iterate : FsPath → W → List (List ℕ) × Result (Unit {0})
  pub equivalent : FsPath → FsPath → W → Option Bool
  pub last_write_time : FsPath → W → Option ℕ
  pub file_size : FsPath → W → Option ℕ
  pub space : FsPath → W → Result (ℕ × ℕ)
  pub get_attrs_native : FsPath → W → Result ℕ
  pub get_attrs_extended : FsPath → W → Result ℕ
  -- Whether a stream for reading, or for reading and writing, opens.
  pub opens : FsPath → Bool → W → Bool
  pub read : FsPath → ℕ → ℕ → W → Transfer (List ℕ)
  pub now : W → ℕ
  pub localtime : ℕ → Tm
  pub mktime : Tm → ℕ
  pub create_directory : FsPath → Exec W Bool
  pub remove : FsPath → Exec W Bool
  pub current_path : FsPath → Exec W Unit
  pub rename : FsPath → FsPath → Exec W Unit
  pub truncate_new : FsPath → Exec W Bool
  pub truncate : FsPath → ℕ → Exec W Bool
  pub write : FsPath → ℕ → List ℕ → Exec W (Transfer ℕ)
  pub set_attrs_native : FsPath → ℕ → Exec W Unit
  pub set_attrs_extended : FsPath → ℕ → Exec W Unit
  pub set_last_write_time : FsPath → ℕ → Exec W Unit

-- The error codes of shared/dos.h that the server uses.
abbrev pub no_error : ℕ
no_error = 0

abbrev pub func_num_invalid : ℕ
func_num_invalid = 1

abbrev pub file_not_found : ℕ
file_not_found = 2

abbrev pub path_not_found : ℕ
path_not_found = 3

abbrev pub too_many_open_files : ℕ
too_many_open_files = 4

abbrev pub access_denied : ℕ
access_denied = 5

abbrev pub invalid_handle : ℕ
invalid_handle = 6

abbrev pub no_more_files : ℕ
no_more_files = 18

abbrev pub disk_write_protected : ℕ
disk_write_protected = 19

abbrev pub seek_error : ℕ
seek_error = 25

abbrev pub file_already_exists : ℕ
file_already_exists = 80

abbrev pub fat_ro : ℕ
fat_ro = 0x01

abbrev pub fat_archive : ℕ
fat_archive = 0x20

abbrev pub fat_error_attr : ℕ
fat_error_attr = 0xff

-- The last component that is not empty, or the first one.
abbrev pub last_part : List ℕ → FsPath → List ℕ
last_part best [] = best
last_part best (part ∷ parts) = last_part (if is_empty part then best else part) parts

abbrev pub kind_attrs : Result Bool → Result ℕ
kind_attrs (ok is_dir) = ok (if is_dir then 0 else fat_archive)
kind_attrs (err e) = err e

abbrev pub seconds_of : Option ℕ → ℕ
seconds_of none = 0
seconds_of (some t) = t

abbrev pub add_attrs : DosFileProperties → Result ℕ → ℕ × DosFileProperties
add_attrs props (ok attrs) =
    (bit_or props.attrs attrs, record props { attrs = bit_or props.attrs attrs })
add_attrs props (err e) = (fat_error_attr, props)

abbrev pub is_ignore : AttrsMode → Bool
is_ignore ignore = true
is_ignore _ = false

-- Whether the two bits of the access mode are valid, and ask for writing.
abbrev pub open_access : ℕ → Option Bool
open_access open_mode =
    let access = bit_and open_mode 0x03 in
    if access == 0 then some false else if access == 3 then none else some true

module _ {W : Type 0} (os : Os W) where
  unfoldable pub is_dangling_symlink : FsPath → W → Bool
  is_dangling_symlink p w =
      if not (quiet (os.is_symlink p w)) then false else not (quiet (os.exists p w))

  abbrev pub stored_attrs : AttrsMode → FsPath → W → Result ℕ
  stored_attrs native p w = os.get_attrs_native p w
  stored_attrs in_extended p w = os.get_attrs_extended p w
  stored_attrs auto p w = kind_attrs (os.is_directory p w)
  stored_attrs ignore p w = kind_attrs (os.is_directory p w)

  unfoldable pub get_item_attrs : AttrsMode → FsPath → W → Result ℕ
  get_item_attrs mode p w = if is_dangling_symlink p w then ok 0 else stored_attrs mode p w

  -- The properties but for the attributes that are stored with the file.
  unfoldable pub plain_properties : FsPath → W → DosFileProperties
  plain_properties p w =
      let is_dir = quiet (os.is_directory p w) in
      record {
        fcb_name = short_name_to_fcb (last_part [] p);
        size = if is_dir then 0 else u32 (seconds_of (os.file_size p w));
        time_date = time_to_fat os.localtime (seconds_of (os.last_write_time p w));
        attrs = if is_dir then fat_directory else 0;
        server_name = [];
      }

  -- The attributes that are returned, and the properties.
  unfoldable pub get_path_dos_properties : AttrsMode → FsPath → W → ℕ × DosFileProperties
  get_path_dos_properties mode p w = add_attrs (plain_properties p w) (get_item_attrs mode p w)

  abbrev pub store_attrs : AttrsMode → FsPath → ℕ → Exec W Unit
  store_attrs native p attrs = os.set_attrs_native p attrs
  store_attrs in_extended p attrs = os.set_attrs_extended p attrs
  store_attrs auto p attrs = pure tt
  store_attrs ignore p attrs = pure tt

  unfoldable pub set_item_attrs : AttrsMode → FsPath → ℕ → Exec W Unit
  set_item_attrs mode p attrs = do
    dangling ← look (is_dangling_symlink p)
    throw_if dangling (dos_error access_denied)
    store_attrs mode p attrs

  unfoldable pub make_dir : FsPath → Exec W Unit
  make_dir p = do
    dangling ← look (is_dangling_symlink p)
    throw_if dangling (dos_error access_denied)
    made ← os.create_directory p
    throw_if (not made) (dos_error access_denied)

  unfoldable pub delete_dir : FsPath → Exec W Unit
  delete_dir p = do
    dangling ← look (is_dangling_symlink p)
    throw_if dangling (dos_error access_denied)
    there ← ask (os.exists p)
    throw_if (not there) (dos_error path_not_found)
    is_dir ← ask (os.is_directory p)
    throw_if (not is_dir) (dos_error access_denied)
    os.remove p
    pure tt

  unfoldable pub change_dir : FsPath → Exec W Unit
  change_dir p = do
    dangling ← look (is_dangling_symlink p)
    throw_if dangling (dos_error path_not_found)
    os.current_path p

  unfoldable pub create_or_truncate_file : AttrsMode → FsPath → ℕ → Exec W DosFileProperties
  create_or_truncate_file mode p attrs = do
    dangling ← look (is_dangling_symlink p)
    throw_if dangling (dos_error access_denied)
    opened ← os.truncate_new p
    throw_if (not opened) (dos_error access_denied)
    if is_ignore mode then pure tt else try_catch (set_item_attrs mode p attrs) (λ e. pure tt)
    look (λ w. (get_path_dos_properties mode p w).1)

  abbrev pub open_stream : FsPath → Option Bool → Exec W Unit
  open_stream p none = throw (dos_error func_num_invalid)
  open_stream p (some writing) = do
    opened ← look (os.opens p writing)
    throw_if (not opened) (dos_error access_denied)

  unfoldable pub try_open_file : FsPath → ℕ → Exec W Unit
  try_open_file p open_mode = do
    dangling ← look (is_dangling_symlink p)
    throw_if dangling (dos_error access_denied)
    open_stream p (open_access open_mode)

  unfoldable pub resize_file : FsPath → ℕ → Exec W Unit
  resize_file p new_size = do
    done ← os.truncate p new_size
    throw_if (not done) (dos_error access_denied)

  -- `exists(p) || is_symlink(p)`, where the second question is asked only after a `false`.
  unfoldable pub is_there : FsPath → Exec W Bool
  is_there p = do there ← ask (os.exists p); if there then pure true else ask (os.is_symlink p)

  unfoldable pub delete_file : FsPath → Exec W Unit
  delete_file p = do
    there ← is_there p
    throw_if (not there) (dos_error file_not_found)
    is_dir ← ask (os.is_directory p)
    throw_if is_dir (dos_error access_denied)
    os.remove p
    pure tt

  unfoldable pub rename_file : FsPath → FsPath → Exec W Unit
  rename_file old_name new_name = os.rename old_name new_name

  unfoldable pub fs_space_info : FsPath → Exec W (ℕ × ℕ)
  fs_space_info p = ask (os.space p)
