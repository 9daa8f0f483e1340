-- ===== src/Folder.antt =====
-- netmount-server/fs.cpp and fs.hpp, the paths of a shared drive: its settings,
-- `create_directory_list`, `get_server_name` and `create_server_path`.
-- `os` is the world outside (Os.antt), `share` the settings of the drive, and `to_ascii` the
-- conversion of a file's name that `file_name_to_83` begins with.
-- A path of std::filesystem is the list of its components; a root directory is the component `/`,
-- and a separator at the end gives an empty last component.
pub mod Rules
pub mod Names
pub mod Listing
pub mod Within
pub mod Dots
pub mod Sample
mod Examples
use net_mount.Base.{
  ℕ, zero, suc, ◌+◌, ◌-◌, ◌%◌, List, [], ◌∷◌, ◌++◌, Bool, true, false, ◌&&◌, ◌||◌, not,
  if◌then◌else◌, ◌==◌, ltb, length, bytes_eq, set, Option, none, some,
}
use net_mount.Fcb.{
  FcbFileName, base_size, ext_size, base_and_ext, split_last_dot, sanitize_short_name, counter_len,
  fit_base, with_suffix, suffix_rounds, file_name_to_83, short_name_to_fcb, fcb_eq,
}
use net_mount.Drive.{
  FsPath, DosFileProperties, Item, is_empty, path_eq, get_handle, get_item_or_blank,
  check_path_depth,
}
use net_mount.Search.{fat_volume, label_entry, relist, DirListing}
use net_mount.Exec.{
  Exec, Result, is_ok, pure, throw, ask, look, throw_if, dos_error, ok, ◌>>=◌, ◌>>◌,
}
use net_mount.Os.{Os, AttrsMode, get_path_dos_properties, is_there, path_not_found}

-- `/` is a path's root directory.
abbrev pub is_slash : List ℕ → Bool
is_slash part = bytes_eq part (b'/' ∷ [])

abbrev pub is_absolute : FsPath → Bool
is_absolute [] = false
is_absolute (part ∷ parts) = is_slash part

-- A path without the empty component at its end.
abbrev pub close : FsPath → FsPath
close [] = []
close (part ∷ []) = if is_empty part then [] else part ∷ []
close (part ∷ next ∷ parts) = part ∷ close (next ∷ parts)

abbrev is_root : FsPath → Bool
is_root [] = false
is_root (part ∷ []) = is_slash part
is_root (part ∷ next ∷ parts) = false

-- `p / q`
unfoldable pub append : FsPath → FsPath → FsPath
append p [] = if is_empty p || is_root p then p else close p ++ [] ∷ []
append p (part ∷ parts) = if is_slash part then part ∷ parts else close p ++ (part ∷ parts)

-- `p.parent_path()`; a root directory is its own.
abbrev pub parent_path : FsPath → FsPath
parent_path [] = []
parent_path (part ∷ []) = if is_slash part then part ∷ [] else []
parent_path (part ∷ next ∷ parts) = part ∷ drop_last next parts
  where
    drop_last : List ℕ → FsPath → FsPath
    drop_last next [] = []
    drop_last next (other ∷ parts) = next ∷ drop_last other parts

pub data FileNameConversion : Type 0 where
  off ram : FileNameConversion

-- The settings of a drive; `used` says that it is shared.
pub record Share : Type 0 where
  pub used : Bool
  pub root : FsPath
  pub read_only : Bool
  pub use_client_timestamp : Bool
  pub volume_label : Option FcbFileName
  pub attrs_mode : AttrsMode
  pub name_conversion : FileNameConversion

abbrev pub is_off : FileNameConversion → Bool
is_off off = true
is_off ram = false

-- The items of a drive, and the world outside.
pub record State (W : Type 0) : Type 0 where
  pub items : List Item
  pub world : W

-- The name that the loop over the suffix numbers has tried last.
unfoldable pub last_tried : ℕ → ℕ → ℕ → List ℕ → List ℕ → FcbFileName
last_tried zero counter base_len name ext = record {
  name_blank_padded = name;
  ext_blank_padded = ext;
}
last_tried (suc rounds) counter base_len name ext =
    let len = fit_base base_len (counter_len counter) in
    last_tried rounds (suc counter) len (with_suffix counter len name) ext

abbrev pub or_last_tried :
    List ℕ
    → List FcbFileName
    → Option (FcbFileName × List FcbFileName)
    → FcbFileName × List FcbFileName
or_last_tried long_name used (some named) = named
or_last_tried long_name used none =
    let (base, ext) = base_and_ext long_name (split_last_dot long_name) in
    let (name_padded, base_len, base_shortened) = sanitize_short_name base base_size in
    let (ext_padded, ext_len, ext_shortened) = sanitize_short_name ext ext_size in
    (last_tried suffix_rounds 1 base_len name_padded ext_padded, used)

-- What `file_name_to_83` leaves in its arguments, whether it finds a free name or not.
unfoldable pub given_name : List ℕ → List FcbFileName → FcbFileName × List FcbFileName
given_name long_name used = or_last_tried long_name used (file_name_to_83 long_name used)

-- DOS FIND uses a 16-bit offset.
abbrev pub max_entries : ℕ
max_entries = 0xffff

abbrev pub label_list : Option FcbFileName → List DosFileProperties
label_list none = []
label_list (some label) = label_entry label ∷ []

-- The first entry of a name, and the entries without it.
unfoldable pub find_named : FcbFileName → List DosFileProperties → Option DosFileProperties
find_named fcb [] = none
find_named fcb (entry ∷ entries) =
    let rest = find_named fcb entries in
    if not (entry.attrs == fat_volume) && fcb_eq entry.fcb_name fcb then some entry else rest

unfoldable pub erase_named : FcbFileName → List DosFileProperties → List DosFileProperties
erase_named fcb [] = []
erase_named fcb (entry ∷ entries) =
    let rest = erase_named fcb entries in
    if not (entry.attrs == fat_volume) && fcb_eq entry.fcb_name fcb then entries else entry ∷ rest

-- `std::set::erase` of a name.
unfoldable pub erase_fcb : FcbFileName → List FcbFileName → List FcbFileName
erase_fcb fcb [] = []
erase_fcb fcb (f ∷ fs) = let rest = erase_fcb fcb fs in if fcb_eq fcb f then rest else f ∷ rest

abbrev pub on_world : {W A : Type 0} → Exec W A → Exec (State W) A
on_world m s = ((m s.world).0, record s { world = (m s.world).1 })

abbrev pub modify : {W : Type 0} → (State W → List Item) → Exec (State W) Unit
modify f s = (ok tt, record s { items = f s })

module _ {W : Type 0} (os : Os W) where
  unfoldable pub handle_of : FsPath → Exec (State W) ℕ
  handle_of server_path s =
      let (handle, items) = get_handle (os.now s.world) server_path s.items in
      (ok handle, record s { items = items })

module _ {W : Type 0} (os : Os W) (share : Share) (to_ascii : List ℕ → List ℕ) where
  -- The name of an entry under the conversion: without one it stays as it is.
  abbrev pub with_name :
      FileNameConversion
      → DosFileProperties
      → List ℕ
      → List FcbFileName
      → DosFileProperties × List FcbFileName
  with_name off props name used = (props, used)
  with_name ram props name used =
      let (fcb, next) = given_name (to_ascii name) used in
      (record props { fcb_name = fcb; server_name = name ∷ [] }, next)

  unfoldable pub dir_entry :
      FsPath → W → List ℕ → List FcbFileName → DosFileProperties × List FcbFileName
  dir_entry path w name used =
      with_name share.name_conversion
        (get_path_dos_properties os share.attrs_mode (append path (name ∷ [])) w).1 name used

  -- The entries `.` and `..`
  unfoldable pub dot_entry : FsPath → W → List ℕ → DosFileProperties
  dot_entry path w name =
      record ((get_path_dos_properties os share.attrs_mode (append path (name ∷ [])) w).1) {
        fcb_name = short_name_to_fcb name;
        server_name = if is_off share.name_conversion then [] else name ∷ [];
      }

  -- What stands in front of the names; nothing where the root cannot be compared.
  abbrev pub head_for : FsPath → W → Option Bool → Option (List DosFileProperties)
  head_for path w none = none
  head_for path w (some true) = some (label_list share.volume_label)
  head_for path w (some false) =
      some (dot_entry path w (b'.' ∷ []) ∷ dot_entry path w (b'.' ∷ b'.' ∷ []) ∷ [])

  -- Entries for the names, at most `room` of them.
  unfoldable pub list_names :
      FsPath → W → ℕ → List (List ℕ) → List FcbFileName → List DosFileProperties × List FcbFileName
  list_names path w room [] used = ([], used)
  list_names path w zero (name ∷ names) used = ([], used)
  list_names path w (suc room) (name ∷ names) used =
      let entry = dir_entry path w name used in
      let rest = list_names path w room names entry.1 in (entry.0 ∷ rest.0, rest.1)

  -- The loop breaks off when the list is full, before the iteration may fail.
  abbrev pub list_from :
      FsPath → W → List (List ℕ) → Result (Unit {0}) → Option (List DosFileProperties) → DirListing
  list_from path w names complete none = record {
    directory_list = [];
    fcb_names = [];
    completed = false;
  }
  list_from path w names complete (some head) =
      let room = max_entries - length head in
      let listed = list_names path w room names [] in
      record {
        directory_list = head ++ listed.0;
        fcb_names = listed.1;
        completed = is_ok complete || ltb room (length names);
      }

  abbrev pub list_all : FsPath → W → List (List ℕ) × Result (Unit {0}) → DirListing
  list_all path w ([], complete) = record {
    directory_list = [];
    fcb_names = [];
    completed = is_ok complete;
  }
  list_all path w (name ∷ names, complete) =
      list_from path w (name ∷ names) complete (head_for path w (os.equivalent path share.root w))

  unfoldable pub create_directory_list : W → FsPath → DirListing
  create_directory_list w path = list_all path w (os.iterate path w)

  unfoldable pub refresh : Bool → ℕ → State W → List Item
  refresh again handle s =
      let item = get_item_or_blank s.items handle in
      if again || is_empty item.directory_list
      then set s.items handle
          (relist (os.now s.world) (create_directory_list s.world item.path) item)
      else s.items

  unfoldable pub forget : ℕ → FcbFileName → State W → List Item
  forget handle fcb s =
      let item = get_item_or_blank s.items handle in
      set s.items handle (record item {
        directory_list = erase_named fcb item.directory_list;
        fcb_names = erase_fcb fcb item.fcb_names;
      })

  -- An entry whose file is gone is removed from the list.
  abbrev pub check_entry :
      ℕ → FcbFileName → FsPath → Option DosFileProperties → Exec (State W) FsPath
  check_entry handle fcb path none = pure []
  check_entry handle fcb path (some entry) = do
    there ← on_world (is_there os (append path entry.server_name))
    if there then pure entry.server_name else (modify (forget handle fcb) >> pure [])

  -- The empty path where there is no such entry.
  unfoldable pub get_server_name : ℕ → FcbFileName → Bool → Exec (State W) FsPath
  get_server_name handle fcb again = do
    modify (refresh again handle)
    item ← look (λ s. get_item_or_blank s.items handle)
    check_entry handle fcb item.path (find_named fcb item.directory_list)

  -- The end of a round of the loop: `server_path` is there, and `rest` is left of the client's path.
  abbrev pub next_part :
      FsPath
      → List ℕ
      → FsPath
      → FsPath
      → (FsPath → Exec (State W) (FsPath × Bool))
      → Exec (State W) (FsPath × Bool)
  next_part server_path part [] [] go_on = pure (append server_path (part ∷ []), false)
  next_part server_path part [] (_ ∷ _) go_on = throw (dos_error path_not_found)
  next_part server_path part (n ∷ name) [] go_on = pure (append server_path (n ∷ name), true)
  next_part server_path part (n ∷ name) (_ ∷ _) go_on = go_on (append server_path (n ∷ name))

  unfoldable pub walk : Bool → FsPath → FsPath → Exec (State W) (FsPath × Bool)
  walk again [] server_path = pure (server_path, true)
  walk again (part ∷ rest) server_path = do
    handle ← handle_of os server_path
    server_name ← get_server_name handle (short_name_to_fcb part) again
    next_part server_path part server_name rest (walk again rest)

  -- Without a conversion of names.
  unfoldable pub direct_path : FsPath → Exec (State W) (FsPath × Bool)
  direct_path server_path = do
    parent ← ask (λ s. os.exists (parent_path server_path) s.world)
    throw_if (not parent) (dos_error path_not_found)
    there ← on_world (is_there os server_path)
    pure (server_path, there)

  abbrev pub path_at_depth : Bool → FsPath → Option ℕ → Exec (State W) (FsPath × Bool)
  path_at_depth again client_path none = throw (dos_error path_not_found)
  path_at_depth again client_path (some zero) = pure (share.root, true)
  path_at_depth again client_path (some (suc depth)) =
      if is_off share.name_conversion
      then direct_path (append share.root client_path)
      else walk again client_path share.root

  -- The path on the server, and whether it is there.
  unfoldable pub create_server_path : FsPath → Bool → Exec (State W) (FsPath × Bool)
  create_server_path client_path again =
      if is_empty client_path
      then pure (share.root, true)
      else path_at_depth again client_path (check_path_depth client_path)
