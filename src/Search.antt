-- ===== src/Search.antt =====
-- netmount-server/fs.cpp, the search in a directory: `Drive::find_file`, and `set_volume_label`.
-- Reading the directory, `create_directory_list` (Folder.antt), is an argument: what it leaves in the
-- item, and whether it succeeded. `now` is what `time(NULL)` gives.
pub mod Listing
mod Examples
use net_mount.Base.{
  ℕ, zero, suc, ◌+◌, ◌-◌, List, [], ◌∷◌, ◌++◌, Bool, true, false, not, ◌||◌, ◌==◌, if◌then◌else◌,
  bit_and, bit_or, length, take, drop, set, Option, none, some,
}
use net_mount.Bytes.{u16}
use net_mount.Fcb.{FcbFileName, match_fcb_name_to_mask, pad}
use net_mount.Drive.{FsPath, DosFileProperties, Item, is_empty, get_item}

pub record DirListing : Type 0 where
  pub directory_list : List DosFileProperties
  pub fcb_names : List FcbFileName
  pub completed : Bool

-- What reading the directory does to its item.
unfoldable pub relist : ℕ → DirListing → Item → Item
relist now listing item = record item {
  directory_list = listing.directory_list;
  fcb_names = listing.fcb_names;
  last_used_time = if listing.completed then now else item.last_used_time;
}

abbrev pub fat_hidden : ℕ
fat_hidden = 2

abbrev pub fat_system : ℕ
fat_system = 4

abbrev pub fat_volume : ℕ
fat_volume = 8

abbrev pub fat_directory : ℕ
fat_directory = 16

-- The label of a drive, nothing where it has none: the name takes the first eight bytes, and the
-- extension the next three.
unfoldable pub set_volume_label : List ℕ → Option FcbFileName
set_volume_label [] = none
set_volume_label (c ∷ cs) = some (record {
  name_blank_padded = pad 8 (take 8 (c ∷ cs));
  ext_blank_padded = pad 3 (take 3 (drop 8 (c ∷ cs)));
})

-- The tests of the search loop.
unfoldable pub is_wanted : FcbFileName → ℕ → DosFileProperties → Bool
is_wanted tmpl attr props =
    if not (match_fcb_name_to_mask tmpl props.fcb_name)
    then false
    else bit_or attr (
        bit_and props.attrs
          (bit_or (bit_or (bit_or fat_hidden fat_system) fat_volume) fat_directory))
      == attr

-- The loop, from the entry of index `n` on: the entry, and the new `nth`.
unfoldable pub find_entry :
    FcbFileName → ℕ → ℕ → List DosFileProperties → Option (DosFileProperties × ℕ)
find_entry tmpl attr n [] = none
find_entry tmpl attr n (props ∷ entries) =
    let rest = find_entry tmpl attr (suc n) entries in
    if is_wanted tmpl attr props then some (props, u16 (n + 1)) else rest

-- `false`, an entry with the new `nth`, or the exception of an invalid handle.
pub data Result : Type 0 where
  not_found invalid_handle : Result
  hit : DosFileProperties → ℕ → Result

abbrev pub of_entry : Option (DosFileProperties × ℕ) → Result
of_entry none = not_found
of_entry (some (props, nth)) = hit props nth

-- The source leaves `server_name` as the caller passed it; a label has none.
abbrev pub label_entry : FcbFileName → DosFileProperties
label_entry label = record {
  fcb_name = label;
  size = 0;
  time_date = 0;
  attrs = fat_volume;
  server_name = [];
}

abbrev pub find_label : Option FcbFileName → FcbFileName → ℕ → Result
find_label label tmpl (suc nth) = not_found
find_label none tmpl zero = not_found
find_label (some label) tmpl zero =
    if match_fcb_name_to_mask tmpl label then hit (label_entry label) 1 else not_found

-- The search in the list of the item, which is read anew where the source reads it.
abbrev pub find_in :
    ℕ
    → (FsPath → DirListing)
    → List Item
    → ℕ
    → FcbFileName
    → ℕ
    → ℕ
    → Option Item
    → Result × List Item
find_in now read_directory items handle tmpl attr nth none = (invalid_handle, items)
find_in now read_directory items handle tmpl attr nth (some item) =
    let listing = read_directory item.path in
    if not (nth == 0 || is_empty item.directory_list)
    then (of_entry (find_entry tmpl attr nth (drop nth item.directory_list)), items)
    else (
      if listing.completed
          then of_entry (find_entry tmpl attr nth (drop nth listing.directory_list))
          else not_found,
      set items handle (relist now listing item),
    )

unfoldable pub find_file :
    ℕ
    → (FsPath → DirListing)
    → Option FcbFileName
    → List Item
    → ℕ
    → FcbFileName
    → ℕ
    → ℕ
    → Result × List Item
find_file now read_directory label items handle tmpl attr nth =
    if attr == fat_volume
    then (find_label label tmpl nth, items)
    else find_in now read_directory items handle tmpl attr nth (get_item items handle)
