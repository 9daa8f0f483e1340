-- ===== src/Drive.antt =====
-- netmount-server/fs.cpp and fs.hpp, the drives: the table of handles (`Drive::Item`, `get_handle`,
-- `get_item`, `get_handle_path`), and `check_path_depth`.
-- A `std::filesystem::path` is the list of its components, each a string of bytes; the empty path
-- is the empty list. A time is a number of seconds; `now` is what `time(NULL)` gives.
pub mod Table
pub mod Handles
pub mod Stable
pub mod Depth
mod Examples
use net_mount.Base.{
  ℕ, zero, suc, ◌+◌, ◌-◌, List, [], ◌∷◌, ◌++◌, Bool, true, false, not, ◌&&◌, ◌||◌, ltb, ◌==◌,
  bytes_eq, if◌then◌else◌, length, set, get_elem?, Option, none, some,
}
use net_mount.Fcb.{FcbFileName}

abbrev pub FsPath : Type 0
FsPath = List (List ℕ)

abbrev pub path_eq : FsPath → FsPath → Bool
path_eq [] [] = true
path_eq [] (y ∷ ys) = false
path_eq (x ∷ xs) [] = false
path_eq (x ∷ xs) (y ∷ ys) = bytes_eq x y && path_eq xs ys

abbrev pub is_empty {ℓ} : {A : Type ℓ} → List A → Bool
is_empty [] = true
is_empty (x ∷ xs) = false

pub record DosFileProperties : Type 0 where
  pub fcb_name : FcbFileName
  pub size : ℕ
  pub time_date : ℕ
  pub attrs : ℕ
  pub server_name : FsPath

pub record Item : Type 0 where
  pub path : FsPath
  pub last_used_time : ℕ
  pub directory_list : List DosFileProperties
  pub fcb_names : List FcbFileName

abbrev pub blank_item : Item
blank_item = record { path = []; last_used_time = 0; directory_list = []; fcb_names = [] }

abbrev pub max_handle_count : ℕ
max_handle_count = 65535

-- How the loop of `get_handle` ends: at the handle of the path, or at the end of the table with
-- the first free handle, if any, and the oldest.
pub data Scanned : Type 0 where
  found : ℕ → Scanned
  missing : Option ℕ → ℕ → Scanned

-- A directory list that is more than an hour old is dropped.
unfoldable pub expire : ℕ → Item → Item
expire now item =
    if ltb (item.last_used_time + 3600) now && not (is_empty item.directory_list)
    then record item { directory_list = [] }
    else item

-- What an item with another path changes in `first_free`, and in `oldest` with its time.
abbrev pub next_free : ℕ → FsPath → Option ℕ → Option ℕ
next_free handle path (some i) = some i
next_free handle path none = if is_empty path then some handle else none

abbrev pub next_oldest : ℕ → Item → Option ℕ → ℕ × ℕ → ℕ × ℕ
next_oldest handle item (some i) best = best
next_oldest handle item none (oldest, age) =
    if is_empty item.path
    then (oldest, age)
    else if ltb item.last_used_time age
    then (handle, item.last_used_time)
    else (oldest, age)

-- The loop, from the item of `handle` on. `free` is `first_free`, nothing where that is still the
-- size of the table, and `best` is `oldest` with the time of its item.
unfoldable pub scan_items : ℕ → FsPath → ℕ → Option ℕ → ℕ × ℕ → List Item → List Item × Scanned
scan_items now server_path handle free best [] = ([], missing free best.0)
scan_items now server_path handle free best (item ∷ items) =
    let (rest, r) =
      scan_items now server_path (suc handle) (next_free handle item.path free)
        (next_oldest handle item free best) items in
    if path_eq item.path server_path
    then (record item { last_used_time = now } ∷ items, found handle)
    else (expire now item ∷ rest, r)

abbrev pub get_item_or_blank : List Item → ℕ → Item
get_item_or_blank [] i = blank_item
get_item_or_blank (x ∷ xs) zero = x
get_item_or_blank (x ∷ xs) (suc i) = get_item_or_blank xs i

abbrev pub assign : ℕ → FsPath → List Item → ℕ → List Item
assign now server_path items handle =
    set items handle
      (record (get_item_or_blank items handle) { path = server_path; last_used_time = now })

-- What `get_handle` does behind its loop.
unfoldable pub allocate : ℕ → FsPath → List Item × Scanned → ℕ × List Item
allocate now server_path (items, found handle) = (handle, items)
allocate now server_path (items, missing (some free) oldest) =
    (free, assign now server_path items free)
allocate now server_path (items, missing none oldest) =
    if ltb (length items) max_handle_count
    then (length items, assign now server_path (items ++ blank_item ∷ []) (length items))
    else (
      oldest,
      assign now server_path
          (set items oldest
            (record (get_item_or_blank items oldest) { path = []; directory_list = [] }))
          oldest,
    )

-- The handle, and the new table.
unfoldable pub get_handle : ℕ → FsPath → List Item → ℕ × List Item
get_handle now server_path items =
    allocate now server_path
      (scan_items now server_path 0 none (0, (get_item_or_blank items 0).last_used_time) items)

-- An item with an empty path is none.
abbrev pub live : Option Item → Option Item
live none = none
live (some item) = if is_empty item.path then none else some item

-- Nothing stands for the exception with the code of an invalid handle.
unfoldable pub get_item : List Item → ℕ → Option Item
get_item items handle = live (get_elem? items handle)

abbrev pub touch : ℕ → List Item → ℕ → Option Item → Option (FsPath × List Item)
touch now items handle none = none
touch now items handle (some item) =
    some (item.path, set items handle (record item { last_used_time = now }))

unfoldable pub get_handle_path : ℕ → List Item → ℕ → Option (FsPath × List Item)
get_handle_path now items handle = touch now items handle (get_item items handle)

abbrev pub ignored_part : List ℕ → Bool
ignored_part part = is_empty part || (bytes_eq part (b'.' ∷ []) || bytes_eq part (b'/' ∷ []))

abbrev pub is_dot_dot : List ℕ → Bool
is_dot_dot part = bytes_eq part (b'.' ∷ b'.' ∷ [])

-- The loop of `check_path_depth`; nothing stands for -1.
unfoldable pub depth_from : ℕ → FsPath → Option ℕ
depth_from depth [] = some depth
depth_from depth (part ∷ parts) = elim (ignored_part part) [
  | true ↦ depth_from depth parts
  | false ↦ elim (is_dot_dot part) [
    | false ↦ depth_from (suc depth) parts
    | true ↦ elim depth [ zero ↦ none | suc d ↦ depth_from d parts ]
  ]
]

unfoldable pub check_path_depth : FsPath → Option ℕ
check_path_depth p = depth_from 0 p
