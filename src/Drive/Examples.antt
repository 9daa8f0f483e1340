-- ===== src/Drive/Examples.antt =====
-- Handles and paths, one by one.
use net_mount.Base.{ℕ, ◌<◌, ◌≤◌, ◌≡◌, ◌≢◌, refl, List, [], ◌∷◌, ◌++◌, arith, length, some, none}
use net_mount.Drive.{
  FsPath, Item, blank_item, get_handle, get_handle_path, check_path_depth, depth_from, scan_items,
  allocate,
}
use net_mount.Drive.Table.{paths, path_at}
use net_mount.Drive.Stable.{
  LeadsTo, get_handle_path-get_handle, get_handle_twice, get_handle_others,
}
use net_mount.Drive.Depth.{check_path_depth-walk, walk, depth_of}

abbrev root_dir : FsPath
root_dir = (b's' ∷ []) ∷ []

abbrev sub_dir : FsPath
sub_dir = (b's' ∷ []) ∷ (b'd' ∷ []) ∷ []

abbrev table : List Item
table = record blank_item { path = root_dir; last_used_time = 5 } ∷ []

sub_dir-ne : sub_dir ≢ []
sub_dir-ne = ground arith

second : (get_handle 9 sub_dir table).0 ≡ 1
unfolding get_handle allocate scan_items
second = refl

get_handle_path-get_handle_example :
    LeadsTo sub_dir
      (get_handle 9 sub_dir table).1
      (get_handle 9 sub_dir table).0
      (get_handle_path 10 (get_handle 9 sub_dir table).1 (get_handle 9 sub_dir table).0)
    × ((get_handle 9 sub_dir table).0 < 65535)
    × (length (get_handle 9 sub_dir table).1 ≤ 65535)
get_handle_path-get_handle_example =
    get_handle_path-get_handle 9 sub_dir table sub_dir-ne (omega arith) 10

get_handle_twice_example :
    ((get_handle 10 sub_dir (get_handle 9 sub_dir table).1).0 ≡ (get_handle 9 sub_dir table).0)
    × (paths (get_handle 10 sub_dir (get_handle 9 sub_dir table).1).1
        ≡ paths (get_handle 9 sub_dir table).1)
get_handle_twice_example = get_handle_twice 9 sub_dir table sub_dir-ne (omega arith) 10

not_first : 0 ≢ (get_handle 9 sub_dir table).0
not_first = ground (arith, second)

get_handle_others_example :
    path_at (paths (get_handle 9 sub_dir table).1) 0 ≡ path_at (paths table) 0
get_handle_others_example =
    get_handle_others 9 sub_dir table sub_dir-ne (omega arith) 0 not_first (omega arith)

abbrev dot_dot : List ℕ
dot_dot = b'.' ∷ b'.' ∷ []

climbs : check_path_depth (sub_dir ++ dot_dot ∷ dot_dot ∷ dot_dot ∷ root_dir) ≡ none
unfolding check_path_depth depth_from
climbs = refl

check_path_depth-walk_example : check_path_depth sub_dir ≡ depth_of (walk [] sub_dir)
check_path_depth-walk_example = check_path_depth-walk sub_dir

stays : check_path_depth (sub_dir ++ dot_dot ∷ []) ≡ some 1
unfolding check_path_depth depth_from
stays = refl
