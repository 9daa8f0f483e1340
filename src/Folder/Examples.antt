-- ===== src/Folder/Examples.antt =====
-- The name `...` in the directory `/s/a`, and two files of the share `/s`.
use net_mount.Base.{◌≡◌, refl, ap, [], ◌∷◌, ◌++◌, true, some, arith}
use net_mount.Os.{
  is_there, get_path_dos_properties, get_item_attrs, is_dangling_symlink, plain_properties,
}
use net_mount.Os.Sample.{World, directory, sample}
use net_mount.Folder.Sample.{share}
use net_mount.Exec.{Result, ok}
use net_mount.Folder.{
  State, handle_of, get_server_name, refresh, create_directory_list, dot_entry, list_names,
  find_named, append, walk,
}
use net_mount.Folder.Listing.{AreApart, list_names_apart}
use net_mount.Search.{relist}
use net_mount.Fcb.{short_name_to_fcb, lead_dots, take_part, skip_dot, fcb_eq, fcb_compare, strncmp}
use net_mount.Drive.{FsPath, check_path_depth, depth_from, get_handle, allocate, scan_items}
use net_mount.Folder.Dots.{dots, dot_dot, look_up, walk-dots}

abbrev path_a : FsPath
path_a = share.root ++ (b'a' ∷ []) ∷ []

abbrev state : State World
state = record {
  items = [];
  world = (share.root, directory) ∷ (path_a, directory) ∷ (path_a ++ dot_dot ∷ [], directory) ∷ [];
}

abbrev looked_up : Result FsPath × State World
looked_up = look_up sample share (λ name. name) true path_a dot_dot state

parent_found : looked_up.0 ≡ ok (dot_dot ∷ [])
unfolding handle_of get_handle allocate scan_items get_server_name refresh create_directory_list
    relist dot_entry list_names find_named fcb_eq short_name_to_fcb lead_dots take_part skip_dot
    append is_there get_path_dos_properties get_item_attrs is_dangling_symlink plain_properties
    fcb_compare strncmp
parent_found = refl

walk-dots_example :
    (check_path_depth ((b'a' ∷ []) ∷ dots 0 ∷ []) ≡ some 2)
    × (check_path_depth ((b'a' ∷ []) ∷ dot_dot ∷ []) ≡ some 0)
    × (walk sample share (λ name. name) true (dots 0 ∷ []) path_a state
        ≡ walk sample share (λ name. name) true (dot_dot ∷ []) path_a state)
unfolding check_path_depth depth_from
walk-dots_example =
    walk-dots sample share (λ name. name) ((b'a' ∷ []) ∷ []) 0 1 true path_a [] state looked_up.1
      dot_dot [] refl (ap (λ (r : Result FsPath). (r, looked_up.1)) parent_found)

list_names_apart_example :
    AreApart []
      (list_names sample share (λ name. name) share.root [] 9 ((b'a' ∷ []) ∷ (b'A' ∷ []) ∷ []) []).0
list_names_apart_example =
    list_names_apart sample share (λ name. name) share.root [] 9 ((b'a' ∷ []) ∷ (b'A' ∷ []) ∷ [])
      refl (omega arith)
