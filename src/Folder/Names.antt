-- ===== src/Folder/Names.antt =====
-- The names in the directory lists of a drive are no absolute paths, and looking for paths keeps it
-- so.
use net_mount.Base.{
  ℕ, zero, suc, ◌≡◌, refl, List, [], ◌∷◌, Bool, true, false, not, ◌&&◌, ◌||◌, ◌==◌, ◌+◌, ltb,
  length, set, Bool-cases, inl, inr, All, All-append, Option, none, some,
}
use net_mount.Fcb.{FcbFileName, fcb_eq}
use net_mount.Drive.{
  FsPath, DosFileProperties, Item, is_empty, path_eq, expire, scan_items, assign, allocate,
  get_handle, get_item_or_blank, Scanned, found, missing, next_free, next_oldest, max_handle_count,
}
use net_mount.Search.{relist}
use net_mount.Exec.{Result, ok, err}
use net_mount.Os.{Os, add_attrs, get_path_dos_properties, plain_properties}
use net_mount.Folder.{
  Share, State, FileNameConversion, off, ram, is_off, is_slash, is_absolute, append, label_list,
  find_named, erase_named, with_name, dir_entry, dot_entry, head_for, list_names, list_from,
  list_all, create_directory_list, refresh, forget,
}

abbrev pub IsName : FsPath → Type 0
IsName p = is_absolute p ≡ false

abbrev pub AreNames : List DosFileProperties → Type 0
AreNames = All (λ (entry : DosFileProperties). IsName entry.server_name)

abbrev pub HasNames : List Item → Type 0
HasNames = All (λ (item : Item). AreNames item.directory_list)

pub item-AreNames :
    (items : List Item) (i : ℕ)
    → HasNames items
    → AreNames (get_item_or_blank items i).directory_list
item-AreNames [] i h = tt
item-AreNames (x ∷ xs) zero h = h.0
item-AreNames (x ∷ xs) (suc i) h = item-AreNames xs i h.1

set-HasNames :
    (items : List Item) (i : ℕ) (x : Item)
    → HasNames items
    → AreNames x.directory_list
    → HasNames (set items i x)
set-HasNames [] i x h g = tt
set-HasNames (y ∷ ys) zero x h g = (g, h.1)
set-HasNames (y ∷ ys) (suc i) x h g = (h.0, set-HasNames ys i x h.1 g)

expire-AreNames :
    (now : ℕ) (item : Item)
    → AreNames item.directory_list
    → AreNames (expire now item).directory_list
unfolding expire
expire-AreNames now item h =
    elim (Bool-cases (ltb (item.last_used_time + 3600) now && not (is_empty item.directory_list))) [
      | inl old ↦ rw old tt
      | inr young ↦ rw young h
    ]

scan_items-HasNames :
    (now : ℕ) (p : FsPath) (handle : ℕ) (free : Option ℕ) (best : ℕ × ℕ) (items : List Item)
    → HasNames items
    → HasNames (scan_items now p handle free best items).0
unfolding scan_items
scan_items-HasNames now p handle free best [] h = tt
scan_items-HasNames now p handle free best (item ∷ items) h =
    let rest =
      scan_items-HasNames now p (suc handle) (next_free handle item.path free)
        (next_oldest handle item free best) items h.1 in
    elim (Bool-cases (path_eq item.path p)) [
      | inl same ↦ rw same (h.0, h.1)
      | inr other ↦ rw other (expire-AreNames now item h.0, rest)
    ]

assign-HasNames :
    (now : ℕ) (p : FsPath) (items : List Item) (i : ℕ)
    → HasNames items
    → HasNames (assign now p items i)
assign-HasNames now p items i h = set-HasNames items i _ h (item-AreNames items i h)

allocate-HasNames :
    (now : ℕ) (p : FsPath) (items : List Item) (r : Scanned)
    → HasNames items
    → HasNames (allocate now p (items, r)).1
unfolding allocate
allocate-HasNames now p items (found i) h = h
allocate-HasNames now p items (missing (some i) oldest) h = assign-HasNames now p items i h
allocate-HasNames now p items (missing none oldest) h =
    elim (Bool-cases (ltb (length items) max_handle_count)) [
      | inl room ↦ rw room (
          assign-HasNames now p _ _
            (All-append (λ (x : Item). AreNames x.directory_list) items _ h (tt, tt)))
      | inr full ↦ rw full (assign-HasNames now p _ oldest (set-HasNames items oldest _ h tt))
    ]

pub get_handle-HasNames :
    (now : ℕ) (p : FsPath) (items : List Item)
    → HasNames items
    → HasNames (get_handle now p items).1
unfolding get_handle
get_handle-HasNames now p items h =
    let scanned = scan_items now p 0 none (0, (get_item_or_blank items 0).last_used_time) items in
    allocate-HasNames now p scanned.0 scanned.1 (scan_items-HasNames now p 0 none _ items h)

erase_named-AreNames :
    (fcb : FcbFileName) (entries : List DosFileProperties)
    → AreNames entries
    → AreNames (erase_named fcb entries)
unfolding erase_named
erase_named-AreNames fcb [] h = tt
erase_named-AreNames fcb (entry ∷ entries) h =
    elim (Bool-cases (not (entry.attrs == 8) && fcb_eq entry.fcb_name fcb)) [
      | inl same ↦ rw same h.1
      | inr other ↦ rw other (h.0, erase_named-AreNames fcb entries h.1)
    ]

-- The entry that is found for a name, if any.
abbrev pub FoundName : Option DosFileProperties → Type 0
FoundName none = Unit
FoundName (some entry) = IsName entry.server_name

pub find_named-FoundName :
    (fcb : FcbFileName) (entries : List DosFileProperties)
    → AreNames entries
    → FoundName (find_named fcb entries)
unfolding find_named
find_named-FoundName fcb [] h = tt
find_named-FoundName fcb (entry ∷ entries) h =
    elim (Bool-cases (not (entry.attrs == 8) && fcb_eq entry.fcb_name fcb)) [
      | inl same ↦ rw same h.0
      | inr other ↦ rw other (find_named-FoundName fcb entries h.1)
    ]

-- An iteration over a directory gives names of files.
abbrev pub GivesNames : {W : Type 0} → Os W → Type 0
GivesNames {W} os =
    (p : FsPath) (w : W) → All (λ (name : List ℕ). is_slash name ≡ false) (os.iterate p w).0

module _ {W : Type 0} (os : Os W) (share : Share) (to_ascii : List ℕ → List ℕ) where
  -- The properties of a path have no name yet.
  plain-IsName :
      (p : FsPath) (w : W) → IsName (get_path_dos_properties os share.attrs_mode p w).1.server_name
  unfolding get_path_dos_properties plain_properties
  plain-IsName p w = by_attrs _
    where
      by_attrs : (r : Result ℕ) → IsName (add_attrs (plain_properties os p w) r).1.server_name
      by_attrs (ok attrs) = refl
      by_attrs (err ex) = refl

  with_name-IsName :
      (conversion : FileNameConversion) (props : DosFileProperties) (name : List ℕ)
      (used : List FcbFileName)
      → IsName props.server_name
      → is_slash name ≡ false
      → IsName (with_name os share to_ascii conversion props name used).0.server_name
  with_name-IsName off props name used h g = h
  with_name-IsName ram props name used h g = g

  list_names-AreNames :
      (p : FsPath) (w : W) (room : ℕ) (names : List (List ℕ)) (used : List FcbFileName)
      → All (λ (name : List ℕ). is_slash name ≡ false) names
      → AreNames (list_names os share to_ascii p w room names used).0
  unfolding list_names dir_entry
  list_names-AreNames p w room [] used h = tt
  list_names-AreNames p w zero (name ∷ names) used h = tt
  list_names-AreNames p w (suc room) (name ∷ names) used h = (
    with_name-IsName share.name_conversion _ name used (plain-IsName (append p (name ∷ [])) w) h.0,
    list_names-AreNames p w room names _ h.1,
  )

  dot_entry-IsName :
      (p : FsPath) (w : W) (name : List ℕ)
      → is_slash name ≡ false
      → IsName (dot_entry os share to_ascii p w name).server_name
  unfolding dot_entry
  dot_entry-IsName p w name h = elim (Bool-cases (is_off share.name_conversion)) [
    | inl plain ↦ rw plain refl
    | inr short ↦ rw short h
  ]

  label_list-AreNames : (label : Option FcbFileName) → AreNames (label_list label)
  label_list-AreNames none = tt
  label_list-AreNames (some label) = (refl, tt)

  list_from-AreNames :
      (p : FsPath) (w : W) (names : List (List ℕ)) (complete : Result (Unit {0}))
      (same : Option Bool)
      → All (λ (name : List ℕ). is_slash name ≡ false) names
      → AreNames
          (list_from os share to_ascii p w names complete
            (head_for os share to_ascii p w same)).directory_list
  list_from-AreNames p w names complete none h = tt
  list_from-AreNames p w names complete (some true) h =
      All-append (λ (entry : DosFileProperties). IsName entry.server_name)
        (label_list share.volume_label) _ (label_list-AreNames share.volume_label)
        (list_names-AreNames p w _ names [] h)
  list_from-AreNames p w names complete (some false) h = (
    dot_entry-IsName p w (b'.' ∷ []) refl,
    (dot_entry-IsName p w (b'.' ∷ b'.' ∷ []) refl, list_names-AreNames p w _ names [] h),
  )

  list_all-AreNames :
      (p : FsPath) (w : W) (found : List (List ℕ) × Result (Unit {0}))
      → All (λ (name : List ℕ). is_slash name ≡ false) found.0
      → AreNames (list_all os share to_ascii p w found).directory_list
  list_all-AreNames p w ([], complete) h = tt
  list_all-AreNames p w (name ∷ names, complete) h =
      list_from-AreNames p w (name ∷ names) complete _ h

  list-AreNames :
      (w : W) (p : FsPath)
      → GivesNames os
      → AreNames (create_directory_list os share to_ascii w p).directory_list
  unfolding create_directory_list
  list-AreNames w p gives = list_all-AreNames p w (os.iterate p w) (gives p w)

  pub refresh-HasNames :
      (again : Bool) (handle : ℕ) (s : State W)
      → GivesNames os
      → HasNames s.items
      → HasNames (refresh os share to_ascii again handle s)
  unfolding refresh relist
  refresh-HasNames again handle s gives h =
      elim (Bool-cases (again || is_empty (get_item_or_blank s.items handle).directory_list)) [
        | inl anew ↦ rw anew (set-HasNames s.items handle _ h (list-AreNames s.world _ gives))
        | inr kept ↦ rw kept h
      ]

  pub forget-HasNames :
      (handle : ℕ) (fcb : FcbFileName) (s : State W)
      → HasNames s.items
      → HasNames (forget os share to_ascii handle fcb s)
  unfolding forget
  forget-HasNames handle fcb s h =
      set-HasNames s.items handle _ h (erase_named-AreNames fcb _ (item-AreNames s.items handle h))
