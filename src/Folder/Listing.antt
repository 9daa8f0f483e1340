-- ===== src/Folder/Listing.antt =====
-- The short names in a directory list.
use net_mount.Base.{
  ℕ, zero, suc, ◌+◌, ◌≤◌, ◌≡◌, refl, List, [], ◌∷◌, false, length, All, some, arith,
}
use net_mount.Fcb.{FcbFileName, contains, file_name_to_83}
use net_mount.Fcb.Legal.{IsShort}
use net_mount.Fcb.Enough.{file_name_to_83_enough}
use net_mount.Drive.{FsPath, DosFileProperties}
use net_mount.Os.{Os, get_path_dos_properties}
use net_mount.Folder.{
  Share, append, FileNameConversion, off, ram, given_name, with_name, dir_entry, list_names,
}

-- Each entry has a short name of legal characters that is not among `used` nor the name of an entry
-- before it.
abbrev pub AreApart : List FcbFileName → List DosFileProperties → Type 0
AreApart used [] = Unit
AreApart used (entry ∷ entries) =
    (contains used entry.fcb_name ≡ false)
    × (IsShort entry.fcb_name × AreApart (entry.fcb_name ∷ used) entries)

module _ {W : Type 0} (os : Os W) (share : Share) (to_ascii : List ℕ → List ℕ) where
  with_name-some :
      (conversion : FileNameConversion) (props : DosFileProperties) (name : List ℕ)
      (used : List FcbFileName) (f : FcbFileName)
      → conversion ≡ ram
      → file_name_to_83 (to_ascii name) used ≡ some (f, f ∷ used)
      → ((with_name os share to_ascii conversion props name used).0.fcb_name ≡ f)
        × ((with_name os share to_ascii conversion props name used).1 ≡ f ∷ used)
  unfolding given_name
  with_name-some off props name used f is_ram h = absurd (ground (arith, is_ram))
  with_name-some ram props name used f is_ram h = rw h (refl, refl)

  dir_entry-some :
      (p : FsPath) (w : W) (name : List ℕ) (used : List FcbFileName) (f : FcbFileName)
      → share.name_conversion ≡ ram
      → file_name_to_83 (to_ascii name) used ≡ some (f, f ∷ used)
      → ((dir_entry os share to_ascii p w name used).0.fcb_name ≡ f)
        × ((dir_entry os share to_ascii p w name used).1 ≡ f ∷ used)
  unfolding dir_entry
  dir_entry-some p w name used f is_ram h =
      with_name-some share.name_conversion
        (get_path_dos_properties os share.attrs_mode (append p (name ∷ [])) w).1 name used f is_ram
        h

  list_names-AreApart :
      (p : FsPath) (w : W) (room : ℕ) (names : List (List ℕ)) (used : List FcbFileName)
      → share.name_conversion ≡ ram
      → All IsShort used
      → length used + length names ≤ 9998
      → AreApart used (list_names os share to_ascii p w room names used).0
  unfolding list_names
  list_names-AreApart p w room [] used is_ram shorts few = tt
  list_names-AreApart p w zero (name ∷ names) used is_ram shorts few = tt
  list_names-AreApart p w (suc room) (name ∷ names) used is_ram shorts few =
      let (f, named, fresh, short) =
        file_name_to_83_enough (to_ascii name) used shorts (omega (arith, few)) in
      let (own, next) = dir_entry-some p w name used f is_ram named in
      rw (own, next)
        (
          fresh,
          (
            short,
            list_names-AreApart p w room names (f ∷ used) is_ram (short, shorts)
                (omega (arith, few)),
          ),
        )

  -- In a directory of at most 9998 names, with the conversion of names switched on, all entries that
  -- are made of names get short names of legal characters, and these differ from each other.
  pub list_names_apart :
      (p : FsPath) (w : W) (room : ℕ) (names : List (List ℕ))
      → share.name_conversion ≡ ram
      → length names ≤ 9998
      → AreApart [] (list_names os share to_ascii p w room names []).0
  list_names_apart p w room names is_ram few =
      list_names-AreApart p w room names [] is_ram tt (omega (arith, few))
