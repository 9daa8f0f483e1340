-- ===== src/Search/Examples.antt =====
-- A directory of three entries, and a search for the plain files in it.
use net_mount.Base.{ℕ, ◌≡◌, refl, List, [], ◌∷◌, arith, true, none}
use net_mount.Fcb.{FcbFileName, match_fcb_name_to_mask, match_part}
use net_mount.Bytes.{ascii_to_upper}
use net_mount.Drive.{FsPath, DosFileProperties, Item, blank_item, get_item}
use net_mount.Search.{DirListing, find_file, find_entry, is_wanted, hit, invalid_handle}
use net_mount.Search.Listing.{Selects, IsAskedFor, listing-Selects}

abbrev all_names : FcbFileName
all_names = record { name_blank_padded = b'?' ∷ []; ext_blank_padded = b'?' ∷ [] }

abbrev entry : ℕ → ℕ → DosFileProperties
entry letter attrs = record {
  fcb_name = record { name_blank_padded = letter ∷ []; ext_blank_padded = 32 ∷ [] };
  size = 1;
  time_date = 0;
  attrs = attrs;
  server_name = [];
}

abbrev directory : List DosFileProperties
directory = entry b'A' 0 ∷ entry b'B' 16 ∷ entry b'C' 1 ∷ []

abbrev table : List Item
table = record blank_item { path = (b'd' ∷ []) ∷ [] } ∷ []

abbrev read_all : FsPath → DirListing
read_all p = record { directory_list = directory; fcb_names = []; completed = true }

-- The directory is passed over.
next_test : (find_file 0 read_all none table 0 all_names 0 1).0 ≡ hit (entry b'C' 1) 3
unfolding find_file get_item find_entry is_wanted match_fcb_name_to_mask match_part ascii_to_upper
next_test = refl

invalid_test : (find_file 0 read_all none table 1 all_names 0 0).0 ≡ invalid_handle
unfolding find_file get_item
invalid_test = refl

listing-Selects_example :
    Selects (IsAskedFor all_names 0) directory (entry b'A' 0 ∷ entry b'C' 1 ∷ [])
unfolding find_entry is_wanted match_fcb_name_to_mask match_part ascii_to_upper
listing-Selects_example =
    listing-Selects 3 all_names 0 0 directory (omega arith) (omega arith) (omega arith)
