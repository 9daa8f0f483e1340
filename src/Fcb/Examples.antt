-- ===== src/Fcb/Examples.antt =====
-- Names of files, one by one.
use net_mount.Base.{ℕ, ◌≡◌, ◌↔◌, refl, List, [], ◌∷◌, ◌++◌, some, true, false, arith}
use net_mount.Fcb.{
  FcbFileName, contains, file_name_to_83, short_name_to_fcb, match_fcb_name_to_mask, fcb_eq,
  sanitize_short_name, sanitize_loop, sanitize_char, split_last_dot, is_allowed, last_non_space,
  fcb_compare, strncmp, add_suffix, with_suffix, fit_base, counter_len, decimal,
}
use net_mount.Fcb.Legal.{IsShort}
use net_mount.Fcb.Unique.{IsFresh, file_name_to_83-IsFresh}
use net_mount.Fcb.Enough.{file_name_to_83_enough}
use net_mount.Fcb.Parse.{
  Fits, printed, short_name_to_fcb-dot, short_name_to_fcb-printed, match_fcb_name_to_mask_iff,
}

-- "ab.c"
abbrev file : List ℕ
file = b'a' ∷ b'b' ∷ b'.' ∷ b'c' ∷ []

abbrev short_ab : FcbFileName
short_ab = record {
  name_blank_padded = b'A' ∷ b'B' ∷ 32 ∷ 32 ∷ 32 ∷ 32 ∷ 32 ∷ 32 ∷ [];
  ext_blank_padded = b'C' ∷ 32 ∷ 32 ∷ [];
}

-- "A?      .C  "
abbrev mask : FcbFileName
mask = record {
  name_blank_padded = b'a' ∷ b'?' ∷ 32 ∷ 32 ∷ 32 ∷ 32 ∷ 32 ∷ 32 ∷ [];
  ext_blank_padded = b'c' ∷ 32 ∷ 32 ∷ [];
}

short_ab-IsShort : IsShort short_ab
unfolding is_allowed
short_ab-IsShort = record {
  name_size = refl;
  ext_size = refl;
  name_legal = (refl, (refl, (refl, (refl, (refl, (refl, (refl, (refl, tt))))))));
  ext_legal = (refl, (refl, (refl, tt)));
}

-- A file whose short name is taken.
clash_test :
    file_name_to_83 file (short_ab ∷ [])
    ≡ some (
      record short_ab { name_blank_padded = b'A' ∷ b'B' ∷ b'~' ∷ b'1' ∷ 32 ∷ 32 ∷ 32 ∷ 32 ∷ [] },
      record short_ab { name_blank_padded = b'A' ∷ b'B' ∷ b'~' ∷ b'1' ∷ 32 ∷ 32 ∷ 32 ∷ 32 ∷ [] }
          ∷ short_ab
          ∷ [],
    )
unfolding file_name_to_83 sanitize_short_name sanitize_loop sanitize_char split_last_dot is_allowed
    last_non_space contains fcb_eq fcb_compare strncmp add_suffix with_suffix fit_base counter_len
    decimal
clash_test = refl

file_name_to_83-IsFresh_example : IsFresh (short_ab ∷ []) (file_name_to_83 file (short_ab ∷ []))
file_name_to_83-IsFresh_example = file_name_to_83-IsFresh file (short_ab ∷ [])

file_name_to_83_enough_example :
    (f : FcbFileName) × (file_name_to_83 file (short_ab ∷ []) ≡ some (f, f ∷ short_ab ∷ []))
    × (contains (short_ab ∷ []) f ≡ false)
    × IsShort f
file_name_to_83_enough_example =
    file_name_to_83_enough file (short_ab ∷ []) (short_ab-IsShort, tt) (omega arith)

short_name_to_fcb-dot_example :
    short_name_to_fcb ((b'A' ∷ b'B' ∷ []) ++ b'.' ∷ b'C' ∷ []) ≡ short_ab
short_name_to_fcb-dot_example =
    short_name_to_fcb-dot (b'A' ∷ b'B' ∷ []) (b'C' ∷ []) (omega arith) (omega arith) (omega arith)
      (short_ab-IsShort.name_legal.0, (short_ab-IsShort.name_legal.1.0, tt))
      (short_ab-IsShort.ext_legal.0, tt)

short_name_to_fcb-printed_example : short_name_to_fcb (printed short_ab) ≡ short_ab
short_name_to_fcb-printed_example =
    short_name_to_fcb-printed short_ab short_ab-IsShort (omega arith)

match_fcb_name_to_mask_iff_example : (match_fcb_name_to_mask mask short_ab ≡ true) ↔ (
    Fits mask.name_blank_padded short_ab.name_blank_padded
    × Fits mask.ext_blank_padded short_ab.ext_blank_padded)
match_fcb_name_to_mask_iff_example = match_fcb_name_to_mask_iff mask short_ab
