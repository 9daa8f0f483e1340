-- ===== src/Fcb/Unique.antt =====
-- `file_name_to_83`: the name is new, is a legal short name, and is found while there is room.
use net_mount.Base.{
  ℕ, zero, suc, ◌≤◌, ◌≡◌, refl, List, ◌∷◌, Bool, true, false, not, ◌&&◌, arith, length, drop, All,
  Option, some, none,
}
use net_mount.Fcb.{
  FcbFileName, contains, with_suffix, fit_base, counter_len, add_suffix, suffix_rounds,
  file_name_to_83, sanitize_short_name, base_and_ext, split_last_dot,
}
use net_mount.Fcb.Legal.{
  IsLegal, IsShort, AreBlank, sanitize_short_name-IsLegal, sanitize_short_name-size,
}
use net_mount.Fcb.Short.{
  IsReady, IsReady-first, IsReady-next, length-with_suffix, with_suffix-IsLegal,
}

-- What a result of `file_name_to_83` promises.
abbrev pub IsFresh : List FcbFileName → Option (FcbFileName × List FcbFileName) → Type 0
IsFresh used none = Unit
IsFresh used (some (f, all)) = (contains used f ≡ false) × (all ≡ f ∷ used) × IsShort f

pub fit_base-le : (base_len k : ℕ) → base_len ≤ 8 → fit_base base_len k ≤ 8
unfolding fit_base
fit_base-le base_len k h = ground arith

module _ (ext : List ℕ) (used : List FcbFileName) (ext_size : length ext ≡ 3)
    (ext_legal : All IsLegal ext) where
  add_suffix-IsFresh :
      (rounds counter base_len : ℕ) (name : List ℕ)
      → base_len ≤ 8
      → IsReady counter base_len name
      → IsFresh used (add_suffix rounds counter base_len name ext used)
  unfolding add_suffix
  add_suffix-IsFresh zero counter base_len name small ready = tt
  add_suffix-IsFresh (suc rounds) counter base_len name small ready =
      by_test (contains used fcb) refl (
        add_suffix-IsFresh rounds (suc counter) (fit_base base_len (counter_len counter))
          (with_suffix counter (fit_base base_len (counter_len counter)) name)
          (fit_base-le base_len (counter_len counter) small)
          (IsReady-next counter base_len name ready small))
    where
      len : ℕ
      len = fit_base base_len (counter_len counter)

      next : List ℕ
      next = with_suffix counter len name

      fcb : FcbFileName
      fcb = record { name_blank_padded = next; ext_blank_padded = ext }

      by_test :
          (taken : Bool)
          → contains used fcb ≡ taken
          → IsFresh used (add_suffix rounds (suc counter) len next ext used)
          → IsFresh used (elim taken [
            | false ↦ some (fcb, fcb ∷ used)
            | true ↦ add_suffix rounds (suc counter) len next ext used
          ])
      by_test true e later = later
      by_test false e later = (
        e,
        refl,
        record {
          name_size = length-with_suffix counter base_len name ready small;
          ext_size = ext_size;
          name_legal = with_suffix-IsLegal counter base_len name ready small;
          ext_legal = ext_legal;
        },
      )

-- Where a short name comes back, it is not in the set yet, it is inserted, nothing else changes in
-- the set, its parts have 8 and 3 characters, and all of them are legal in a short name.
pub file_name_to_83-IsFresh :
    (long_name : List ℕ) (used : List FcbFileName) → IsFresh used (file_name_to_83 long_name used)
unfolding file_name_to_83
file_name_to_83-IsFresh long_name used =
    let (base, ext) = base_and_ext long_name (split_last_dot long_name) in
    let (b, be, bs) = sanitize_short_name base 8 in
    let (x, xe, xs) = sanitize_short_name ext 3 in
    let fcb : FcbFileName = record { name_blank_padded = b; ext_blank_padded = x } in
    let (b_size, b_len, b_blank) = sanitize_short_name-size base 8 in
    let (x_size, x_len, x_blank) = sanitize_short_name-size ext 3 in
    let b_legal = sanitize_short_name-IsLegal base 8 in
    let x_legal = sanitize_short_name-IsLegal ext 3 in
    by_test b be bs x xs b_size x_size b_len b_blank b_legal x_legal
      (not bs && not xs && not (contains used fcb)) refl
  where
    by_test :
        (b : List ℕ) (be : ℕ) (bs : Bool) (x : List ℕ) (xs : Bool)
        → length b ≡ 8
        → length x ≡ 3
        → be ≤ 8
        → AreBlank (drop be b)
        → All IsLegal b
        → All IsLegal x
        → (plain : Bool)
        → (not bs
            && not xs
            && not (contains used (record { name_blank_padded = b; ext_blank_padded = x })))
          ≡ plain
        → IsFresh used (elim plain [
          | true ↦ some (
            record { name_blank_padded = b; ext_blank_padded = x },
            record { name_blank_padded = b; ext_blank_padded = x } ∷ used,
          )
          | false ↦ add_suffix suffix_rounds 1 be b x used
        ])
    by_test b be bs x xs b_size x_size b_len b_blank b_legal x_legal true e = (
      ground (arith, e),
      refl,
      record { name_size = b_size; ext_size = x_size; name_legal = b_legal; ext_legal = x_legal },
    )
    by_test b be bs x xs b_size x_size b_len b_blank b_legal x_legal false e =
        add_suffix-IsFresh x used x_size x_legal suffix_rounds 1 be b b_len
          (IsReady-first be b b_size b_legal b_blank)
