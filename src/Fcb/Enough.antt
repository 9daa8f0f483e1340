-- ===== src/Fcb/Enough.antt =====
-- `file_name_to_83` finds a name while fewer than 9998 are in use.
use net_mount.Base.{
  ℕ, zero, suc, ◌+◌, ◌≤◌, ◌<◌, ◌≡◌, ◌≢◌, refl, ap, subst, ◌∙◌, List, [], ◌∷◌, map, Bool, true,
  false, not, ◌&&◌, ◌==◌, arith, length, All, if◌then◌else◌, Option, some, none, Bool-cases, inl,
  inr,
}
use net_mount.Fcb.{
  FcbFileName, contains, fcb_eq, with_suffix, fit_base, counter_len, add_suffix, suffix_rounds,
  file_name_to_83, sanitize_short_name, base_and_ext, split_last_dot, elem,
}
use net_mount.Fcb.Legal.{
  IsLegal, IsShort, fcb_eq-IsShort, sanitize_short_name-IsLegal, sanitize_short_name-size,
}
use net_mount.Fcb.Distinct.{read_number, read_number-with_suffix}
use net_mount.Fcb.Short.{
  IsReady, IsReady-first, IsReady-next, length-with_suffix, with_suffix-IsLegal,
}
use net_mount.Fcb.Unique.{fit_base-le, IsFresh, file_name_to_83-IsFresh}

-- All numbers of `n` from `c` on are in the list.
abbrev HasRange : ℕ → ℕ → List ℕ → Type 0
HasRange zero c xs = Unit
HasRange (suc n) c xs = (elem c xs ≡ true) × HasRange n (suc c) xs

-- The list without the first `c`.
without : ℕ → List ℕ → List ℕ
without c [] = []
without c (x ∷ xs) = let rest = without c xs in if c == x then xs else x ∷ rest

length-without : (c : ℕ) (xs : List ℕ) → elem c xs ≡ true → length xs ≡ suc (length (without c xs))
unfolding without
length-without c [] h = absurd (ground arith)
length-without c (x ∷ xs) h = elim (Bool-cases (c == x)) [
  | inl e ↦ rw e refl
  | inr ne ↦ rw ne (ap suc (length-without c xs (ground (arith, h, ne))))
]

elem-without : (c d : ℕ) (xs : List ℕ) → c ≢ d → elem d xs ≡ true → elem d (without c xs) ≡ true
unfolding without
elem-without c d [] ne h = h
elem-without c d (x ∷ xs) ne h = elim (Bool-cases (d == x)) [
  | inl e ↦ ground arith
  | inr away ↦ ground (arith, elem-without c d xs ne (ground (arith, h, away)))
]

HasRange-without : (n c d : ℕ) (xs : List ℕ) → c < d → HasRange n d xs → HasRange n d (without c xs)
HasRange-without zero c d xs lt h = tt
HasRange-without (suc n) c d xs lt (h, rest) =
    (elem-without c d xs (omega arith) h, HasRange-without n c (suc d) xs (omega arith) rest)

-- A list that has `n` different numbers has `n` elements.
HasRange-length : (n c : ℕ) (xs : List ℕ) → HasRange n c xs → n ≤ length xs
HasRange-length zero c xs h = omega arith
HasRange-length (suc n) c xs (h, rest) = omega (
  arith,
  length-without c xs h,
  HasRange-length n (suc c) (without c xs) (HasRange-without n c (suc c) xs (omega arith) rest),
)

-- The numbers that the names in use show.
abbrev numbers : List FcbFileName → List ℕ
numbers = map (λ f. read_number 0 f.name_blank_padded)

contains-numbers :
    (used : List FcbFileName) (f : FcbFileName)
    → All IsShort used
    → IsShort f
    → contains used f ≡ true
    → elem (read_number 0 f.name_blank_padded) (numbers used) ≡ true
unfolding contains
contains-numbers [] f hs hf h = absurd (ground arith)
contains-numbers (g ∷ gs) f hs hf h = elim (Bool-cases (fcb_eq f g)) [
  | inl e ↦
      let (same, _) = fcb_eq-IsShort f g hf hs.0 e in
      let shown : read_number 0 f.name_blank_padded ≡ read_number 0 g.name_blank_padded =
        ap (read_number 0) same in
      ground (arith, shown)
  | inr ne ↦ ground (arith, contains-numbers gs f hs.1 hf (ground (arith, h, ne)))
]

module _ (ext : List ℕ) (used : List FcbFileName) (ext_size : length ext ≡ 3)
    (ext_legal : All IsLegal ext) (shorts : All IsShort used) where
  -- Where no number is free, every number is in use.
  add_suffix-HasRange :
      (rounds counter base_len : ℕ) (name : List ℕ)
      → base_len ≤ 8
      → counter + rounds ≤ 10000
      → IsReady counter base_len name
      → add_suffix rounds counter base_len name ext used ≡ none
      → HasRange rounds counter (numbers used)
  unfolding add_suffix
  add_suffix-HasRange zero counter base_len name small below ready = λ h. tt
  add_suffix-HasRange (suc rounds) counter base_len name small below ready =
      by_test (contains used fcb) refl (
        add_suffix-HasRange rounds (suc counter) (fit_base base_len (counter_len counter))
          (with_suffix counter (fit_base base_len (counter_len counter)) name)
          (fit_base-le base_len (counter_len counter) small) (omega arith)
          (IsReady-next counter base_len name ready small))
    where
      len : ℕ
      len = fit_base base_len (counter_len counter)

      next : List ℕ
      next = with_suffix counter len name

      fcb : FcbFileName
      fcb = record { name_blank_padded = next; ext_blank_padded = ext }

      short : IsShort fcb
      short = record {
        name_size = length-with_suffix counter base_len name ready small;
        ext_size = ext_size;
        name_legal = with_suffix-IsLegal counter base_len name ready small;
        ext_legal = ext_legal;
      }

      shown : read_number 0 next ≡ counter
      shown = read_number-with_suffix counter len name (omega arith) ready.blank

      by_test :
          (taken : Bool)
          → contains used fcb ≡ taken
          → (add_suffix rounds (suc counter) len next ext used ≡ none
              → HasRange rounds (suc counter) (numbers used))
          → ◌≡◌ {A = Option (FcbFileName × List FcbFileName)}
              (elim taken [
                | false ↦ some (fcb, fcb ∷ used)
                | true ↦ add_suffix rounds (suc counter) len next ext used
              ])
              none
          → HasRange (suc rounds) counter (numbers used)
      by_test false e later h = absurd (ground arith)
      by_test true e later h = (
        subst (λ (n : ℕ). elem n (numbers used) ≡ true) shown
            (contains-numbers used fcb shorts short e),
        later h,
      )

length-numbers : (used : List FcbFileName) → length (numbers used) ≡ length used
length-numbers [] = refl
length-numbers (f ∷ fs) = ap suc (length-numbers fs)

file_name_to_83_some :
    (long_name : List ℕ) (used : List FcbFileName)
    → All IsShort used
    → length used < 9998
    → file_name_to_83 long_name used ≢ none
unfolding file_name_to_83
file_name_to_83_some long_name used shorts few =
    let (base, ext) = base_and_ext long_name (split_last_dot long_name) in
    let (b, be, bs) = sanitize_short_name base 8 in
    let (x, xe, xs) = sanitize_short_name ext 3 in
    let fcb : FcbFileName = record { name_blank_padded = b; ext_blank_padded = x } in
    let (b_size, b_len, b_blank) = sanitize_short_name-size base 8 in
    let (x_size, x_len, x_blank) = sanitize_short_name-size ext 3 in
    by_test b be x fcb
      (add_suffix-HasRange x used x_size (sanitize_short_name-IsLegal ext 3) shorts suffix_rounds 1
        be b b_len (omega arith)
        (IsReady-first be b b_size (sanitize_short_name-IsLegal base 8) b_blank))
      (not bs && not xs && not (contains used fcb))
  where
    by_test :
        (b : List ℕ) (be : ℕ) (x : List ℕ) (fcb : FcbFileName)
        → (add_suffix suffix_rounds 1 be b x used ≡ none → HasRange suffix_rounds 1 (numbers used))
        → (plain : Bool)
        → ◌≢◌ {A = Option (FcbFileName × List FcbFileName)}
            (elim plain [
              | true ↦ some (fcb, fcb ∷ used)
              | false ↦ add_suffix suffix_rounds 1 be b x used
            ])
            none
    by_test b be x fcb full true h = absurd (ground arith)
    by_test b be x fcb full false h = absurd (
        omega (
          arith,
          few,
          length-numbers used,
          HasRange-length suffix_rounds 1 (numbers used) (full h),
        ))

-- While fewer than 9998 names are in use, all of them legal short names, every file gets a name:
-- one that is not in use, of 8 and 3 legal characters, which is inserted into the set.
pub file_name_to_83_enough :
    (long_name : List ℕ) (used : List FcbFileName)
    → All IsShort used
    → length used < 9998
    → (f : FcbFileName) × (file_name_to_83 long_name used ≡ some (f, f ∷ used))
      × (contains used f ≡ false)
      × IsShort f
file_name_to_83_enough long_name used shorts few =
    by_result (file_name_to_83 long_name used) refl (file_name_to_83_some long_name used shorts few)
      (file_name_to_83-IsFresh long_name used)
  where
    by_result :
        (r : Option (FcbFileName × List FcbFileName))
        → file_name_to_83 long_name used ≡ r
        → r ≢ none
        → IsFresh used r
        → (f : FcbFileName) × (file_name_to_83 long_name used ≡ some (f, f ∷ used))
          × (contains used f ≡ false)
          × IsShort f
    by_result none e found fresh = absurd (found refl)
    by_result (some (f, all)) e found (free, grown, short) =
        (f, e ∙ ap (λ l. some (f, l)) grown, free, short)
