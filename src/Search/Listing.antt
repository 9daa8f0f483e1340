-- ===== src/Search/Listing.antt =====
-- A client that searches on from each entry it gets sees every wanted entry once, in order.
use Prim.Native.Nat.{min, max}
use net_mount.Base.{
  ℕ, zero, suc, ◌+◌, ◌-◌, ◌*◌, ◌/◌, ◌%◌, ◌≤◌, ◌<◌, ◌≡◌, ◌↔◌, refl, ap, ap₂, bit_or, bit_and,
  bit_or_step, bit_and-half, bit_and-low, bit_and-zero, bit_or-zero, subst, true, sym, ◌∙◌, List,
  [], ◌∷◌, false, arith, length, drop, if◌then◌else◌, Bool-cases, inl, inr, Option, none, some,
}
use net_mount.Fcb.{FcbFileName, match_fcb_name_to_mask}
use net_mount.Fcb.Parse.{Fits, match_fcb_name_to_mask_iff}
use net_mount.Drive.{DosFileProperties}
use net_mount.Search.{is_wanted, find_entry}

-- The entries that pass the tests of the source.
abbrev wanted : FcbFileName → ℕ → List DosFileProperties → List DosFileProperties
wanted tmpl attr [] = []
wanted tmpl attr (p ∷ ps) =
    let rest = wanted tmpl attr ps in if is_wanted tmpl attr p then p ∷ rest else rest

-- What a client sees that starts at `nth` and goes on with the `nth` of each answer, up to `rounds`
-- answers.
abbrev pub listing : ℕ → FcbFileName → ℕ → ℕ → List DosFileProperties → List DosFileProperties
listing zero tmpl attr nth entries = []
listing (suc rounds) tmpl attr nth entries = elim (find_entry tmpl attr nth (drop nth entries)) [
  | none ↦ []
  | some (p, next) ↦ p ∷ listing rounds tmpl attr next entries
]

-- What one search promises of the entries from index `n` on.
abbrev Answers :
    FcbFileName → ℕ → ℕ → List DosFileProperties → Option (DosFileProperties × ℕ) → Type 0
Answers tmpl attr n entries none = wanted tmpl attr entries ≡ []
Answers tmpl attr n entries (some (p, next)) =
    (d : ℕ) × (d < length entries)
    × (next ≡ n + suc d)
    × (wanted tmpl attr entries ≡ p ∷ wanted tmpl attr (drop (suc d) entries))

find_entry-Answers :
    (tmpl : FcbFileName) (attr n : ℕ) (entries : List DosFileProperties)
    → n + length entries < 65536
    → Answers tmpl attr n entries (find_entry tmpl attr n entries)
unfolding find_entry
find_entry-Answers tmpl attr n [] h = refl
find_entry-Answers tmpl attr n (p ∷ ps) h = elim (Bool-cases (is_wanted tmpl attr p)) [
  | inl good ↦ rw good (0, omega arith, omega arith, rw good refl)
  | inr dull ↦ rw dull (
      later (find_entry tmpl attr (suc n) ps)
        (find_entry-Answers tmpl attr (suc n) ps (omega arith)) dull)
]
  where
    later :
        (r : Option (DosFileProperties × ℕ))
        → Answers tmpl attr (suc n) ps r
        → is_wanted tmpl attr p ≡ false
        → Answers tmpl attr n (p ∷ ps) r
    later none e dull = rw dull e
    later (some (q, next)) (d, lt, e, w) dull = (suc d, omega arith, omega arith, rw dull w)

drop-drop :
    (n d : ℕ) (entries : List DosFileProperties) → drop d (drop n entries) ≡ drop (n + d) entries
drop-drop zero d entries = let e : d ≡ 0 + d = omega arith in ap (λ (k : ℕ). drop k entries) e
drop-drop (suc n) d [] = let e : suc n + d ≡ suc (n + d) = omega arith in rw e (drop_nothing d)
  where
    drop_nothing : (d : ℕ) → drop {A = DosFileProperties} d [] ≡ []
    drop_nothing zero = refl
    drop_nothing (suc d) = refl
drop-drop (suc n) d (p ∷ ps) =
    let e : suc n + d ≡ suc (n + d) = omega arith in rw e (drop-drop n d ps)

length-drop_eq :
    (n : ℕ) (entries : List DosFileProperties) → length (drop n entries) ≡ length entries - n
length-drop_eq zero entries = omega arith
length-drop_eq (suc n) [] = omega arith
length-drop_eq (suc n) (p ∷ ps) = omega (arith, length-drop_eq n ps)

listing-wanted :
    (rounds : ℕ) (tmpl : FcbFileName) (attr nth : ℕ) (entries : List DosFileProperties)
    → nth ≤ length entries
    → length entries < 65536
    → length entries ≤ nth + rounds
    → listing rounds tmpl attr nth entries ≡ wanted tmpl attr (drop nth entries)
listing-wanted zero tmpl attr nth entries start size enough =
    nothing_left (drop nth entries) (omega (arith, length-drop_eq nth entries))
  where
    nothing_left : (l : List DosFileProperties) → length l ≡ 0 → [] ≡ wanted tmpl attr l
    nothing_left [] e = refl
    nothing_left (p ∷ ps) e = absurd (omega arith)
listing-wanted (suc rounds) tmpl attr nth entries start size enough =
    by_answer (find_entry tmpl attr nth (drop nth entries))
      (find_entry-Answers tmpl attr nth (drop nth entries)
        (omega (arith, length-drop_eq nth entries)))
      (λ next. listing-wanted rounds tmpl attr next entries)
  where
    by_answer :
        (r : Option (DosFileProperties × ℕ))
        → Answers tmpl attr nth (drop nth entries) r
        → ((next : ℕ)
            → next ≤ length entries
            → length entries < 65536
            → length entries ≤ next + rounds
            → listing rounds tmpl attr next entries ≡ wanted tmpl attr (drop next entries))
        → elim r [ none ↦ [] | some (p, next) ↦ p ∷ listing rounds tmpl attr next entries ]
          ≡ wanted tmpl attr (drop nth entries)
    by_answer none e rest = sym e
    by_answer (some (p, next)) (d, lt, e, w) rest =
        let left = length-drop_eq nth entries in
        ap (λ l. p ∷ l)
          (rest next (omega (arith, left)) size (omega (arith, left))
            ∙ ap (wanted tmpl attr)
                (ap (λ (k : ℕ). drop k entries) e ∙ sym (drop-drop nth (suc d) entries)))
        ∙ sym w

-- Digit `i` of a number.
abbrev pub bit : ℕ → ℕ → ℕ
bit zero x = x % 2
bit (suc i) x = bit i (x / 2)

-- The name fits the mask, and of the attributes hidden, system, volume and directory, the digits 1 to
-- 4, the entry has none that is not asked for.
abbrev pub IsAskedFor : FcbFileName → ℕ → DosFileProperties → Type 0
IsAskedFor tmpl attr p =
    Fits tmpl.name_blank_padded p.fcb_name.name_blank_padded
    × Fits tmpl.ext_blank_padded p.fcb_name.ext_blank_padded
    × (bit 1 p.attrs ≤ bit 1 attr)
    × (bit 2 p.attrs ≤ bit 2 attr)
    × (bit 3 p.attrs ≤ bit 3 attr)
    × (bit 4 p.attrs ≤ bit 4 attr)

-- The second list has the entries of the first one that fulfil `P`, and no others, in the same order.
pub data Selects (P : DosFileProperties → Type 0)
    : List DosFileProperties → List DosFileProperties → Type 0 where
  nothing_left : Selects P [] []
  taken :
      {p : DosFileProperties} {ps out : List DosFileProperties}
      → P p
      → Selects P ps out
      → Selects P (p ∷ ps) (p ∷ out)
  passed_over :
      {p : DosFileProperties} {ps out : List DosFileProperties}
      → (P p → ⊥)
      → Selects P ps out
      → Selects P (p ∷ ps) out

-- `x` has every digit that `a` has under the mask `m`.
abbrev covers : ℕ → ℕ → ℕ → ℕ
covers x a m = bit_or x (bit_and a m)

covers_step :
    (x a m : ℕ)
    → (covers x a m ≡ x)
      ↔ ((covers (x / 2) (a / 2) (m / 2) ≡ x / 2) × (min (a % 2) (m % 2) ≤ x % 2))
covers_step x a m =
    let step : covers x a m
        ≡ covers (x / 2) (a / 2) (m / 2) * 2 + max (x % 2) (min (a % 2) (m % 2)) =
      bit_or_step x (bit_and a m)
      ∙ ap₂ (λ (h l : ℕ). bit_or (x / 2) h * 2 + max (x % 2) l) (bit_and-half a m)
          (bit_and-low a m) in
    (λ h. (omega (arith, step, h), omega (arith, step, h)), λ h. omega (arith, step, h.0, h.1))

covers_nothing : (x a : ℕ) → covers x a 0 ≡ x
covers_nothing x a = ap (λ (b : ℕ). bit_or x b) (bit_and-zero a) ∙ bit_or-zero x

-- The mask of the source has the digits 1 to 4.
covers_iff :
    (x a : ℕ)
    → (covers x a 0x1e ≡ x)
      ↔ ((bit 1 a ≤ bit 1 x) × (bit 2 a ≤ bit 2 x) × (bit 3 a ≤ bit 3 x) × (bit 4 a ≤ bit 4 x))
covers_iff x a =
    let (to, from) = covers_step x a 0x1e in
    let (to1, from1) = covers_step (x / 2) (a / 2) 0xf in
    let (to2, from2) = covers_step (x / 2 / 2) (a / 2 / 2) 7 in
    let (to3, from3) = covers_step (x / 2 / 2 / 2) (a / 2 / 2 / 2) 3 in
    let (to4, from4) = covers_step (x / 2 / 2 / 2 / 2) (a / 2 / 2 / 2 / 2) 1 in
    (
      λ h.
          let h1 = (to h).0 in
          let h2 = to1 h1 in
          let h3 = to2 h2.0 in
          let h4 = to3 h3.0 in
          let h5 = to4 h4.0 in
          (omega (arith, h2.1), omega (arith, h3.1), omega (arith, h4.1), omega (arith, h5.1)),
      λ (b1, b2, b3, b4). from (
        from1 (
          from2 (
            from3 (from4 (covers_nothing _ _, omega (arith, b4)), omega (arith, b3)),
            omega (arith, b2),
          ),
          omega (arith, b1),
        ),
        omega arith,
      ),
    )

is_wanted_iff :
    (tmpl : FcbFileName) (attr : ℕ) (p : DosFileProperties)
    → (is_wanted tmpl attr p ≡ true) ↔ IsAskedFor tmpl attr p
unfolding is_wanted
is_wanted_iff tmpl attr p =
    let (names, back) = match_fcb_name_to_mask_iff tmpl p.fcb_name in
    let (bits, of_bits) = covers_iff attr p.attrs in
    (
      λ h.
          let fits : match_fcb_name_to_mask tmpl p.fcb_name ≡ true = ground (arith, h) in
          let covered : covers attr p.attrs 0x1e ≡ attr = ground (arith, h) in
          let (name, ext) = names fits in
          let (b1, b2, b3, b4) = bits covered in (name, ext, b1, b2, b3, b4),
      λ asked.
          let (name, ext, b1, b2, b3, b4) = asked in
          ground (arith, back (name, ext), of_bits (b1, b2, b3, b4)),
    )

wanted-Selects :
    (tmpl : FcbFileName) (attr : ℕ) (entries : List DosFileProperties)
    → Selects (IsAskedFor tmpl attr) entries (wanted tmpl attr entries)
wanted-Selects tmpl attr [] = nothing_left
wanted-Selects tmpl attr (p ∷ ps) =
    let (to, from) = is_wanted_iff tmpl attr p in
    elim (Bool-cases (is_wanted tmpl attr p)) [
      | inl good ↦ rw good (taken (to good) (wanted-Selects tmpl attr ps))
      | inr dull ↦
          rw dull
            (passed_over (λ asked. ground (arith, dull, from asked)) (wanted-Selects tmpl attr ps))
    ]

-- Searching on from `nth` with the `nth` of each answer gives the entries from `nth` on whose name fits
-- the mask and that have none of the attributes hidden, system, volume and directory but the ones
-- asked for: each once, in the order of the directory, and no others; then the search ends. The
-- directory has at most 65535 entries, and the client asks as many times as entries are left.
pub listing-Selects :
    (rounds : ℕ) (tmpl : FcbFileName) (attr nth : ℕ) (entries : List DosFileProperties)
    → nth ≤ length entries
    → length entries < 65536
    → length entries ≤ nth + rounds
    → Selects (IsAskedFor tmpl attr) (drop nth entries) (listing rounds tmpl attr nth entries)
listing-Selects rounds tmpl attr nth entries start size enough =
    subst (Selects (IsAskedFor tmpl attr) (drop nth entries))
      (sym (listing-wanted rounds tmpl attr nth entries start size enough))
      (wanted-Selects tmpl attr (drop nth entries))
