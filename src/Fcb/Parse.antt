-- ===== src/Fcb/Parse.antt =====
-- `short_name_to_fcb` and `match_fcb_name_to_mask` on the names that `file_name_to_83` gives.
use net_mount.Base.{
  ℕ, zero, suc, ◌-◌, ◌≤◌, ◌<◌, ◌≡◌, ◌↔◌, ◌⊎◌, refl, ap, ap₂, sym, subst, ◌∙◌, List, [], ◌∷◌, ◌++◌,
  true, false, ◌==◌, arith, length, length-append, length-replicate, replicate, All, if◌then◌else◌,
  Bool-cases, inl, inr,
}
use net_mount.Bytes.{ascii_to_upper}
use net_mount.Fcb.{
  FcbFileName, is_allowed, lead_dots, take_part, skip_dot, pad, space, short_name_to_fcb,
  match_part, match_fcb_name_to_mask,
}
use net_mount.Fcb.Legal.{IsLegal, IsShort}

legal_lem : (c : ℕ) → IsLegal c → (ascii_to_upper c ≡ c) × ((c == b'.') ≡ false)
unfolding is_allowed ascii_to_upper
legal_lem c h = ground arith

take_part-legal :
    (k : ℕ) (part rest : List ℕ)
    → length part ≤ k
    → All IsLegal part
    → take_part k (part ++ b'.' ∷ rest) ≡ (part, b'.' ∷ rest)
unfolding take_part
take_part-legal zero [] rest fits h = refl
take_part-legal zero (c ∷ cs) rest fits h = absurd (omega arith)
take_part-legal (suc k) [] rest fits h = refl
take_part-legal (suc k) (c ∷ cs) rest fits (legal, h) =
    let (upper, plain) = legal_lem c legal in
    rw (plain, upper, take_part-legal k cs rest (omega arith) h) refl

take_part_end :
    (k : ℕ) (part : List ℕ) → length part ≤ k → All IsLegal part → take_part k part ≡ (part, [])
unfolding take_part
take_part_end zero [] fits h = refl
take_part_end zero (c ∷ cs) fits h = absurd (omega arith)
take_part_end (suc k) [] fits h = refl
take_part_end (suc k) (c ∷ cs) fits (legal, h) =
    let (upper, plain) = legal_lem c legal in
    rw (plain, upper, take_part_end k cs (omega arith) h) refl

lead_dots_none :
    (base rest : List ℕ)
    → 0 < length base
    → All IsLegal base
    → lead_dots 2 (base ++ rest) ≡ ([], base ++ rest)
unfolding lead_dots
lead_dots_none [] rest pos h = absurd (omega arith)
lead_dots_none (c ∷ cs) rest pos (legal, h) = let (_, plain) = legal_lem c legal in rw plain refl

-- A short name with a base of 1 to 8 and an extension of up to 3 legal characters, written with a
-- dot between them, is taken apart into the two, each padded with spaces.
pub short_name_to_fcb-dot :
    (base ext : List ℕ)
    → 0 < length base
    → length base ≤ 8
    → length ext ≤ 3
    → All IsLegal base
    → All IsLegal ext
    → short_name_to_fcb (base ++ b'.' ∷ ext)
      ≡ record { name_blank_padded = pad 8 base; ext_blank_padded = pad 3 ext }
unfolding short_name_to_fcb skip_dot
short_name_to_fcb-dot base ext pos base_fits ext_fits base_legal ext_legal =
    rw
      (
        lead_dots_none base (b'.' ∷ ext) pos base_legal,
        take_part-legal 8 base ext base_fits base_legal,
        take_part_end 3 ext ext_fits ext_legal,
      )
      refl

-- A part without the spaces at its end.
abbrev pub trim : List ℕ → List ℕ
trim [] = []
trim (c ∷ cs) = elim (trim cs) [ [] ↦ if c == space then [] else c ∷ [] | d ∷ ds ↦ c ∷ d ∷ ds ]

trim-replicate : (xs : List ℕ) → (k : ℕ) × (xs ≡ trim xs ++ replicate k space)
trim-replicate [] = (0, refl)
trim-replicate (c ∷ cs) = let (k, e) = trim-replicate cs in by_rest (trim cs) k e
  where
    by_rest :
        (t : List ℕ) (k : ℕ)
        → cs ≡ t ++ replicate k space
        → (n : ℕ) × (c ∷ cs
            ≡ elim t [ [] ↦ if c == space then [] else c ∷ [] | d ∷ ds ↦ c ∷ d ∷ ds ]
              ++ replicate n space)
    by_rest [] k e = elim (Bool-cases (c == space)) [
      | inl blank ↦
          let same : c ≡ space = ground (arith, blank) in
          (suc k, rw blank (ap₂ (λ (a : ℕ) l. a ∷ l) same e))
      | inr dark ↦ (k, rw dark (ap (λ l. c ∷ l) e))
    ]
    by_rest (d ∷ ds) k e = (k, ap (λ l. c ∷ l) e)

All-front : (xs ys : List ℕ) → All IsLegal (xs ++ ys) → All IsLegal xs
All-front [] ys h = tt
All-front (x ∷ xs) ys h = (h.0, All-front xs ys h.1)

-- A padded part is its trimmed part, padded again.
pad-trim :
    (n : ℕ) (xs : List ℕ)
    → length xs ≡ n
    → All IsLegal xs
    → (pad n (trim xs) ≡ xs) × (length (trim xs) ≤ n) × All IsLegal (trim xs)
pad-trim n xs size legal =
    let (k, e) = trim-replicate xs in
    let total = ap length e ∙ length-append (trim xs) (replicate k space) in
    let count : n - length (trim xs) ≡ k = omega (arith, size, total, length-replicate k space) in
    (
      rw count (sym e),
      omega (arith, size, total),
      All-front (trim xs) (replicate k space) (subst (All IsLegal) e legal),
    )

-- The name as a client writes it.
abbrev pub printed : FcbFileName → List ℕ
printed f = trim f.name_blank_padded ++ b'.' ∷ trim f.ext_blank_padded

-- A legal short name whose base is not blank is read back from the way it is written: the base
-- without its padding, a dot, and the extension without its padding.
pub short_name_to_fcb-printed :
    (f : FcbFileName)
    → IsShort f
    → 0 < length (trim f.name_blank_padded)
    → short_name_to_fcb (printed f) ≡ f
short_name_to_fcb-printed f short pos =
    let (b, b_fits, b_legal) = pad-trim 8 f.name_blank_padded short.name_size short.name_legal in
    let (x, x_fits, x_legal) = pad-trim 3 f.ext_blank_padded short.ext_size short.ext_legal in
    short_name_to_fcb-dot (trim f.name_blank_padded) (trim f.ext_blank_padded) pos b_fits x_fits
      b_legal x_legal
    ∙ ap₂ (λ (p : List ℕ) (q : List ℕ). record { name_blank_padded = p; ext_blank_padded = q }) b x

-- What a mask part matches: as many characters as the name has, each one `?` or the same letter.
abbrev pub Fits : List ℕ → List ℕ → Type 0
Fits mask [] = Unit
Fits [] (c ∷ cs) = ⊥
Fits (m ∷ ms) (c ∷ cs) = ((m ≡ b'?') ⊎ (ascii_to_upper c ≡ ascii_to_upper m)) × Fits ms cs

match_part_iff : (mask name : List ℕ) → (match_part mask name ≡ true) ↔ Fits mask name
unfolding match_part
match_part_iff mask [] = (λ h. tt, λ h. refl)
match_part_iff [] (c ∷ cs) = (λ h. absurd (ground (arith, h)), λ h. absurd h)
match_part_iff (m ∷ ms) (c ∷ cs) = let (to, from) = match_part_iff ms cs in ground (arith, to, from)

-- A name matches a mask exactly if at each place the mask has `?`, or the two have the same letter,
-- whatever its case.
pub match_fcb_name_to_mask_iff :
    (mask name : FcbFileName)
    → (match_fcb_name_to_mask mask name ≡ true) ↔ (
        Fits mask.name_blank_padded name.name_blank_padded
        × Fits mask.ext_blank_padded name.ext_blank_padded)
unfolding match_fcb_name_to_mask
match_fcb_name_to_mask_iff mask name =
    let (to, from) = match_part_iff mask.name_blank_padded name.name_blank_padded in
    let (to', from') = match_part_iff mask.ext_blank_padded name.ext_blank_padded in
    ground (arith, to, from, to', from')
