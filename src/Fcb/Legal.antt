-- ===== src/Fcb/Legal.antt =====
-- The characters of short names, and when two names are the same.
use net_mount.Base.{
  ℕ, zero, suc, ◌-◌, ◌≤◌, ◌≡◌, ◌≢◌, refl, ap₂, sym, ◌∙◌, List, [], ◌∷◌, true, ◌||◌, ◌==◌, arith,
  length, length-append, length-replicate, replicate, drop, drop-append, All, All-append, Option,
}
use net_mount.Fcb.{
  FcbFileName, equal, strncmp, fcb_compare, fcb_eq, is_allowed, sanitize_char, sanitize_loop, space,
  sanitize_short_name, last_non_space,
}

-- A character that a short name may hold.
abbrev pub IsLegal : ℕ → Type 0
IsLegal c = (is_allowed c || c == b' ') ≡ true

pub IsLegal-ne_zero : (c : ℕ) → IsLegal c → c ≢ 0
unfolding is_allowed
IsLegal-ne_zero c h = ground arith

-- The parts have their sizes and hold legal characters only.
pub record IsShort (f : FcbFileName) : Type 0 where
  pub name_size : length f.name_blank_padded ≡ 8
  pub ext_size : length f.ext_blank_padded ≡ 3
  pub name_legal : All IsLegal f.name_blank_padded
  pub ext_legal : All IsLegal f.ext_blank_padded

sanitize_char-IsLegal : (last : Option ℕ) (idx c : ℕ) → IsLegal (sanitize_char last idx c)
unfolding sanitize_char is_allowed
sanitize_char-IsLegal last idx c = ground arith

pub strncmp-eq :
    (xs ys : List ℕ) → length xs ≡ length ys → All IsLegal xs → strncmp xs ys ≡ equal → xs ≡ ys
unfolding strncmp
strncmp-eq [] [] size legal same = refl
strncmp-eq [] (y ∷ ys) size legal same = absurd (omega arith)
strncmp-eq (x ∷ xs) [] size legal same = absurd (omega arith)
strncmp-eq (x ∷ xs) (y ∷ ys) size (legal, rest) same =
    let (head, tail) = split_same in
    ap₂ (λ (a : ℕ) b. a ∷ b) head (strncmp-eq xs ys (omega arith) rest tail)
  where
    split_same : (x ≡ y) × (strncmp xs ys ≡ equal)
    split_same = ground (arith, same, IsLegal-ne_zero x legal)

strncmp_refl : (xs : List ℕ) → strncmp xs xs ≡ equal
unfolding strncmp
strncmp_refl [] = refl
strncmp_refl (x ∷ xs) = ground (arith, strncmp_refl xs)

-- Two short names that compare as equal have the same bytes.
pub fcb_eq-IsShort :
    (f g : FcbFileName)
    → IsShort f
    → IsShort g
    → fcb_eq f g ≡ true
    → (f.name_blank_padded ≡ g.name_blank_padded) × (f.ext_blank_padded ≡ g.ext_blank_padded)
unfolding fcb_eq fcb_compare
fcb_eq-IsShort f g hf hg same = (
  strncmp-eq f.name_blank_padded g.name_blank_padded (hf.name_size ∙ sym hg.name_size) hf.name_legal
      names,
  strncmp-eq f.ext_blank_padded g.ext_blank_padded (hf.ext_size ∙ sym hg.ext_size) hf.ext_legal
      exts,
)
  where
    names : strncmp f.name_blank_padded g.name_blank_padded ≡ equal
    names = ground arith

    exts : strncmp f.ext_blank_padded g.ext_blank_padded ≡ equal
    exts = ground arith

sanitize_loop-IsLegal :
    (last : Option ℕ) (idx room : ℕ) (s : List ℕ) → All IsLegal (sanitize_loop last idx room s).0
unfolding sanitize_loop
sanitize_loop-IsLegal last idx room [] = tt
sanitize_loop-IsLegal last idx zero (c ∷ cs) = tt
sanitize_loop-IsLegal last idx (suc room) (c ∷ cs) =
    (sanitize_char-IsLegal last idx c, sanitize_loop-IsLegal last (suc idx) room cs)

length-sanitize_loop :
    (last : Option ℕ) (idx room : ℕ) (s : List ℕ) → length (sanitize_loop last idx room s).0 ≤ room
unfolding sanitize_loop
length-sanitize_loop last idx room [] = omega arith
length-sanitize_loop last idx zero (c ∷ cs) = omega arith
length-sanitize_loop last idx (suc room) (c ∷ cs) =
    omega (arith, length-sanitize_loop last (suc idx) room cs)

spaces-IsLegal : (n : ℕ) → All IsLegal (replicate n space)
unfolding is_allowed
spaces-IsLegal zero = tt
spaces-IsLegal (suc n) = (refl, spaces-IsLegal n)

abbrev pub AreBlank : List ℕ → Type 0
AreBlank = All (λ c. c ≡ space)

pub spaces_all : (n : ℕ) → AreBlank (replicate n space)
spaces_all zero = tt
spaces_all (suc n) = (refl, spaces_all n)

pub sanitize_short_name-IsLegal :
    (s : List ℕ) (size : ℕ) → All IsLegal (sanitize_short_name s size).0
unfolding sanitize_short_name
sanitize_short_name-IsLegal s size =
    All-append IsLegal (sanitize_loop (last_non_space 0 s) 0 size s).0 _
      (sanitize_loop-IsLegal (last_non_space 0 s) 0 size s) (spaces-IsLegal _)

-- The buffer is filled to its size, and behind the length that is returned there are spaces.
pub sanitize_short_name-size :
    (s : List ℕ) (size : ℕ)
    → (length (sanitize_short_name s size).0 ≡ size)
      × ((sanitize_short_name s size).1 ≤ size)
      × AreBlank (drop (sanitize_short_name s size).1 (sanitize_short_name s size).0)
unfolding sanitize_short_name
sanitize_short_name-size s size =
    let out = (sanitize_loop (last_non_space 0 s) 0 size s).0 in
    let fits = length-sanitize_loop (last_non_space 0 s) 0 size s in
    (
      omega (
        arith,
        fits,
        length-append out (replicate (size - length out) space),
        length-replicate (size - length out) space,
      ),
      fits,
      rw (drop-append out (replicate (size - length out) space)) (spaces_all (size - length out)),
    )
