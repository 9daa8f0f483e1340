-- ===== src/Fcb/Short.antt =====
-- What the loop over the suffix numbers keeps of the name's buffer.
use net_mount.Base.{
  ℕ, zero, suc, ◌+◌, ◌-◌, ◌/◌, ◌%◌, ◌≤◌, ◌<◌, ◌≡◌, refl, ap, sym, subst, List, [], ◌∷◌, ◌++◌, ltb,
  arith, length, length-append, take, drop, drop-append, All, All-append, append_assoc, Bool-cases,
  inl, inr,
}
use net_mount.Fcb.{decimal, counter_len, fit_base, with_suffix, is_allowed}
use net_mount.Fcb.Legal.{AreBlank, IsLegal}
use net_mount.Fcb.Distinct.{length-decimal, counter_len-le, counter_len_mono}

-- The place behind the number.
abbrev pub suffix_end : ℕ → ℕ → ℕ
suffix_end base_len counter = fit_base base_len (counter_len counter) + suc (counter_len counter)

-- The buffer before the number `counter` is written.
pub record IsReady (counter base_len : ℕ) (name : List ℕ) : Type 0 where
  pub size : length name ≡ 8
  pub legal : All IsLegal name
  pub blank : AreBlank (drop (suffix_end base_len counter) name)

length-take_le : (n : ℕ) (xs : List ℕ) → n ≤ length xs → length (take n xs) ≡ n
length-take_le zero xs h = refl
length-take_le (suc n) [] h = absurd (omega arith)
length-take_le (suc n) (x ∷ xs) h = ap suc (length-take_le n xs (omega arith))

length-drop : (n : ℕ) (xs : List ℕ) → length (drop n xs) ≡ length xs - n
length-drop zero xs = omega arith
length-drop (suc n) [] = omega arith
length-drop (suc n) (x ∷ xs) = omega (arith, length-drop n xs)

All-take-IsLegal : (n : ℕ) (xs : List ℕ) → All IsLegal xs → All IsLegal (take n xs)
All-take-IsLegal zero xs h = tt
All-take-IsLegal (suc n) [] h = tt
All-take-IsLegal (suc n) (x ∷ xs) h = (h.0, All-take-IsLegal n xs h.1)

All-drop-IsLegal : (n : ℕ) (xs : List ℕ) → All IsLegal xs → All IsLegal (drop n xs)
All-drop-IsLegal zero xs h = h
All-drop-IsLegal (suc n) [] h = tt
All-drop-IsLegal (suc n) (x ∷ xs) h = All-drop-IsLegal n xs h.1

pub AreBlank-drop : (a b : ℕ) (xs : List ℕ) → a ≤ b → AreBlank (drop a xs) → AreBlank (drop b xs)
AreBlank-drop a zero xs h blank =
    let none_left : a ≡ 0 = omega arith in subst (λ (n : ℕ). AreBlank (drop n xs)) none_left blank
AreBlank-drop a (suc b) [] h blank = tt
AreBlank-drop zero (suc b) (x ∷ xs) h blank = AreBlank-drop zero b xs (omega arith) blank.1
AreBlank-drop (suc a) (suc b) (x ∷ xs) h blank = AreBlank-drop a b xs (omega arith) blank

AreBlank-past : (n : ℕ) (xs : List ℕ) → length xs ≤ n → AreBlank (drop n xs)
AreBlank-past zero [] h = tt
AreBlank-past zero (x ∷ xs) h = absurd (omega arith)
AreBlank-past (suc n) [] h = tt
AreBlank-past (suc n) (x ∷ xs) h = AreBlank-past n xs (omega arith)

digit-IsLegal : (d : ℕ) → d < 10 → IsLegal (b'0' + d)
unfolding is_allowed
digit-IsLegal d h = ground arith

decimal-IsLegal : (k c : ℕ) → All IsLegal (decimal k c)
unfolding decimal
decimal-IsLegal zero c = tt
decimal-IsLegal (suc k) c =
    All-append IsLegal (decimal k (c / 10)) ((b'0' + c % 10) ∷ []) (decimal-IsLegal k (c / 10))
      (digit-IsLegal (c % 10) (omega arith), tt)

-- The number fits behind the shortened base.
pub suffix_end-le : (base_len counter : ℕ) → base_len ≤ 8 → suffix_end base_len counter ≤ 8
unfolding fit_base
suffix_end-le base_len counter h = let (p, q) = counter_len-le counter in ground (arith, p, q)

-- A place behind which the buffer is blank, for a number that is not shorter.
suffix_end-blank :
    (base_len counter from : ℕ) (name : List ℕ)
    → length name ≡ 8
    → from ≤ base_len + suc (counter_len counter)
    → AreBlank (drop from name)
    → AreBlank (drop (suffix_end base_len counter) name)
unfolding fit_base
suffix_end-blank base_len counter from name size h blank =
    let (p, q) = counter_len-le counter in
    elim (Bool-cases (ltb 7 (base_len + counter_len counter))) [
      | inl full ↦ rw full (AreBlank-past _ name (omega (arith, p, q, size)))
      | inr room ↦ rw room (AreBlank-drop from (base_len + suc (counter_len counter)) name h blank)
    ]

pub IsReady-first :
    (base_len : ℕ) (name : List ℕ)
    → length name ≡ 8
    → All IsLegal name
    → AreBlank (drop base_len name)
    → IsReady 1 base_len name
IsReady-first base_len name size legal blank = record {
  size = size;
  legal = legal;
  blank = suffix_end-blank base_len 1 base_len name size (omega arith) blank;
}

module _ (counter base_len : ℕ) (name : List ℕ) (ready : IsReady counter base_len name)
    (small : base_len ≤ 8) where
  abbrev len : ℕ
  len = fit_base base_len (counter_len counter)

  abbrev digits : List ℕ
  digits = decimal (counter_len counter) counter

  abbrev written : List ℕ
  written = take len name ++ b'~' ∷ digits

  with_suffix-eq : with_suffix counter len name ≡ written ++ drop (suffix_end base_len counter) name
  unfolding with_suffix
  with_suffix-eq =
      rw (length-decimal (counter_len counter) counter) (
        sym
          (append_assoc (take len name) (b'~' ∷ digits) (drop (suffix_end base_len counter) name)))

  length-written : length written ≡ suffix_end base_len counter
  length-written = omega (
    arith,
    length-append (take len name) (b'~' ∷ digits),
    length-take_le len name (omega (arith, ready.size, suffix_end-le base_len counter small)),
    length-decimal (counter_len counter) counter,
  )

  pub length-with_suffix : length (with_suffix counter len name) ≡ 8
  length-with_suffix = rw with_suffix-eq (
      omega (
        arith,
        length-append written (drop (suffix_end base_len counter) name),
        length-drop (suffix_end base_len counter) name,
        length-written,
        ready.size,
        suffix_end-le base_len counter small,
      ))

  pub with_suffix-IsLegal : All IsLegal (with_suffix counter len name)
  unfolding is_allowed
  with_suffix-IsLegal = subst (All IsLegal) (sym with_suffix-eq) (
      All-append IsLegal written (drop (suffix_end base_len counter) name)
        (All-append IsLegal (take len name) (b'~' ∷ digits) (All-take-IsLegal len name ready.legal)
          (refl, decimal-IsLegal (counter_len counter) counter))
        (All-drop-IsLegal (suffix_end base_len counter) name ready.legal))

  pub with_suffix-AreBlank :
      AreBlank (drop (suffix_end base_len counter) (with_suffix counter len name))
  with_suffix-AreBlank =
      let same : drop (suffix_end base_len counter) (with_suffix counter len name)
          ≡ drop (suffix_end base_len counter) name =
        rw (with_suffix-eq, sym length-written)
          (drop-append written (drop (length written) name)) in
      subst AreBlank (sym same) ready.blank

  -- The next number is written into a buffer of the same kind.
  pub IsReady-next : IsReady (suc counter) len (with_suffix counter len name)
  IsReady-next = record {
    size = length-with_suffix;
    legal = with_suffix-IsLegal;
    blank =
        suffix_end-blank len (suc counter) (suffix_end base_len counter)
          (with_suffix counter len name) length-with_suffix
          (omega (arith, counter_len_mono counter)) with_suffix-AreBlank;
  }
