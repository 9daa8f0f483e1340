-- ===== src/Unicode/Utf8.antt =====
-- The conversion to ASCII of a string that is the UTF-8 encoding of code points: each is converted by
-- itself.
use net_mount.Base.{
  ℕ, suc, ◌+◌, ◌*◌, ◌/◌, ◌%◌, ◌<◌, ◌≡◌, refl, ap, ◌∙◌, List, [], ◌∷◌, ◌++◌, false, if◌then◌else◌,
  ltb, length, All, arith, Bool-cases, inl, inr,
}
use net_mount.Unicode.{
  TransliterationMap, transliterate, ascii_of, convert_from, convert_utf8_to_ascii,
}
use net_mount.Unicode.Lead.{
  tail_byte, lead_len_1, lead_len_2, lead_len_3, lead_len_4, codepoint_2, codepoint_3, codepoint_4,
}

-- UTF-8, as the standard defines it.
abbrev pub encode : ℕ → List ℕ
encode cp =
    if ltb cp 0x80
    then cp ∷ []
    else if ltb cp 0x800
    then (0xc0 + cp / 64) ∷ tail_byte cp ∷ []
    else if ltb cp 0x10000
    then (0xe0 + cp / 4096) ∷ tail_byte (cp / 64) ∷ tail_byte cp ∷ []
    else (0xf0 + cp / 262144) ∷ tail_byte (cp / 4096) ∷ tail_byte (cp / 64) ∷ tail_byte cp ∷ []

abbrev pub code_points : ℕ
code_points = 0x110000

-- What a code point becomes.
abbrev pub ascii_of_cp : TransliterationMap → ℕ → List ℕ
ascii_of_cp entries cp = if ltb cp 0x80 then cp ∷ [] else transliterate entries cp

module _ (entries : TransliterationMap) where
  convert_1 :
      (c : ℕ) (rest : List ℕ)
      → c < 128
      → convert_from entries 0 (c ∷ rest) ≡ c ∷ convert_from entries 0 rest
  unfolding convert_from ascii_of
  convert_1 c rest lt =
      let room : ltb (suc (length rest)) 1 ≡ false = ground arith in rw (lead_len_1 c lt, room) refl

  convert_2 :
      (h x : ℕ) (rest : List ℕ)
      → h < 32
      → convert_from entries 0 ((0xc0 + h) ∷ tail_byte x ∷ rest)
        ≡ transliterate entries (h * 64 + x % 64) ++ convert_from entries 0 rest
  unfolding convert_from ascii_of
  convert_2 h x rest lt =
      let room : ltb (suc (suc (length rest))) 2 ≡ false = ground arith in
      rw (lead_len_2 h lt, room, codepoint_2 h x lt) refl

  convert_3 :
      (h x y : ℕ) (rest : List ℕ)
      → h < 16
      → convert_from entries 0 ((0xe0 + h) ∷ tail_byte x ∷ tail_byte y ∷ rest)
        ≡ transliterate entries ((h * 64 + x % 64) * 64 + y % 64) ++ convert_from entries 0 rest
  unfolding convert_from ascii_of
  convert_3 h x y rest lt =
      let room : ltb (suc (suc (suc (length rest)))) 3 ≡ false = ground arith in
      rw (lead_len_3 h lt, room, codepoint_3 h x y lt) refl

  convert_4 :
      (h x y z : ℕ) (rest : List ℕ)
      → h < 8
      → convert_from entries 0 ((0xf0 + h) ∷ tail_byte x ∷ tail_byte y ∷ tail_byte z ∷ rest)
        ≡ transliterate entries (((h * 64 + x % 64) * 64 + y % 64) * 64 + z % 64)
          ++ convert_from entries 0 rest
  unfolding convert_from ascii_of
  convert_4 h x y z rest lt =
      let room : ltb (suc (suc (suc (suc (length rest))))) 4 ≡ false = ground arith in
      rw (lead_len_4 h lt, room, codepoint_4 h x y z lt) refl

  -- One code point in front of the rest.
  convert-encode :
      (cp : ℕ) (rest : List ℕ)
      → cp < code_points
      → convert_from entries 0 (encode cp ++ rest)
        ≡ ascii_of_cp entries cp ++ convert_from entries 0 rest
  convert-encode cp rest lt = elim (Bool-cases (ltb cp 0x80)) [
    | inl one ↦ rw one (convert_1 cp rest (ground (arith, one)))
    | inr more ↦ elim (Bool-cases (ltb cp 0x800)) [
      | inl two ↦
          let whole : cp / 64 * 64 + cp % 64 ≡ cp = omega arith in
          let step = convert_2 (cp / 64) cp rest (ground (arith, two)) in
          rw (more, two)
            (step ∙ ap (λ (v : ℕ). transliterate entries v ++ convert_from entries 0 rest) whole)
      | inr many ↦ elim (Bool-cases (ltb cp 0x10000)) [
        | inl three ↦
            let whole : (cp / 4096 * 64 + cp / 64 % 64) * 64 + cp % 64 ≡ cp = omega arith in
            let step = convert_3 (cp / 4096) (cp / 64) cp rest (ground (arith, three)) in
            rw (more, many, three)
              (step ∙ ap (λ (v : ℕ). transliterate entries v ++ convert_from entries 0 rest) whole)
        | inr four ↦
            let whole : ((cp / 262144 * 64 + cp / 4096 % 64) * 64 + cp / 64 % 64) * 64 + cp % 64
                ≡ cp =
              omega arith in
            let step = convert_4 (cp / 262144) (cp / 4096) (cp / 64) cp rest (omega (arith, lt)) in
            rw (more, many, four)
              (step ∙ ap (λ (v : ℕ). transliterate entries v ++ convert_from entries 0 rest) whole)
      ]
    ]
  ]

-- All of a list, one after the other.
abbrev pub each : (ℕ → List ℕ) → List ℕ → List ℕ
each f [] = []
each f (x ∷ xs) = f x ++ each f xs

-- A name that is the UTF-8 encoding of code points becomes what each code point becomes, in order: an
-- ASCII character itself, a combining mark nothing, any other what the map has for it, or `_`.
pub convert_utf8_to_ascii-encode :
    (entries : TransliterationMap) (cps : List ℕ)
    → All (λ (cp : ℕ). cp < code_points) cps
    → convert_utf8_to_ascii entries (each encode cps) ≡ each (ascii_of_cp entries) cps
unfolding convert_utf8_to_ascii convert_from
convert_utf8_to_ascii-encode entries cps h = from cps h
  where
    from :
        (cps : List ℕ)
        → All (λ (cp : ℕ). cp < code_points) cps
        → convert_from entries 0 (each encode cps) ≡ each (ascii_of_cp entries) cps
    from [] h = refl
    from (cp ∷ cps) h =
        convert-encode entries cp (each encode cps) h.0
        ∙ ap (λ (s : List ℕ). ascii_of_cp entries cp ++ s) (from cps h.1)
