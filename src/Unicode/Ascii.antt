-- ===== src/Unicode/Ascii.antt =====
-- The result of the conversion is ASCII.
use net_mount.Base.{
  ℕ, zero, suc, ◌-◌, ◌<◌, ◌≡◌, List, [], ◌∷◌, ltb, length, ◌==◌, All, All-append, arith, Bool-cases,
  inl, inr,
}
use net_mount.Udp.Checksum.{AreBytes}
use net_mount.Unicode.{
  TransliterationMap, find, lead_len, is_combining_mark, or_underscore, transliterate, ascii_of,
  convert_from, convert_utf8_to_ascii,
}
use net_mount.Unicode.Lead.{mask_80}

abbrev pub AreAscii : List ℕ → Type 0
AreAscii = All (λ (c : ℕ). c < 128)

-- What the map gives is ASCII.
abbrev pub GivesAscii : TransliterationMap → Type 0
GivesAscii = All (λ (entry : ℕ × List ℕ). AreAscii entry.1)

find-AreAscii :
    (entries : TransliterationMap) (cp : ℕ)
    → GivesAscii entries
    → AreAscii (or_underscore (find cp entries))
find-AreAscii [] cp h = (omega arith, tt)
find-AreAscii ((key, value) ∷ entries) cp h = elim (Bool-cases (cp == key)) [
  | inl same ↦ rw same h.0
  | inr other ↦ rw other (find-AreAscii entries cp h.1)
]

transliterate-AreAscii :
    (entries : TransliterationMap) (cp : ℕ)
    → GivesAscii entries
    → AreAscii (transliterate entries cp)
unfolding transliterate
transliterate-AreAscii entries cp h = elim (Bool-cases (is_combining_mark cp)) [
  | inl mark ↦ rw mark tt
  | inr other ↦ rw other (find-AreAscii entries cp h)
]

lead_len_one : (c : ℕ) → c < 256 → lead_len c ≡ 1 → c < 128
unfolding lead_len
lead_len_one c lt e = ground (arith, mask_80 c, lt, e)

ascii_of-AreAscii :
    (entries : TransliterationMap) (c : ℕ) (cs : List ℕ)
    → c < 256
    → GivesAscii entries
    → AreAscii (ascii_of entries c cs)
unfolding ascii_of
ascii_of-AreAscii entries c cs lt h = elim (Bool-cases (lead_len c == 1)) [
  | inl one ↦ rw one (lead_len_one c lt (ground (arith, one)), tt)
  | inr more ↦ elim (Bool-cases (lead_len c == 0)) [
    | inl invalid ↦ rw (more, invalid) (omega arith, tt)
    | inr several ↦ rw (more, several) (transliterate-AreAscii entries _ h)
  ]
]

convert_from-AreAscii :
    (entries : TransliterationMap) (skip : ℕ) (s : List ℕ)
    → AreBytes s
    → GivesAscii entries
    → AreAscii (convert_from entries skip s)
unfolding convert_from
convert_from-AreAscii entries skip [] bytes h = tt
convert_from-AreAscii entries (suc skip) (c ∷ cs) bytes h =
    convert_from-AreAscii entries skip cs bytes.1 h
convert_from-AreAscii entries zero (c ∷ cs) bytes h =
    let ih = convert_from-AreAscii entries (lead_len c - 1) cs bytes.1 h in
    elim (Bool-cases (ltb (length (c ∷ cs)) (lead_len c))) [
      | inl cut ↦ rw cut tt
      | inr whole ↦ rw whole (
          All-append (λ (c : ℕ). c < 128) (ascii_of entries c cs) _
            (ascii_of-AreAscii entries c cs bytes.0 h) ih)
    ]

-- Whatever the bytes of a name are, valid UTF-8 or not: if the map gives ASCII only, its conversion is
-- ASCII.
pub convert_utf8_to_ascii-AreAscii :
    (entries : TransliterationMap) (s : List ℕ)
    → AreBytes s
    → GivesAscii entries
    → AreAscii (convert_utf8_to_ascii entries s)
unfolding convert_utf8_to_ascii
convert_utf8_to_ascii-AreAscii entries s bytes h = convert_from-AreAscii entries 0 s bytes h
