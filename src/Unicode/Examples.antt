-- ===== src/Unicode/Examples.antt =====
-- A map with the letter Č, and names with it.
use net_mount.Base.{ℕ, ◌≡◌, refl, List, [], ◌∷◌, arith}
use net_mount.Unicode.{
  TransliterationMap, convert_utf8_to_ascii, load_transliteration_map, add_line, split_colon,
  clean_token, trim_start, trim_end, is_space, unquote, before_quote, utf8_to_codepoint, loaded,
  undefined_behavior,
}
use net_mount.Unicode.Utf8.{each, encode, ascii_of_cp, convert_utf8_to_ascii-encode}
use net_mount.Unicode.Ascii.{AreAscii, convert_utf8_to_ascii-AreAscii}

abbrev entries : TransliterationMap
entries = (268, b'C' ∷ []) ∷ []

-- The line `"Č": C`, in front of a comment.
abbrev line : List ℕ
line = b'"' ∷ 0xc4 ∷ 0x8c ∷ b'"' ∷ b':' ∷ b' ' ∷ b'C' ∷ []

load_test : load_transliteration_map (line ∷ (b'#' ∷ b'x' ∷ []) ∷ []) [] ≡ loaded entries
unfolding load_transliteration_map add_line split_colon clean_token trim_start trim_end is_space
    unquote before_quote utf8_to_codepoint
load_test = refl

no_colon_test : load_transliteration_map ((b'C' ∷ []) ∷ []) [] ≡ undefined_behavior
unfolding load_transliteration_map add_line split_colon
no_colon_test = refl

convert_utf8_to_ascii-encode_example :
    convert_utf8_to_ascii entries (each encode (b'a' ∷ 268 ∷ 0x1f600 ∷ []))
    ≡ each (ascii_of_cp entries) (b'a' ∷ 268 ∷ 0x1f600 ∷ [])
convert_utf8_to_ascii-encode_example =
    convert_utf8_to_ascii-encode entries (b'a' ∷ 268 ∷ 0x1f600 ∷ [])
      (omega arith, (omega arith, (omega arith, tt)))

convert_utf8_to_ascii-AreAscii_example : AreAscii (convert_utf8_to_ascii entries (0xff ∷ 0xc4 ∷ []))
convert_utf8_to_ascii-AreAscii_example =
    convert_utf8_to_ascii-AreAscii entries (0xff ∷ 0xc4 ∷ []) (omega arith, (omega arith, tt))
      ((omega arith, tt), tt)
