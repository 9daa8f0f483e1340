-- ===== src/Unicode.antt =====
-- netmount-server/unicode_to_ascii.cpp: the map from Unicode characters to ASCII, and the conversion of
-- names by it. A file is the list of its lines; the map is the list of its entries, the last one
-- that was inserted first. Reading through a null pointer or outside a line, which C++ leaves
-- undefined, is the outcome `undefined_behavior`. `convert_utf8_to_ascii` is what Folder.antt takes
-- as `to_ascii`, on systems other than Windows.
pub mod Lead
pub mod Utf8
pub mod Ascii
mod Examples
use net_mount.Base.{
  ℕ, zero, suc, ◌+◌, ◌-◌, ◌*◌, ◌^◌, List, [], ◌∷◌, ◌++◌, Bool, true, false, ◌&&◌, ◌||◌, not,
  if◌then◌else◌, ◌==◌, ltb, leb, length, take, bit_and, bit_or, Option, none, some,
}
use net_mount.Drive.{is_empty}

abbrev pub TransliterationMap : Type 0
TransliterationMap = List (ℕ × List ℕ)

abbrev pub find : ℕ → TransliterationMap → Option (List ℕ)
find cp [] = none
find cp ((key, value) ∷ entries) =
    let rest = find cp entries in if cp == key then some value else rest

unfoldable pub is_space : ℕ → Bool
is_space c = c == b' ' || (c == 9 || (c == 13 || c == 10))

unfoldable pub trim_start : List ℕ → List ℕ
trim_start [] = []
trim_start (c ∷ cs) = let rest = trim_start cs in if is_space c then rest else c ∷ cs

unfoldable pub trim_end : List ℕ → List ℕ
trim_end [] = []
trim_end (c ∷ cs) = let rest = trim_end cs in if is_space c && is_empty rest then [] else c ∷ rest

-- The characters in front of a quotation mark at the end, nothing where there is none.
unfoldable pub before_quote : List ℕ → Option (List ℕ)
before_quote [] = none
before_quote (c ∷ []) = if c == b'"' then some [] else none
before_quote (c ∷ d ∷ cs) = elim (before_quote (d ∷ cs)) [ none ↦ none | some s ↦ some (c ∷ s) ]

abbrev pub or_whole : List ℕ → Option (List ℕ) → List ℕ
or_whole token none = token
or_whole token (some inner) = inner

unfoldable pub unquote : List ℕ → List ℕ
unquote [] = []
unquote (c ∷ cs) = if c == b'"' then or_whole (c ∷ cs) (before_quote cs) else c ∷ cs

unfoldable pub clean_token : List ℕ → List ℕ
clean_token token = unquote (trim_end (trim_start token))

-- The number of bytes that the first byte of a character announces, 0 where it announces none.
unfoldable pub lead_len : ℕ → ℕ
lead_len c =
    if bit_and c 0x80 == 0
    then 1
    else if bit_and c 0xe0 == 0xc0
    then 2
    else if bit_and c 0xf0 == 0xe0
    then 3
    else if bit_and c 0xf8 == 0xf0
    then 4
    else 0

-- The value that the bytes of a character give together.
abbrev pub join_bits : ℕ → List ℕ → ℕ
join_bits high [] = high
join_bits high (b ∷ bs) = join_bits (bit_or (high * 2 ^ 6) (bit_and b 0x3f)) bs

-- The code point, and whether the bytes are a character.
unfoldable pub utf8_to_codepoint : List ℕ → ℕ × Bool
utf8_to_codepoint [] = (0xfffd, false)
utf8_to_codepoint (b ∷ []) = (b, true)
utf8_to_codepoint (b ∷ c ∷ bs) =
    if bit_and b 0xe0 == 0xc0
    then (join_bits (bit_and b 0x1f) (c ∷ []), true)
    else if bit_and b 0xf0 == 0xe0 && leb 3 (length (b ∷ c ∷ bs))
    then (join_bits (bit_and b 0x0f) (take 2 (c ∷ bs)), true)
    else if bit_and b 0xf8 == 0xf0 && leb 4 (length (b ∷ c ∷ bs))
    then (join_bits (bit_and b 0x07) (take 3 (c ∷ bs)), true)
    else (0xfffd, false)

abbrev pub within : ℕ → ℕ → ℕ → Bool
within low high cp = leb low cp && leb cp high

unfoldable pub is_combining_mark : ℕ → Bool
is_combining_mark cp =
    within 0x0300 0x036f cp
    || (within 0x1ab0 0x1aff cp
        || (within 0x1dc0 0x1dff cp || (within 0x20d0 0x20ff cp || within 0xfe20 0xfe2f cp)))

abbrev pub or_underscore : Option (List ℕ) → List ℕ
or_underscore none = b'_' ∷ []
or_underscore (some s) = s

-- What is appended for a character outside of ASCII.
unfoldable pub transliterate : TransliterationMap → ℕ → List ℕ
transliterate entries cp = if is_combining_mark cp then [] else or_underscore (find cp entries)

-- What is appended for the character that begins with the byte `c`.
unfoldable pub ascii_of : TransliterationMap → ℕ → List ℕ → List ℕ
ascii_of entries c cs =
    if lead_len c == 1
    then c ∷ []
    else if lead_len c == 0
    then b'_' ∷ []
    else transliterate entries ((utf8_to_codepoint (take (lead_len c) (c ∷ cs))).0)

-- The loop, with `skip` bytes of the last character still to pass over.
unfoldable pub convert_from : TransliterationMap → ℕ → List ℕ → List ℕ
convert_from entries skip [] = []
convert_from entries (suc skip) (c ∷ cs) = convert_from entries skip cs
convert_from entries zero (c ∷ cs) =
    let rest = convert_from entries (lead_len c - 1) cs in
    if ltb (length (c ∷ cs)) (lead_len c) then [] else ascii_of entries c cs ++ rest

unfoldable pub convert_utf8_to_ascii : TransliterationMap → List ℕ → List ℕ
convert_utf8_to_ascii entries input = convert_from entries 0 input

-- The Windows build: a name of 16-bit units.
abbrev pub is_pair : ℕ → ℕ → Bool
is_pair wc wc2 = within 0xd800 0xdbff wc && within 0xdc00 0xdfff wc2

unfoldable pub ascii_of_unit : TransliterationMap → ℕ → List ℕ
ascii_of_unit entries wc = if leb wc 0x7f then wc ∷ [] else transliterate entries wc

unfoldable pub convert_windows_unicode_to_ascii : TransliterationMap → List ℕ → List ℕ
convert_windows_unicode_to_ascii entries [] = []
convert_windows_unicode_to_ascii entries (wc ∷ []) = ascii_of_unit entries wc
convert_windows_unicode_to_ascii entries (wc ∷ wc2 ∷ rest) = elim (is_pair wc wc2) [
  | true ↦
      transliterate entries (bit_or ((wc - 0xd800) * 2 ^ 10) (wc2 - 0xdc00) + 0x10000)
      ++ convert_windows_unicode_to_ascii entries rest
  | false ↦ ascii_of_unit entries wc ++ convert_windows_unicode_to_ascii entries (wc2 ∷ rest)
]

pub data Loaded : Type 0 where
  undefined_behavior : Loaded
  loaded : TransliterationMap → Loaded

-- The parts of a line in front of its first colon and behind it.
unfoldable pub split_colon : List ℕ → Option (List ℕ × List ℕ)
split_colon [] = none
split_colon (c ∷ cs) =
    let rest = split_colon cs in
    if c == b':'
    then some ([], cs)
    else elim rest [ none ↦ none | some (key, value) ↦ some (c ∷ key, value) ]

-- `try_emplace`: an entry that is there stays.
abbrev pub emplace : ℕ → List ℕ → Option (List ℕ) → TransliterationMap → TransliterationMap
emplace cp value none entries = (cp, value) ∷ entries
emplace cp value (some old) entries = entries

-- A missing colon or key is only logged. A key without quotes is then a null view, of which the source
-- reads the first byte; an empty one in quotes is not.
abbrev pub add_entry : Option (List ℕ × List ℕ) → TransliterationMap → Loaded
add_entry none entries = undefined_behavior
add_entry (some (key, value)) entries =
    let token = clean_token key in
    let cp = (utf8_to_codepoint token).0 in
    if is_empty (trim_start key)
    then undefined_behavior
    else loaded (emplace cp (clean_token value) (find cp entries) entries)

abbrev pub is_comment : List ℕ → Bool
is_comment [] = true
is_comment (c ∷ cs) = c == b'#'

abbrev pub then_load : Loaded → (TransliterationMap → Loaded) → Loaded
then_load undefined_behavior next = undefined_behavior
then_load (loaded entries) next = next entries

unfoldable pub add_line : List ℕ → TransliterationMap → Loaded
add_line line entries =
    if is_comment line then loaded entries else add_entry (split_colon line) entries

unfoldable pub load_transliteration_map : List (List ℕ) → TransliterationMap → Loaded
load_transliteration_map [] entries = loaded entries
load_transliteration_map (line ∷ lines) entries =
    then_load (add_line line entries) (λ more. load_transliteration_map lines more)
