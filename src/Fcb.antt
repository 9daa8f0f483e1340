-- ===== src/Fcb.antt =====
-- netmount-server/fs.cpp, the names of DOS files: the comparison of `fcb_file_name`,
-- `match_fcb_name_to_mask`, `short_name_to_fcb`, `sanitize_short_name` and `file_name_to_83`.
-- A string is the list of its bytes. A set of names is the list of its elements, the last one that
-- was inserted first; two names are the same in it when their comparison says `equal`.
-- `file_name_to_83` starts from the name that the conversion to ASCII has given.
pub mod Legal
pub mod Distinct
pub mod Short
pub mod Unique
pub mod Enough
pub mod Parse
mod Examples
use net_mount.Base.{
  ℕ, zero, suc, ◌+◌, ◌-◌, ◌*◌, ◌/◌, ◌%◌, List, [], ◌∷◌, ◌++◌, Bool, true, false, ◌&&◌, ◌||◌, not,
  ltb, leb, ◌==◌, if◌then◌else◌, length, take, drop, replicate, get_or, Option, none, some,
}
use net_mount.Bytes.{ascii_to_upper}

-- The sizes of the two parts.
abbrev pub base_size : ℕ
base_size = 8

abbrev pub ext_size : ℕ
ext_size = 3

pub record FcbFileName : Type 0 where
  pub name_blank_padded : List ℕ
  pub ext_blank_padded : List ℕ

pub data Ordering : Type 0 where
  less equal greater : Ordering

-- `strncmp` on as many bytes as the lists have: a NUL ends both strings.
unfoldable pub strncmp : List ℕ → List ℕ → Ordering
strncmp [] ys = equal
strncmp (x ∷ xs) [] = equal
strncmp (x ∷ xs) (y ∷ ys) =
    let rest = strncmp xs ys in
    if ltb x y then less else if ltb y x then greater else if x == 0 then equal else rest

abbrev pub then_by : Ordering → Ordering → Ordering
then_by less next = less
then_by equal next = next
then_by greater next = greater

unfoldable pub fcb_compare : FcbFileName → FcbFileName → Ordering
fcb_compare lhs rhs =
    then_by (strncmp lhs.name_blank_padded rhs.name_blank_padded)
      (strncmp lhs.ext_blank_padded rhs.ext_blank_padded)

abbrev pub is_equal : Ordering → Bool
is_equal less = false
is_equal equal = true
is_equal greater = false

unfoldable pub fcb_eq : FcbFileName → FcbFileName → Bool
fcb_eq lhs rhs = is_equal (fcb_compare lhs rhs)

-- One of the two loops of `match_fcb_name_to_mask`; mask and name have the same size.
unfoldable pub match_part : List ℕ → List ℕ → Bool
match_part mask [] = true
match_part [] (c ∷ cs) = false
match_part (m ∷ ms) (c ∷ cs) =
    let rest = match_part ms cs in
    if not (ascii_to_upper c == ascii_to_upper m) && not (m == b'?') then false else rest

unfoldable pub match_fcb_name_to_mask : FcbFileName → FcbFileName → Bool
match_fcb_name_to_mask mask name =
    match_part mask.name_blank_padded name.name_blank_padded
    && match_part mask.ext_blank_padded name.ext_blank_padded

-- The first loop of `short_name_to_fcb`, which takes up to `k` dots: what it writes, and the rest.
unfoldable pub lead_dots : ℕ → List ℕ → List ℕ × List ℕ
lead_dots zero s = ([], s)
lead_dots (suc k) [] = ([], [])
lead_dots (suc k) (c ∷ cs) =
    let (dots, rest) = lead_dots k cs in if c == b'.' then (b'.' ∷ dots, rest) else ([], c ∷ cs)

-- The loops that copy up to `k` characters in front of a dot.
unfoldable pub take_part : ℕ → List ℕ → List ℕ × List ℕ
take_part zero s = ([], s)
take_part (suc k) [] = ([], [])
take_part (suc k) (c ∷ cs) =
    let (part, rest) = take_part k cs in
    if c == b'.' then ([], c ∷ cs) else (ascii_to_upper c ∷ part, rest)

-- Move to the dot and skip it.
unfoldable pub skip_dot : List ℕ → List ℕ
skip_dot [] = []
skip_dot (c ∷ cs) = let rest = skip_dot cs in if c == b'.' then cs else rest

abbrev pub space : ℕ
space = b' '

abbrev pub pad : ℕ → List ℕ → List ℕ
pad n part = part ++ replicate (n - length part) space

unfoldable pub short_name_to_fcb : List ℕ → FcbFileName
short_name_to_fcb s =
    let (dots, after_dots) = lead_dots 2 s in
    let (base, after_base) = take_part (base_size - length dots) after_dots in
    let (ext, after_ext) = take_part ext_size (skip_dot after_base) in
    record { name_blank_padded = pad base_size (dots ++ base); ext_blank_padded = pad ext_size ext }

abbrev pub elem : ℕ → List ℕ → Bool
elem x [] = false
elem x (y ∷ ys) = x == y || elem x ys

abbrev pub allowed_special : List ℕ
allowed_special =
    b'!' ∷ b'#' ∷ b'$' ∷ b'%' ∷ b'&' ∷ 39 ∷ b'(' ∷ b')' ∷ b'-' ∷ b'@' ∷ b'^' ∷ b'_' ∷ b'`' ∷ b'{'
    ∷ b'}' ∷ b'~' ∷ []

unfoldable pub is_allowed : ℕ → Bool
is_allowed c = leb b'A' c && leb c b'Z' || (leb b'0' c && leb c b'9' || elem c allowed_special)

-- `find_last_not_of(' ')`: nothing is `npos`.
unfoldable pub last_non_space : ℕ → List ℕ → Option ℕ
last_non_space idx [] = none
last_non_space idx (c ∷ cs) = elim (last_non_space (suc idx) cs) [
  | some i ↦ some i
  | none ↦ if c == b' ' then none else some idx
]

-- `idx < last_non_space_idx`, where `npos` is the greatest number.
abbrev pub before_last : ℕ → Option ℕ → Bool
before_last idx none = true
before_last idx (some i) = ltb idx i

-- The character that stands for the one at index `idx`.
unfoldable pub sanitize_char : Option ℕ → ℕ → ℕ → ℕ
sanitize_char last idx c =
    if is_allowed c
    then c
    else if leb b'a' c && leb c b'z'
    then c - b'a' + b'A'
    else if c == b' ' && before_last idx last
    then c
    else b'_'

-- The loop of `sanitize_short_name`; `room` is what is left of the buffer.
unfoldable pub sanitize_loop : Option ℕ → ℕ → ℕ → List ℕ → List ℕ × Bool
sanitize_loop last idx room [] = ([], false)
sanitize_loop last idx zero (c ∷ cs) = ([], true)
sanitize_loop last idx (suc room) (c ∷ cs) =
    let (out, shortened) = sanitize_loop last (suc idx) room cs in
    (sanitize_char last idx c ∷ out, shortened)

-- The buffer, the length, and whether the name was shortened.
unfoldable pub sanitize_short_name : List ℕ → ℕ → List ℕ × ℕ × Bool
sanitize_short_name s buf_size =
    let (out, shortened) = sanitize_loop (last_non_space 0 s) 0 buf_size s in
    (pad buf_size out, length out, shortened)

-- The parts before and behind the last dot.
unfoldable pub split_last_dot : List ℕ → Option (List ℕ × List ℕ)
split_last_dot [] = none
split_last_dot (c ∷ cs) = elim (split_last_dot cs) [
  | some (base, ext) ↦ some (c ∷ base, ext)
  | none ↦ if c == b'.' then some ([], cs) else none
]

abbrev pub base_and_ext : List ℕ → Option (List ℕ × List ℕ) → List ℕ × List ℕ
base_and_ext s none = (s, [])
base_and_ext s (some parts) = parts

unfoldable pub contains : List FcbFileName → FcbFileName → Bool
contains [] f = false
contains (g ∷ gs) f = fcb_eq f g || contains gs f

-- The digits that `std::to_chars` writes for a number of `k` digits.
unfoldable pub decimal : ℕ → ℕ → List ℕ
decimal zero n = []
decimal (suc k) n = decimal k (n / 10) ++ (b'0' + n % 10) ∷ []

unfoldable pub counter_len : ℕ → ℕ
counter_len counter =
    if ltb 999 counter then 4 else if ltb 99 counter then 3 else if ltb 9 counter then 2 else 1

-- Room for the number: where the `~` goes.
unfoldable pub fit_base : ℕ → ℕ → ℕ
fit_base base_len len =
    if ltb (base_size - 1) (base_len + len) then base_size - 1 - len else base_len

-- Bytes written into a buffer from `pos` on.
abbrev pub write_at : ℕ → List ℕ → List ℕ → List ℕ
write_at pos bytes buf = take pos buf ++ (bytes ++ drop (pos + length bytes) buf)

unfoldable pub with_suffix : ℕ → ℕ → List ℕ → List ℕ
with_suffix counter base_len name =
    write_at base_len (b'~' ∷ decimal (counter_len counter) counter) name

-- The loop over the suffix numbers, for `rounds` of them from `counter` on.
unfoldable pub add_suffix :
    ℕ → ℕ → ℕ → List ℕ → List ℕ → List FcbFileName → Option (FcbFileName × List FcbFileName)
add_suffix zero counter base_len name ext used = none
add_suffix (suc rounds) counter base_len name ext used =
    let len = fit_base base_len (counter_len counter) in
    let next = with_suffix counter len name in
    let fcb : FcbFileName = record { name_blank_padded = next; ext_blank_padded = ext } in
    elim (contains used fcb) [
      | false ↦ some (fcb, fcb ∷ used)
      | true ↦ add_suffix rounds (suc counter) len next ext used
    ]

-- The counter runs from 1 to 9998.
abbrev pub suffix_rounds : ℕ
suffix_rounds = 9998

-- The name and the new set, or nothing where the source returns false.
unfoldable pub file_name_to_83 : List ℕ → List FcbFileName → Option (FcbFileName × List FcbFileName)
file_name_to_83 long_name used =
    let (base, ext) = base_and_ext long_name (split_last_dot long_name) in
    let (name_padded, base_len, base_shortened) = sanitize_short_name base base_size in
    let (ext_padded, ext_len, ext_shortened) = sanitize_short_name ext ext_size in
    let fcb : FcbFileName = record {
      name_blank_padded = name_padded;
      ext_blank_padded = ext_padded;
    } in
    elim (not base_shortened && not ext_shortened && not (contains used fcb)) [
      | true ↦ some (fcb, fcb ∷ used)
      | false ↦ add_suffix suffix_rounds 1 base_len name_padded ext_padded used
    ]
