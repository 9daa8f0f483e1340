-- ===== src/Shares.antt =====
-- netmount-server/netmount-server.cpp, the definitions of shares on the command line: `get_token`,
-- `string_ascii_to_upper`, `parse_share_definition`, and how `main` chooses the mode of the attributes.
-- A place in the text is the text from there on. What the system says of a path is the argument
-- `host`. The build has both ways to store DOS attributes, as on Linux.
pub mod Tokens
pub mod Parsing
pub mod Rounds
mod Examples
use net_mount.Base.{
  ℕ, zero, suc, ◌-◌, List, [], ◌∷◌, Bool, true, false, not, ◌&&◌, ◌||◌, if◌then◌else◌, ◌==◌, ltb,
  length, drop, set, get_or, get_elem?, bytes_eq, map, codes, Option, none, some,
}
use net_mount.Bytes.{ascii_to_upper}
use net_mount.Drive.{FsPath, is_empty}
use net_mount.Os.{AttrsMode, auto, ignore, native, in_extended}
use net_mount.Folder.{Share, FileNameConversion, off, ram}
use net_mount.Search.{set_volume_label}

-- The loop of `get_token`: the token, and the text from the delimiter on.
unfoldable pub token_from : Bool → ℕ → List ℕ → List ℕ × List ℕ
token_from escape delimiter [] = ([], [])
token_from escape delimiter (ch ∷ rest) =
    let next = token_from (not escape && ch == b'\\') delimiter rest in
    if escape
    then (ch ∷ next.0, next.1)
    else if ch == b'\\'
    then next
    else if ch == delimiter
    then ([], ch ∷ rest)
    else (ch ∷ next.0, next.1)

unfoldable pub get_token : ℕ → List ℕ → List ℕ × List ℕ
get_token delimiter input = token_from false delimiter input

unfoldable pub string_ascii_to_upper : List ℕ → List ℕ
string_ascii_to_upper = map ascii_to_upper

-- What the system says: the canonical path of a text, if it has one, and whether it is a directory;
-- and the ways to store attributes there.
pub record Host : Type 0 where
  pub canonical : List ℕ → Option (FsPath × Bool)
  pub native_supported : FsPath → Bool
  pub extended_supported : FsPath → Bool

-- The value -1, the value 1, or 0 with what has been set.
pub data Parsed (A : Type 0) : Type 0 where
  refused failed : Parsed A
  parsed : A → Parsed A

abbrev pub then_parse : {A B : Type 0} → Parsed A → (A → Parsed B) → Parsed B
then_parse refused next = refused
then_parse failed next = failed
then_parse (parsed a) next = next a

-- The settings of a drive before the command line is read.
abbrev pub blank_share : Share
blank_share = record {
  used = false;
  root = [];
  read_only = false;
  use_client_timestamp = true;
  volume_label = none;
  attrs_mode = auto;
  name_conversion = ram;
}

abbrev pub set_mode : AttrsMode → Share → Share
set_mode mode share = record share { attrs_mode = mode }

unfoldable pub set_attrs_option : Host → List ℕ → Share → Parsed Share
set_attrs_option host value share =
    let upper_value = string_ascii_to_upper value in
    if bytes_eq upper_value (codes "AUTO")
    then parsed (set_mode auto share)
    else if bytes_eq upper_value (codes "IGNORE")
    then parsed (set_mode ignore share)
    else if bytes_eq upper_value (codes "NATIVE")
    then (if host.native_supported share.root then parsed (set_mode native share) else refused)
    else if bytes_eq upper_value (codes "EXTENDED")
    then (if host.extended_supported share.root
        then parsed (set_mode in_extended share)
        else refused)
    else refused

unfoldable pub set_conversion_option : List ℕ → Share → Parsed Share
set_conversion_option value share =
    let upper_value = string_ascii_to_upper value in
    if bytes_eq upper_value (codes "OFF")
    then parsed (record share { name_conversion = off })
    else if bytes_eq upper_value (codes "RAM")
    then parsed (record share { name_conversion = ram })
    else refused

-- The values `0` and `1`.
abbrev pub switch : List ℕ → (Bool → Share) → Parsed Share
switch value put =
    if bytes_eq value (codes "0")
    then parsed (put false)
    else if bytes_eq value (codes "1")
    then parsed (put true)
    else refused

abbrev pub set_label : List ℕ → Share → Share
set_label [] share = share
set_label (c ∷ cs) share = record share { volume_label = set_volume_label (c ∷ cs) }

abbrev pub is_label : List ℕ → Bool
is_label option = bytes_eq option (codes "label")

unfoldable pub set_option : Host → List ℕ → List ℕ → Share → Parsed Share
set_option host option value share =
    if bytes_eq option (codes "attrs")
    then set_attrs_option host value share
    else if is_label option
    then parsed (set_label value share)
    else if bytes_eq option (codes "name_conversion")
    then set_conversion_option value share
    else if bytes_eq option (codes "readonly")
    then switch value (λ on. record share { read_only = on })
    else if bytes_eq option (codes "client_timestamp")
    then switch value (λ on. record share { use_client_timestamp = on })
    else refused

-- The loop over the options, at the end of the token before. The flag says whether a label has been
-- given. Each round takes at least one character, so the length of the text is enough fuel.
unfoldable pub parse_options : ℕ → Host → List ℕ → Share × Bool → Parsed (Share × Bool)
parse_options zero host rest state = parsed state
parse_options (suc fuel) host rest (share, labelled) =
    let (option, at_value) = get_token b'=' (drop 1 rest) in
    let (value, at_end) = get_token b',' (drop 1 at_value) in
    if is_empty (drop 1 rest)
    then parsed (share, labelled)
    else then_parse (set_option host option value share)
        (λ next. parse_options fuel host at_end (next, labelled || is_label option))

abbrev pub default_volume_label : List ℕ
default_volume_label = codes "NETMOUNT"

abbrev pub with_label : Share × Bool → Share
with_label (share, true) = share
with_label (share, false) = set_label default_volume_label share

-- The settings of a drive that is free, by the text behind its letter and the equals sign.
abbrev pub parse_root : Host → List ℕ → Share → Option (FsPath × Bool) → Parsed Share
parse_root host rest share none = failed
parse_root host rest share (some (root, false)) = failed
parse_root host rest share (some (root, true)) =
    then_parse
      (parse_options (length rest) host rest (record share { used = true; root = root }, false))
      (λ s. parsed (with_label s))

abbrev pub define_drive : Host → List ℕ → List Share → ℕ → Option Share → Parsed (List Share)
define_drive host text shares n none = refused
define_drive host text shares n (some share) =
    let (root, rest) = get_token b',' text in
    if share.used
    then refused
    else then_parse (parse_root host rest share (host.canonical root))
        (λ next. parsed (set shares n next))

-- Drives A to Z have the indices 0 to 25.
unfoldable pub parse_share_definition : Host → List ℕ → List Share → Parsed (List Share)
parse_share_definition host text shares =
    let drive_char = ascii_to_upper (get_or text 0 0) in
    let n = drive_char - b'A' in
    if ltb drive_char b'C' || ltb b'Z' drive_char
    then refused
    else define_drive host (drop 2 text) shares n (get_elem? shares n)

-- After the command line: the mode AUTO becomes the best one that the system supports.
unfoldable pub resolve_mode : Host → Share → Share
resolve_mode host share = elim share.attrs_mode [
  | auto ↦
      if not share.used
      then share
      else if host.native_supported share.root
      then set_mode native share
      else if host.extended_supported share.root
      then set_mode in_extended share
      else set_mode ignore share
  | ignore ↦ share
  | native ↦ share
  | in_extended ↦ share
]

-- Nothing where no drive is shared.
unfoldable pub any_used : List Share → Bool
any_used [] = false
any_used (share ∷ shares) = share.used || any_used shares

unfoldable pub resolve_modes : Host → List Share → Option (List Share)
resolve_modes host shares = if any_used shares then some (map (resolve_mode host) shares) else none
