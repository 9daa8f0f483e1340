-- ===== src/Shares/Examples.antt =====
-- The share `c=/s,label=X,readonly=1`.
use net_mount.Base.{
  ℕ, ◌≡◌, ◌≤◌, refl, List, ◌∷◌, ◌++◌, replicate, get_or, drop, codes, true, false, some, arith, ◌-◌,
}
use net_mount.Bytes.{ascii_to_upper}
use net_mount.Search.{set_volume_label}
use net_mount.Folder.{Share}
use net_mount.Folder.Sample.{share}
use net_mount.Shares.{
  Host, parsed, blank_share, get_token, token_from, parse_share_definition, parse_options,
  set_option,
}
use net_mount.Shares.Rounds.{parse_options_enough}
use net_mount.Shares.Tokens.{escape_token, get_token-escape_token}
use net_mount.Shares.Parsing.{Defines, parse_share_definition-Defines}

abbrev host : Host
host = record {
  canonical = λ text. some (share.root, true);
  native_supported = λ p. true;
  extended_supported = λ p. true;
}

abbrev definition_text : List ℕ
definition_text = codes "c=/s,label=X,readonly=1"

abbrev blank_drives : List Share
blank_drives = replicate 26 blank_share

abbrev drive_c : Share
drive_c = record blank_share {
  used = true;
  root = share.root;
  read_only = true;
  volume_label = set_volume_label (codes "X");
}

abbrev defined : List Share
defined = blank_share ∷ blank_share ∷ drive_c ∷ replicate 23 blank_share

parse_test : parse_share_definition host definition_text blank_drives ≡ parsed defined
unfolding parse_share_definition parse_options set_option get_token token_from ascii_to_upper
parse_test = refl

parse_share_definition-Defines_example :
    (b'C' ≤ ascii_to_upper (get_or definition_text 0 0))
    × (ascii_to_upper (get_or definition_text 0 0) ≤ b'Z')
    × Defines host
        (drop 2 definition_text)
        (ascii_to_upper (get_or definition_text 0 0) - b'A')
        blank_drives
        defined
parse_share_definition-Defines_example =
    parse_share_definition-Defines host definition_text blank_drives defined parse_test

get_token-escape_token_example :
    get_token b',' (escape_token b',' (codes "a,b") ++ b',' ∷ codes "x")
    ≡ (codes "a,b", b',' ∷ codes "x")
get_token-escape_token_example = get_token-escape_token b',' (codes "a,b") (codes "x") (omega arith)

parse_options_enough_example :
    parse_options 11 host (codes ",readonly=1") (blank_share, false)
    ≡ parse_options 99 host (codes ",readonly=1") (blank_share, false)
parse_options_enough_example =
    parse_options_enough host 11 99 (codes ",readonly=1") (blank_share, false) (omega arith)
      (omega arith)
