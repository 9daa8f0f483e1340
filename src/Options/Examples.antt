-- ===== src/Options/Examples.antt =====
-- The command line `--bind-port=99 c=/s,label=X,readonly=1`.
use net_mount.Base.{
  ℕ, ◌≡◌, refl, List, [], ◌∷◌, ◌+◌, ◌*◌, drop, some, replicate, codes, true, false, ◌-◌, get_or,
}
use net_mount.Bytes.{ascii_to_upper}
use net_mount.Os.{native}
use net_mount.Folder.{Share}
use net_mount.Search.{set_volume_label}
use net_mount.Folder.Sample.{share}
use net_mount.Shares.{
  Host, blank_share, get_token, token_from, parse_share_definition, parse_options, set_option,
  resolve_mode, resolve_modes, any_used,
}
use net_mount.Options.{
  Number, Settings, go, initial_settings, starts_with, out_of_range, parse_argument,
  parse_arguments, check_slip, start,
}
use net_mount.Options.Valid.{IsReady, start-IsReady}

abbrev host : Host
host = record {
  canonical = λ text. some (share.root, true);
  native_supported = λ p. true;
  extended_supported = λ p. true;
}

abbrev strtol : List ℕ → Number
strtol text = record {
  negative = false;
  size = (get_or text 0 0 - b'0') * 10 + (get_or text 1 0 - b'0');
  rest = drop 2 text;
}

abbrev command_line : List (List ℕ)
command_line = codes "--bind-port=99" ∷ codes "c=/s,label=X,readonly=1" ∷ []

abbrev drive_c : Share
drive_c = record blank_share {
  used = true;
  root = share.root;
  read_only = true;
  volume_label = set_volume_label (codes "X");
  attrs_mode = native;
}

abbrev settings : Settings
settings = record initial_settings {
  bind_port = 99;
  drives = blank_share ∷ blank_share ∷ drive_c ∷ replicate 23 blank_share;
}

started : start host strtol command_line ≡ go settings
unfolding start parse_arguments parse_argument starts_with out_of_range check_slip
    parse_share_definition parse_options set_option get_token token_from ascii_to_upper
    resolve_modes resolve_mode any_used
started = refl

start-IsReady_example : IsReady settings
start-IsReady_example = start-IsReady host strtol command_line settings started
