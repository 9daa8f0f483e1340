-- ===== src/Options.antt =====
-- netmount-server/netmount-server.cpp, the command line in `main`: its arguments one after the other,
-- and the tests behind them up to the choice of the modes. The C library's `strtol`, for base 10, is
-- the argument `strtol`; what the system says of paths is the argument `host`.
pub mod Valid
mod Examples
use net_mount.Base.{
  ℕ, List, [], ◌∷◌, Bool, true, false, not, ◌&&◌, ◌||◌, if◌then◌else◌, ◌==◌, ltb, drop, length,
  get_or, bytes_eq, codes, replicate, Option, none, some,
}
use net_mount.Drive.{is_empty}
use net_mount.Folder.{Share}
use net_mount.Shares.{
  Host, Parsed, refused, failed, parsed, blank_share, parse_share_definition, resolve_modes,
}

-- What `strtol` reads: the sign and the size of the number, and the text behind it.
pub record Number : Type 0 where
  pub negative : Bool
  pub size : ℕ
  pub rest : List ℕ

-- The level is stored as on the command line, one more than the value of LogLevel.
pub record Settings : Type 0 where
  pub bind_addr : List ℕ
  pub bind_port : ℕ
  pub slip_dev : List ℕ
  pub slip_speed : ℕ
  pub slip_hw_flow_control : Bool
  pub transliteration_map_path : List ℕ
  pub log_level : ℕ
  pub drives : List Share

-- The values 0, -1 and 1 that `main` returns.
pub data Exit : Type 0 where
  help_shown invalid unresolved : Exit

pub data Startup : Type 0 where
  stop : Exit → Startup
  go : Settings → Startup

abbrev pub then_go : Startup → (Settings → Startup) → Startup
then_go (stop e) next = stop e
then_go (go s) next = next s

abbrev pub initial_settings : Settings
initial_settings = record {
  bind_addr = [];
  bind_port = 12200;
  slip_dev = [];
  slip_speed = 0;
  slip_hw_flow_control = false;
  transliteration_map_path = codes "netmount-u2a.map";
  log_level = 3;
  drives = replicate 26 blank_share;
}

unfoldable pub starts_with : List ℕ → List ℕ → Bool
starts_with text [] = true
starts_with [] (p ∷ ps) = false
starts_with (c ∷ cs) (p ∷ ps) = c == p && starts_with cs ps

unfoldable pub out_of_range : ℕ → ℕ → Number → Bool
out_of_range low high n = n.negative || ltb n.size low || ltb high n.size || not (is_empty n.rest)

unfoldable pub flow_control : List ℕ → Settings → Startup
flow_control arg s =
    let flag = get_or arg 15 0 in
    if not (flag == b'1') && not (flag == b'0')
    then stop invalid
    else go (record s { slip_hw_flow_control = flag == b'1' })

abbrev pub put_drives : Settings → Parsed (List Share) → Startup
put_drives s refused = stop invalid
put_drives s failed = stop unresolved
put_drives s (parsed drives) = go (record s { drives = drives })

unfoldable pub check_slip : Settings → Startup
check_slip s =
    if is_empty s.slip_dev
    then go s
    else if s.slip_speed == 0
    then stop invalid
    else if not (is_empty s.bind_addr)
    then stop invalid
    else go s

abbrev pub put_modes : Settings → Option (List Share) → Startup
put_modes s none = stop invalid
put_modes s (some drives) = go (record s { drives = drives })

module _ (host : Host) (strtol : List ℕ → Number) where
  unfoldable pub parse_argument : List ℕ → Settings → Startup
  parse_argument arg s =
      if ltb (length arg) 3
      then stop invalid
      else if bytes_eq arg (codes "--help")
      then stop help_shown
      else if starts_with arg (codes "--bind-addr=")
      then go (record s { bind_addr = drop 12 arg })
      else if starts_with arg (codes "--bind-port=")
      then (if out_of_range 1 0xffff (strtol (drop 12 arg))
          then stop invalid
          else go (record s { bind_port = (strtol (drop 12 arg)).size }))
      else if starts_with arg (codes "--slip-dev=")
      then go (record s { slip_dev = drop 11 arg })
      else if starts_with arg (codes "--slip-speed=")
      then (if out_of_range 1200 230400 (strtol (drop 13 arg))
          then stop invalid
          else go (record s { slip_speed = (strtol (drop 13 arg)).size }))
      else if starts_with arg (codes "--slip-rts-cts=")
      then flow_control arg s
      else if starts_with arg (codes "--log-level=")
      then (if out_of_range 0 7 (strtol (drop 12 arg))
          then stop invalid
          else go (record s { log_level = (strtol (drop 12 arg)).size }))
      else if starts_with arg (codes "--translit-map-path=")
      then go (record s { transliteration_map_path = drop 20 arg })
      else if get_or arg 1 0 == b'='
      then put_drives s (parse_share_definition host arg s.drives)
      else stop invalid

  unfoldable pub parse_arguments : List (List ℕ) → Settings → Startup
  parse_arguments [] s = go s
  parse_arguments (arg ∷ args) s = then_go (parse_argument arg s) (parse_arguments args)

  -- All of `main` before the socket or the serial port is opened.
  unfoldable pub start : List (List ℕ) → Startup
  start args =
      then_go (then_go (parse_arguments args initial_settings) check_slip)
        (λ s. put_modes s (resolve_modes host s.drives))
