-- ===== src/Options/Valid.antt =====
-- What holds of the settings when the server starts to serve.
use net_mount.Base.{
  ℕ, zero, suc, ◌≤◌, ◌≡◌, ◌∙◌, ◌≢◌, ◌⊎◌, refl, ap, subst, List, [], ◌∷◌, Bool, true, false, ◌==◌,
  if◌then◌else◌, arith, map, get_elem?, Bool-cases, inl, inr, some,
}
use net_mount.Drive.{is_empty}
use net_mount.Os.{AttrsMode, auto, ignore, native, in_extended}
use net_mount.Folder.{Share}
use net_mount.Shares.{
  Host, Parsed, refused, failed, parsed, blank_share, parse_share_definition, resolve_mode,
  resolve_modes, any_used,
}
use net_mount.Shares.Parsing.{parse_share_definition-Defines}
use net_mount.Options.{
  Number, Settings, Startup, stop, go, invalid, unresolved, Exit, then_go, initial_settings,
  out_of_range, flow_control, put_drives, parse_argument, parse_arguments, check_slip, put_modes,
  start,
}

unfoldable Satisfies : (Settings → Type 0) → Startup → Type 0
Satisfies P (stop e) = Unit
Satisfies P (go s) = P s

module _ (P : Settings → Type 0) where
  if-Satisfies :
      (b : Bool) (x y : Startup) → Satisfies P x → Satisfies P y → Satisfies P (if b then x else y)
  if-Satisfies true x y h g = h
  if-Satisfies false x y h g = g

  stopped : (e : Exit) → Satisfies P (stop e)
  unfolding Satisfies
  stopped e = tt

  going : (s : Settings) → P s → Satisfies P (go s)
  unfolding Satisfies
  going s h = h

  then_go-Satisfies :
      (Q : Settings → Type 0) (x : Startup) (next : Settings → Startup)
      → Satisfies Q x
      → ((s : Settings) → Q s → Satisfies P (next s))
      → Satisfies P (then_go x next)
  unfolding Satisfies
  then_go-Satisfies Q (stop e) next h k = tt
  then_go-Satisfies Q (go s) next h k = k s h

  -- A number that is used only where it is in range.
  out_of_range-Satisfies :
      (low high : ℕ) (n : Number) (s : Settings)
      → (low ≤ n.size → n.size ≤ high → P s)
      → Satisfies P (if out_of_range low high n then stop invalid else go s)
  unfolding out_of_range
  out_of_range-Satisfies low high n s h = elim (Bool-cases (out_of_range low high n)) [
    | inl out ↦ rw out (stopped invalid)
    | inr within ↦ rw within (going s (h (ground (arith, within)) (ground (arith, within))))
  ]

-- What each argument keeps: the numbers are in their ranges (no speed is 0), A and B are not shared.
abbrev PortFits : ℕ → Type 0
PortFits port = (1 ≤ port) × (port ≤ 0xffff)

abbrev SpeedFits : ℕ → Type 0
SpeedFits speed = (1200 ≤ speed) × (speed ≤ 230400)

abbrev AreFree : List Share → Type 0
AreFree drives = (get_elem? drives 0 ≡ some blank_share) × (get_elem? drives 1 ≡ some blank_share)

abbrev IsInRange : Settings → Type 0
IsInRange s =
    PortFits s.bind_port
    × ((s.slip_speed ≡ 0) ⊎ SpeedFits s.slip_speed)
    × (s.log_level ≤ 7)
    × AreFree s.drives

module _ (host : Host) (strtol : List ℕ → Number) where
  put_drives-IsInRange :
      (arg : List ℕ) (s : Settings)
      → IsInRange s
      → Satisfies IsInRange (put_drives s (parse_share_definition host arg s.drives))
  put_drives-IsInRange arg s h = by_cases _ refl
    where
      by_cases :
          (p : Parsed (List Share))
          → parse_share_definition host arg s.drives ≡ p
          → Satisfies IsInRange (put_drives s p)
      by_cases refused e = stopped IsInRange invalid
      by_cases failed e = stopped IsInRange unresolved
      by_cases (parsed drives) e =
          let (low, high, (free, root, share, at, unused, known, now, used, rooted, others)) =
            parse_share_definition-Defines host arg s.drives drives e in
          let (port, speed, level, (a, b)) = h in
          going IsInRange _ (
            port,
            speed,
            level,
            (others 0 (ground (arith, low)) ∙ a, others 1 (ground (arith, low)) ∙ b),
          )

  parse_argument-IsInRange :
      (arg : List ℕ) (s : Settings)
      → IsInRange s
      → Satisfies IsInRange (parse_argument host strtol arg s)
  unfolding parse_argument flow_control
  parse_argument-IsInRange arg s h =
      let (port, speed, level, free) = h in
      search (if-Satisfies, out_of_range-Satisfies, put_drives-IsInRange, stopped, going, inr_speed)
        depth 30
    where
      inr_speed : (n : ℕ) → 1200 ≤ n → n ≤ 230400 → (n ≡ 0) ⊎ SpeedFits n
      inr_speed n low high = inr (low, high)

  parse_arguments-IsInRange :
      (args : List (List ℕ)) (s : Settings)
      → IsInRange s
      → Satisfies IsInRange (parse_arguments host strtol args s)
  unfolding parse_arguments
  parse_arguments-IsInRange [] s h = going IsInRange s h
  parse_arguments-IsInRange (arg ∷ args) s h =
      then_go-Satisfies IsInRange IsInRange _ _ (parse_argument-IsInRange arg s h)
        (λ t g. parse_arguments-IsInRange args t g)

-- With a serial line, its speed is known and there is no address to bind to.
abbrev SlipFits : Settings → Type 0
SlipFits s =
    (s.slip_dev ≢ []) → (1200 ≤ s.slip_speed) × (s.slip_speed ≤ 230400) × (s.bind_addr ≡ [])

check_slip-Fits :
    (s : Settings) → IsInRange s → Satisfies (λ t. IsInRange t × SlipFits t) (check_slip s)
unfolding check_slip
check_slip-Fits s h = elim (Bool-cases (is_empty s.slip_dev)) [
  | inl off ↦
      rw off (
        going (λ t. IsInRange t × SlipFits t) s
          (h, λ ne. absurd (ne (is_empty-nil s.slip_dev off))))
  | inr on ↦ rw on (elim (Bool-cases (s.slip_speed == 0)) [
    | inl none_given ↦ rw none_given (stopped _ invalid)
    | inr given ↦ rw given (elim (Bool-cases (is_empty s.bind_addr)) [
      | inl free ↦ rw free (
          going (λ t. IsInRange t × SlipFits t) s
            (
              h,
              λ ne. (
                ground (arith, h.1, given),
                ground (arith, h.1, given),
                is_empty-nil s.bind_addr free,
              ),
            ))
      | inr bound ↦ rw bound (stopped _ invalid)
    ])
  ])
]
  where
    is_empty-nil : (p : List ℕ) → is_empty p ≡ true → p ≡ []
    is_empty-nil [] e = refl
    is_empty-nil (x ∷ xs) e = absurd (ground (arith, e))

-- Every shared drive has a mode other than AUTO.
abbrev AreResolved : List Share → Type 0
AreResolved drives =
    (k : ℕ) (d : Share) → get_elem? drives k ≡ some d → d.used ≡ true → d.attrs_mode ≢ auto

module _ (host : Host) where
  resolve_mode-IsResolved :
      (d : Share) (mode : AttrsMode)
      → d.attrs_mode ≡ mode
      → (resolve_mode host d).used ≡ true
      → (resolve_mode host d).attrs_mode ≢ auto
  unfolding resolve_mode
  resolve_mode-IsResolved d ignore e = rw e (λ u p. ground (arith, p, e))
  resolve_mode-IsResolved d native e = rw e (λ u p. ground (arith, p, e))
  resolve_mode-IsResolved d in_extended e = rw e (λ u p. ground (arith, p, e))
  resolve_mode-IsResolved d auto e = rw e (λ u p. ground (arith, p, u))

  resolve_mode_free : (resolve_mode host blank_share) ≡ blank_share
  unfolding resolve_mode
  resolve_mode_free = refl

  map-AreResolved : (drives : List Share) → AreResolved (map (resolve_mode host) drives)
  map-AreResolved [] k d h = absurd (ground (arith, h))
  map-AreResolved (b ∷ bs) zero d h =
      let same : resolve_mode host b ≡ d = ground (arith, h) in
      subst (λ (x : Share). x.used ≡ true → x.attrs_mode ≢ auto) same
        (resolve_mode-IsResolved b b.attrs_mode refl)
  map-AreResolved (b ∷ bs) (suc k) d h = map-AreResolved bs k d h

  resolved-free :
      (drives : List Share) (k : ℕ)
      → get_elem? drives k ≡ some blank_share
      → get_elem? (map (resolve_mode host) drives) k ≡ some blank_share
  resolved-free [] k h = h
  resolved-free (b ∷ bs) zero h =
      let same : b ≡ blank_share = ground (arith, h) in
      ap some (ap (resolve_mode host) same ∙ resolve_mode_free)
  resolved-free (b ∷ bs) (suc k) h = resolved-free bs k h

-- The settings that the server starts to serve with.
pub record IsReady (s : Settings) : Type 0 where
  port_positive : 1 ≤ s.bind_port
  port_bounded : s.bind_port ≤ 0xffff
  level_bounded : s.log_level ≤ 7
  slip : SlipFits s
  drive_a : get_elem? s.drives 0 ≡ some blank_share
  drive_b : get_elem? s.drives 1 ≡ some blank_share
  resolved : AreResolved s.drives

module _ (host : Host) (strtol : List ℕ → Number) where
  put_modes-IsReady :
      (s : Settings)
      → IsInRange s × SlipFits s
      → Satisfies IsReady (put_modes s (resolve_modes host s.drives))
  unfolding resolve_modes
  put_modes-IsReady s ((port, speed, level, (a, b)), slip) = elim (Bool-cases (any_used s.drives)) [
    | inl shared ↦ rw shared (
        going IsReady _ record {
          port_positive = port.0;
          port_bounded = port.1;
          level_bounded = level;
          slip = slip;
          drive_a = resolved-free host s.drives 0 a;
          drive_b = resolved-free host s.drives 1 b;
          resolved = map-AreResolved host s.drives;
        })
    | inr unshared ↦ rw unshared (stopped IsReady invalid)
  ]

  start-Satisfies : (args : List (List ℕ)) → Satisfies IsReady (start host strtol args)
  unfolding start
  start-Satisfies args =
      then_go-Satisfies IsReady _ _ _
        (then_go-Satisfies _ IsInRange _ _
          (parse_arguments-IsInRange host strtol args initial_settings
            ((omega arith, omega arith), inl refl, omega arith, (refl, refl)))
          check_slip-Fits)
        put_modes-IsReady

  -- Whatever the command line: where the server comes to serve, its port is in 1 - 65535, its log
  -- level at most 7, with a serial line the speed is in 1200 - 230400 and there is no address to bind
  -- to, the drives A and B are not shared, and no shared drive has the mode AUTO.
  pub start-IsReady :
      (args : List (List ℕ)) (s : Settings) → start host strtol args ≡ go s → IsReady s
  unfolding Satisfies
  start-IsReady args s h = subst (Satisfies IsReady) h (start-Satisfies args)
