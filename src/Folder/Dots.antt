-- ===== src/Folder/Dots.antt =====
-- Parts of three dots or more, in the check of a client's path and where the path is looked up.
use net_mount.Base.{
  ℕ, zero, suc, ◌≡◌, refl, ap, sym, ◌∙◌, List, [], ◌∷◌, ◌++◌, Bool, replicate, Option, some, none,
  arith,
}
use net_mount.Fcb.{FcbFileName, short_name_to_fcb, lead_dots, take_part, skip_dot}
use net_mount.Drive.{FsPath, check_path_depth}
use net_mount.Drive.Depth as Depth
use net_mount.Drive.Depth.{walk_one, then_walk, depth_of, check_path_depth-walk}
use net_mount.Exec.{Exec, ok, proceed, ◌>>=◌}
use net_mount.Os.{Os}
use net_mount.Folder.{Share, State, walk, next_part, get_server_name, handle_of}

-- Three dots or more.
abbrev pub dots : ℕ → List ℕ
dots k = b'.' ∷ b'.' ∷ b'.' ∷ replicate k b'.'

abbrev pub dot_dot : List ℕ
dot_dot = b'.' ∷ b'.' ∷ []

-- They have the short name of `..`.
short_name_to_fcb-dots : (k : ℕ) → short_name_to_fcb (dots k) ≡ short_name_to_fcb dot_dot
unfolding short_name_to_fcb lead_dots take_part skip_dot
short_name_to_fcb-dots zero = refl
short_name_to_fcb-dots (suc k) = refl

walk-append :
    (place xs ys : FsPath)
    → Depth.walk place (xs ++ ys) ≡ then_walk (Depth.walk place xs) (λ here. Depth.walk here ys)
walk-append place [] ys = refl
walk-append place (x ∷ xs) ys = by_step (walk_one place x) (λ here. walk-append here xs ys)
  where
    by_step :
        (one : Option FsPath)
        → ((here : FsPath)
            → Depth.walk here (xs ++ ys)
              ≡ then_walk (Depth.walk here xs) (λ there. Depth.walk there ys))
        → then_walk one (λ here. Depth.walk here (xs ++ ys))
          ≡ then_walk (then_walk one (λ here. Depth.walk here xs)) (λ there. Depth.walk there ys)
    by_step none rest = refl
    by_step (some here) rest = rest here

-- The check counts them as a name.
check_path_depth-dots :
    (xs : FsPath) (k d : ℕ)
    → check_path_depth xs ≡ some d
    → check_path_depth (xs ++ dots k ∷ []) ≡ some (suc d)
check_path_depth-dots xs k d h =
    check_path_depth-walk (xs ++ dots k ∷ [])
    ∙ ap depth_of (walk-append [] xs (dots k ∷ []))
    ∙ one_more (Depth.walk [] xs) (sym (check_path_depth-walk xs) ∙ h)
  where
    one_more :
        (w : Option FsPath)
        → depth_of w ≡ some d
        → depth_of (then_walk w (λ here. Depth.walk here (dots k ∷ []))) ≡ some (suc d)
    one_more none e = absurd (ground (arith, e))
    one_more (some here) e = ap (λ (n : ℕ). some (suc n)) (ground (arith, e))

-- The depth one level up, and -1 out of the root.
abbrev pub above : ℕ → Option ℕ
above zero = none
above (suc d) = some d

check_path_depth-up :
    (xs : FsPath) (d : ℕ)
    → check_path_depth xs ≡ some d
    → check_path_depth (xs ++ dot_dot ∷ []) ≡ above d
check_path_depth-up xs d h =
    check_path_depth-walk (xs ++ dot_dot ∷ [])
    ∙ ap depth_of (walk-append [] xs (dot_dot ∷ []))
    ∙ one_less (Depth.walk [] xs) d (sym (check_path_depth-walk xs) ∙ h)
  where
    one_less :
        (w : Option FsPath) (d : ℕ)
        → depth_of w ≡ some d
        → depth_of (then_walk w (λ here. Depth.walk here (dot_dot ∷ []))) ≡ above d
    one_less none d e = absurd (ground (arith, e))
    one_less (some []) zero e = refl
    one_less (some []) (suc d) e = absurd (ground (arith, e))
    one_less (some (x ∷ here)) zero e = absurd (ground (arith, e))
    one_less (some (x ∷ here)) (suc d) e = ground (arith, e)

module _ {W : Type 0} (os : Os W) (share : Share) (to_ascii : List ℕ → List ℕ) where
  -- Looking up one part in the directory `server_path`, which takes its short name.
  abbrev look_up_short : Bool → FsPath → FcbFileName → Exec (State W) FsPath
  look_up_short again server_path fcb =
      handle_of os server_path >>= λ handle. get_server_name os share to_ascii handle fcb again

  abbrev pub look_up : Bool → FsPath → List ℕ → Exec (State W) FsPath
  look_up again server_path part = look_up_short again server_path (short_name_to_fcb part)

  next_part-named :
      (p : FsPath) (x y n : List ℕ) (name rest : FsPath)
      (go_on : FsPath → Exec (State W) (FsPath × Bool))
      → next_part os share to_ascii p x (n ∷ name) rest go_on
        ≡ next_part os share to_ascii p y (n ∷ name) rest go_on
  next_part-named p x y n name [] go_on = refl
  next_part-named p x y n name (z ∷ rest) go_on = refl

  walk-look_up :
      (again : Bool) (p : FsPath) (part : List ℕ) (rest : FsPath) (s : State W)
      → walk os share to_ascii again (part ∷ rest) p s
        ≡ proceed (look_up again p part s) (λ name.
          next_part os share to_ascii p part name rest (walk os share to_ascii again rest))
  unfolding walk handle_of
  walk-look_up again p part rest s = refl

  -- For a path `xs` of depth `d` and a part of three or more dots: `check_path_depth` counts the part as
  -- one level down, and `..` as one level up, or out of the root. But where the conversion of names is
  -- in use, the path is followed from a directory in which `..` is found as if the part were `..`: the
  -- same path on the server, or the same exception, and the same state come out.
  pub walk-dots :
      (xs : FsPath) (k d : ℕ) (again : Bool) (p rest : FsPath) (s s' : State W) (n : List ℕ)
      (name : FsPath)
      → check_path_depth xs ≡ some d
      → look_up again p dot_dot s ≡ (ok (n ∷ name), s')
      → (check_path_depth (xs ++ dots k ∷ []) ≡ some (suc d))
        × (check_path_depth (xs ++ dot_dot ∷ []) ≡ above d)
        × (walk os share to_ascii again (dots k ∷ rest) p s
            ≡ walk os share to_ascii again (dot_dot ∷ rest) p s)
  walk-dots xs k d again p rest s s' n name level found =
      let go_on = walk os share to_ascii again rest in
      let named : look_up again p (dots k) s ≡ (ok (n ∷ name), s') =
        ap (λ (fcb : FcbFileName). look_up_short again p fcb s) (short_name_to_fcb-dots k)
        ∙ found in
      (
        check_path_depth-dots xs k d level,
        check_path_depth-up xs d level,
        walk-look_up again p (dots k) rest s
            ∙ ap (λ r. proceed r (λ q. next_part os share to_ascii p (dots k) q rest go_on)) named
            ∙ ap (λ (m : Exec (State W) (FsPath × Bool)). m s')
                (next_part-named p (dots k) dot_dot n name rest go_on)
            ∙ sym (
                ap (λ r. proceed r (λ q. next_part os share to_ascii p dot_dot q rest go_on)) found)
            ∙ sym (walk-look_up again p dot_dot rest s),
      )
