-- ===== src/Drive/Depth.antt =====
-- `check_path_depth` against following the path from name to name.
use net_mount.Base.{
  ℕ, zero, suc, ◌≡◌, refl, ◌∙◌, List, [], ◌∷◌, Bool, true, false, length, Option, some, none,
}
use net_mount.Drive.{FsPath, ignored_part, is_dot_dot, depth_from, check_path_depth}

-- Following a path from a place below the root: the names that lead to where one is, the last one
-- first, or nothing where the path climbs above the root.
abbrev pub step_up : FsPath → Option FsPath
step_up [] = none
step_up (x ∷ xs) = some xs

abbrev pub walk_one : FsPath → List ℕ → Option FsPath
walk_one place part = elim (ignored_part part) [
  | true ↦ some place
  | false ↦ elim (is_dot_dot part) [ true ↦ step_up place | false ↦ some (part ∷ place) ]
]

abbrev pub then_walk : Option FsPath → (FsPath → Option FsPath) → Option FsPath
then_walk none next = none
then_walk (some place) next = next place

abbrev pub walk : FsPath → FsPath → Option FsPath
walk place [] = some place
walk place (part ∷ parts) = then_walk (walk_one place part) (λ here. walk here parts)

abbrev pub depth_of : Option FsPath → Option ℕ
depth_of none = none
depth_of (some place) = some (length place)

abbrev bind : Option ℕ → (ℕ → Option ℕ) → Option ℕ
bind none next = none
bind (some d) next = next d

-- One part, then the rest.
depth_from-step :
    (part : List ℕ) (parts : FsPath) (place : FsPath)
    → depth_from (length place) (part ∷ parts)
      ≡ bind (depth_of (walk_one place part)) (λ d. depth_from d parts)
unfolding depth_from
depth_from-step part parts place = by_tests (ignored_part part) (is_dot_dot part) place
  where
    by_tests :
        (i u : Bool) (place : FsPath)
        → elim i [
          | true ↦ depth_from (length place) parts
          | false ↦ elim u [
            | false ↦ depth_from (suc (length place)) parts
            | true ↦ elim (length place) [ zero ↦ none | suc d ↦ depth_from d parts ]
          ]
        ]
          ≡ bind
              (depth_of (elim i [
                | true ↦ some place
                | false ↦ elim u [ true ↦ step_up place | false ↦ some (part ∷ place) ]
              ]))
              (λ d. depth_from d parts)
    by_tests true u place = refl
    by_tests false false place = refl
    by_tests false true [] = refl
    by_tests false true (x ∷ xs) = refl

depth_from-walk :
    (parts place : FsPath) → depth_from (length place) parts ≡ depth_of (walk place parts)
unfolding depth_from
depth_from-walk [] place = refl
depth_from-walk (part ∷ parts) place =
    depth_from-step part parts place ∙ by_step (walk_one place part) (depth_from-walk parts)
  where
    by_step :
        (one : Option FsPath)
        → ((here : FsPath) → depth_from (length here) parts ≡ depth_of (walk here parts))
        → bind (depth_of one) (λ d. depth_from d parts)
          ≡ depth_of (then_walk one (λ here. walk here parts))
    by_step none rest = refl
    by_step (some here) rest = rest here

-- The depth is the number of names that lead from the root to where the path leads, and -1 is
-- returned exactly for a path that climbs above the root on its way.
pub check_path_depth-walk : (p : FsPath) → check_path_depth p ≡ depth_of (walk [] p)
unfolding check_path_depth
check_path_depth-walk p = depth_from-walk p []
