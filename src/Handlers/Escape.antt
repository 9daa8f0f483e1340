-- ===== src/Handlers/Escape.antt =====
-- FIND_FIRST with a template that leads to the root of the share.
use net_mount.Base.{
  ℕ, ◌≤◌, ◌≡◌, ◌≢◌, refl, ap, sym, ◌∙◌, subst, List, [], ◌∷◌, ◌++◌, some, length, length-append,
  arith, Bool-cases, inl, inr,
}
use net_mount.Bytes.{Endian}
use net_mount.Drive.{FsPath, is_empty, check_path_depth, get_handle_path}
use net_mount.Drive.Depth.{walk, check_path_depth-walk, depth_of}
use net_mount.Drive.Stable.{LeadsTo, get_handle_path-get_handle}
use net_mount.Exec.{Result, ok, err}
use net_mount.Os.{Os}
use net_mount.Folder.{Share, State, parent_path, close, handle_of, create_server_path}
use net_mount.Folder.Within.{Behind}
use net_mount.Handlers.Searches.{template_handle}

parent_path-append :
    (part : List ℕ) (parts : FsPath) (name : List ℕ)
    → parent_path ((part ∷ parts) ++ name ∷ []) ≡ part ∷ parts
parent_path-append part [] name = refl
parent_path-append part (next ∷ []) name = refl
parent_path-append part (next ∷ after ∷ parts) name =
    ap (λ (l : FsPath). part ∷ l) (parent_path-append next (after ∷ parts) name)

close-named :
    (parts : FsPath) (name : List ℕ) → name ≢ [] → close (parts ++ name ∷ []) ≡ parts ++ name ∷ []
close-named [] [] ne = absurd (ne refl)
close-named [] (c ∷ cs) ne = refl
close-named (part ∷ []) name ne = ap (λ (l : FsPath). part ∷ l) (close-named [] name ne)
close-named (part ∷ next ∷ parts) name ne =
    ap (λ (l : FsPath). part ∷ l) (close-named (next ∷ parts) name ne)

-- The directory above is neither the root nor behind it.
above-outside : (front : FsPath) (name : List ℕ) → name ≢ [] → ¬ Behind (front ++ name ∷ []) front
above-outside front name ne (inl same) =
    omega (arith, ap length same, length-append front (name ∷ []))
above-outside front name ne (inr (part, rest, same)) = omega (
  arith,
  ap length (same ∙ ap (λ (l : FsPath). l ++ part ∷ rest) (close-named front name ne)),
  length-append front (name ∷ []),
  length-append (front ++ name ∷ []) (part ∷ rest),
)

-- What FIND_FIRST has in its hands for the directory `p`, outside of the share: a handle that
-- `get_handle_path` leads to `p`.
abbrev pub EscapesTo : {W : Type 0} → FsPath → FsPath → Result ℕ × State W → Type 0
EscapesTo root p (err ex, s) = ⊥
EscapesTo root p (ok handle, s) =
    ¬ Behind root p
    × ((later : ℕ) → LeadsTo p s.items handle (get_handle_path later s.items handle))

module _ (e : Endian) {W : Type 0} (os : Os W) (share : Share) (to_ascii : List ℕ → List ℕ) where
  template_handle-root :
      (template : FsPath) (s : State W)
      → walk [] template ≡ some []
      → template_handle e os share to_ascii template s ≡ handle_of os (parent_path share.root) s
  unfolding template_handle create_server_path
  template_handle-root template s back =
      let level : check_path_depth template ≡ some 0 =
        check_path_depth-walk template ∙ ap depth_of back in
      elim (Bool-cases (is_empty template)) [
        | inl nothing ↦ rw nothing refl
        | inr parts ↦ rw (parts, level) refl
      ]

  -- Let the root of a share be a directory with at least one part, followed by a name that is not
  -- empty, as every root but `/` is. For a search template that is empty or leads back to the root of
  -- the share, such as `a/..`, FIND_FIRST takes a handle for that directory, which is neither the
  -- root nor behind it. The table had at most 65535 items.
  pub template_handle_escapes :
      (part : List ℕ) (parts : FsPath) (name : List ℕ) (template : FsPath) (s : State W)
      → share.root ≡ (part ∷ parts) ++ name ∷ []
      → name ≢ []
      → walk [] template ≡ some []
      → length s.items ≤ 65535
      → EscapesTo share.root (part ∷ parts) (template_handle e os share to_ascii template s)
  template_handle_escapes part parts name template s rooted named back size =
      subst (EscapesTo share.root (part ∷ parts)) (sym (template_handle-root template s back)) (
        subst (λ (q : FsPath). EscapesTo share.root (part ∷ parts) (handle_of os q s))
          (sym (ap parent_path rooted ∙ parent_path-append part parts name))
          (handle_of-EscapesTo s rooted named size))
    where
      handle_of-EscapesTo :
          (s : State W)
          → share.root ≡ (part ∷ parts) ++ name ∷ []
          → name ≢ []
          → length s.items ≤ 65535
          → EscapesTo share.root (part ∷ parts) (handle_of os (part ∷ parts) s)
      handle_of-EscapesTo s rooted named size =
          unfold handle_of in
          (
            λ inside.
                above-outside (part ∷ parts) name named
                  (subst (λ (r : FsPath). Behind r (part ∷ parts)) rooted inside),
            λ later.
                (get_handle_path-get_handle (os.now s.world) (part ∷ parts) s.items
                  (λ p. ground (arith, p)) size later).0,
          )
