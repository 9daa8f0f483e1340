-- ===== src/Shares/Parsing.antt =====
-- What a definition of a share does to the drives.
use net_mount.Base.{
  ℕ, zero, suc, ◌-◌, ◌≤◌, ◌<◌, ◌≡◌, ◌≢◌, refl, sym, List, [], ◌∷◌, Bool, true, false, ◌||◌, ltb,
  if◌then◌else◌, arith, length, drop, set, get_or, get_elem?, get_elem?-set_self, get_elem?-set_ne,
  subst, Option, none, some, Bool-cases, inl, inr,
}
use net_mount.Bytes.{ascii_to_upper}
use net_mount.Drive.{FsPath, is_empty}
use net_mount.Folder.{Share}
use net_mount.Shares.{
  Host, Parsed, refused, failed, parsed, then_parse, get_token, set_attrs_option,
  set_conversion_option, set_label, set_option, parse_options, with_label, parse_root, define_drive,
  parse_share_definition, default_volume_label,
}

-- Settings, where they are given, are of a shared drive with this root.
abbrev HasRoot : FsPath → Parsed Share → Type 0
HasRoot root refused = Unit
HasRoot root failed = Unit
HasRoot root (parsed s) = (s.used ≡ true) × (s.root ≡ root)

if-HasRoot :
    (root : FsPath) (b : Bool) (x y : Parsed Share)
    → HasRoot root x
    → HasRoot root y
    → HasRoot root (if b then x else y)
if-HasRoot root true x y h g = h
if-HasRoot root false x y h g = g

module _ (host : Host) (root : FsPath) where
  attrs-HasRoot :
      (value : List ℕ) (s : Share)
      → s.used ≡ true
      → s.root ≡ root
      → HasRoot root (set_attrs_option host value s)
  unfolding set_attrs_option
  attrs-HasRoot value s u r = search if-HasRoot depth 12

  conversion-HasRoot :
      (value : List ℕ) (s : Share)
      → s.used ≡ true
      → s.root ≡ root
      → HasRoot root (set_conversion_option value s)
  unfolding set_conversion_option
  conversion-HasRoot value s u r = search if-HasRoot depth 12

  label-HasRoot :
      (value : List ℕ) (s : Share)
      → s.used ≡ true
      → s.root ≡ root
      → HasRoot root (parsed (set_label value s))
  label-HasRoot [] s u r = (u, r)
  label-HasRoot (c ∷ cs) s u r = (u, r)

  set_option-HasRoot :
      (option value : List ℕ) (s : Share)
      → s.used ≡ true
      → s.root ≡ root
      → HasRoot root (set_option host option value s)
  unfolding set_option
  set_option-HasRoot option value s u r =
      search (if-HasRoot, attrs-HasRoot, label-HasRoot, conversion-HasRoot) depth 12

  -- The same for the result of the loop.
  abbrev LoopHasRoot : Parsed (Share × Bool) → Type 0
  LoopHasRoot refused = Unit
  LoopHasRoot failed = Unit
  LoopHasRoot (parsed (s, labelled)) = (s.used ≡ true) × (s.root ≡ root)

  parse_options-HasRoot :
      (fuel : ℕ) (rest : List ℕ) (s : Share) (labelled : Bool)
      → s.used ≡ true
      → s.root ≡ root
      → LoopHasRoot (parse_options fuel host rest (s, labelled))
  unfolding parse_options
  parse_options-HasRoot zero rest s labelled u r = (u, r)
  parse_options-HasRoot (suc fuel) rest s labelled u r =
      elim (Bool-cases (is_empty (drop 1 rest))) [
        | inl at_end ↦ rw at_end (u, r)
        | inr more ↦ rw more (
            after _ _ (set_option-HasRoot _ _ s u r)
              (λ t v w. parse_options-HasRoot fuel _ t _ v w))
      ]
    where
      after :
          (p : Parsed Share) (next : Share → Parsed (Share × Bool))
          → HasRoot root p
          → ((t : Share) → t.used ≡ true → t.root ≡ root → LoopHasRoot (next t))
          → LoopHasRoot (then_parse p next)
      after refused next h k = tt
      after failed next h k = tt
      after (parsed t) next h k = k t h.0 h.1

  with_label-HasRoot :
      (s : Share) (labelled : Bool)
      → s.used ≡ true
      → s.root ≡ root
      → HasRoot root (parsed (with_label (s, labelled)))
  with_label-HasRoot s true u r = (u, r)
  with_label-HasRoot s false u r = label-HasRoot default_volume_label s u r

  parse_root-HasRoot :
      (rest : List ℕ) (s : Share) → HasRoot root (parse_root host rest s (some (root, true)))
  parse_root-HasRoot rest s = after _ (
      parse_options-HasRoot (length rest) rest (record s { used = true; root = root }) false refl
        refl)
    where
      after :
          (p : Parsed (Share × Bool))
          → LoopHasRoot p
          → HasRoot root (then_parse p (λ r. parsed (with_label r)))
      after refused h = tt
      after failed h = tt
      after (parsed (t, labelled)) h = with_label-HasRoot t labelled h.0 h.1

-- The drive of index `n` was free, and is now shared with the directory that `text` names up to its
-- first comma; every other drive is as it was.
abbrev pub Defines : Host → List ℕ → ℕ → List Share → List Share → Type 0
Defines host text n before after =
    (free : Share) × (root : FsPath) × (s : Share) × (get_elem? before n ≡ some free)
    × (free.used ≡ false)
    × (host.canonical (get_token b',' text).0 ≡ some (root, true))
    × (get_elem? after n ≡ some s)
    × (s.used ≡ true)
    × (s.root ≡ root)
    × ((k : ℕ) → k ≢ n → get_elem? after k ≡ get_elem? before k)

abbrev pub OutcomeDefines : Host → List ℕ → ℕ → List Share → Parsed (List Share) → Type 0
OutcomeDefines host text n before refused = Unit
OutcomeDefines host text n before failed = Unit
OutcomeDefines host text n before (parsed after) = Defines host text n before after

get_elem?-lt :
    (shares : List Share) (n : ℕ) (s : Share) → get_elem? shares n ≡ some s → n < length shares
get_elem?-lt [] n s h = absurd (ground (arith, h))
get_elem?-lt (x ∷ xs) zero s h = omega arith
get_elem?-lt (x ∷ xs) (suc n) s h = omega (arith, get_elem?-lt xs n s h)

module _ (host : Host) (text : List ℕ) (shares : List Share) (n : ℕ) where
  put-Defines :
      (free : Share) (root : FsPath) (p : Parsed Share)
      → get_elem? shares n ≡ some free
      → free.used ≡ false
      → host.canonical (get_token b',' text).0 ≡ some (root, true)
      → HasRoot root p
      → OutcomeDefines host text n shares (then_parse p (λ next. parsed (set shares n next)))
  put-Defines free root refused at unused known h = tt
  put-Defines free root failed at unused known h = tt
  put-Defines free root (parsed s) at unused known h = (
    free,
    root,
    s,
    at,
    unused,
    known,
    get_elem?-set_self shares n s (get_elem?-lt shares n free at),
    h.0,
    h.1,
    λ k ne. get_elem?-set_ne shares n k s (λ q. ne (sym q)),
  )

  rooted-Defines :
      (free : Share) (rest : List ℕ) (found : Option (FsPath × Bool))
      → get_elem? shares n ≡ some free
      → free.used ≡ false
      → host.canonical (get_token b',' text).0 ≡ found
      → OutcomeDefines host text n shares
          (then_parse (parse_root host rest free found) (λ next. parsed (set shares n next)))
  rooted-Defines free rest none at unused known = tt
  rooted-Defines free rest (some (root, false)) at unused known = tt
  rooted-Defines free rest (some (root, true)) at unused known =
      put-Defines free root _ at unused known (parse_root-HasRoot host root rest free)

  define_drive-Defines :
      (found : Option Share)
      → get_elem? shares n ≡ found
      → OutcomeDefines host text n shares (define_drive host text shares n found)
  define_drive-Defines none at = tt
  define_drive-Defines (some free) at = elim (Bool-cases free.used) [
    | inl taken ↦ rw taken tt
    | inr unused ↦ rw unused (rooted-Defines free _ _ at unused refl)
  ]

-- Where a definition of a share is accepted, it gives a letter from C to Z in either case, whose drive
-- was free and is now shared with the directory that the text behind the letter and the equals sign
-- names up to its first comma, and no other drive changes.
pub parse_share_definition-Defines :
    (host : Host) (text : List ℕ) (shares after : List Share)
    → parse_share_definition host text shares ≡ parsed after
    → (b'C' ≤ ascii_to_upper (get_or text 0 0))
      × (ascii_to_upper (get_or text 0 0) ≤ b'Z')
      × Defines host (drop 2 text) (ascii_to_upper (get_or text 0 0) - b'A') shares after
unfolding parse_share_definition
parse_share_definition-Defines host text shares after h =
    let c = ascii_to_upper (get_or text 0 0) in
    elim (Bool-cases (ltb c b'C' || ltb b'Z' c)) [
      | inl bad ↦ absurd (refused_ne (rw bad at h))
      | inr good ↦ (
        ground (arith, good),
        ground (arith, good),
        subst (λ (r : Parsed (List Share)). OutcomeDefines host (drop 2 text) (c - b'A') shares r)
            (rw good at h) (define_drive-Defines host (drop 2 text) shares (c - b'A') _ refl),
      )
    ]
  where
    refused_ne : ◌≢◌ {A = Parsed (List Share)} refused (parsed after)
    refused_ne q = cc
