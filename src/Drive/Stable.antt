-- ===== src/Drive/Stable.antt =====
-- What a client may rely on: a handle leads back to its path, and stays the same.
use net_mount.Base.{
  ℕ, zero, suc, ◌+◌, ◌≤◌, ◌<◌, ◌≡◌, ◌≢◌, refl, ap, sym, subst, ◌∙◌, List, [], ◌∷◌, false, arith,
  length, set, Option, some, none, get_elem?, get_elem?-set_ne, map,
}
use net_mount.Drive.{
  FsPath, is_empty, Item, found, scan_items, get_item_or_blank, next_free, next_oldest, allocate,
  get_handle, get_item, get_handle_path,
}
use net_mount.Drive.Table.{paths, path_at, IsFirstAt, scan_items-paths, eq-of-path_eq}
use net_mount.Drive.Handles.{get_handle-IsStored, length-paths}

get_elem?-IsFirstAt :
    (p : FsPath) (items : List Item) (h : ℕ)
    → IsFirstAt p (paths items) h
    → (x : Item) × (get_elem? items h ≡ some x) × (x.path ≡ p)
get_elem?-IsFirstAt p [] h first = absurd first
get_elem?-IsFirstAt p (x ∷ xs) zero first = (x, refl, eq-of-path_eq x.path p first)
get_elem?-IsFirstAt p (x ∷ xs) (suc h) (other, first) = get_elem?-IsFirstAt p xs h first

is_empty_ne : (p : FsPath) → p ≢ [] → is_empty p ≡ false
is_empty_ne [] ne = absurd (ne refl)
is_empty_ne (x ∷ xs) ne = refl

get_item-IsFirstAt :
    (p : FsPath) (items : List Item) (h : ℕ)
    → p ≢ []
    → IsFirstAt p (paths items) h
    → (x : Item) × (get_item items h ≡ some x) × (x.path ≡ p)
unfolding get_item
get_item-IsFirstAt p items h ne first =
    let (x, at_h, same) = get_elem?-IsFirstAt p items h first in
    let used : is_empty x.path ≡ false =
      subst (λ q. is_empty q ≡ false) (sym same) (is_empty_ne p ne) in
    (x, rw at_h (rw used refl), same)

scan_items-found :
    (now : ℕ) (p : FsPath) (handle : ℕ) (free : Option ℕ) (best : ℕ × ℕ) (items : List Item) (d : ℕ)
    → IsFirstAt p (paths items) d
    → (scan_items now p handle free best items).1 ≡ found (handle + d)
unfolding scan_items
scan_items-found now p handle free best [] d first = absurd first
scan_items-found now p handle free best (x ∷ xs) zero first =
    let here : handle ≡ handle + 0 = omega arith in rw first (ap found here)
scan_items-found now p handle free best (x ∷ xs) (suc d) (other, first) =
    let there : suc handle + d ≡ handle + suc d = omega arith in
    rw other (
      scan_items-found now p (suc handle) (next_free handle x.path free)
        (next_oldest handle x free best) xs d first
      ∙ ap found there)

get_handle-known :
    (now : ℕ) (p : FsPath) (items : List Item) (d : ℕ)
    → IsFirstAt p (paths items) d
    → ((get_handle now p items).0 ≡ d) × (paths (get_handle now p items).1 ≡ paths items)
unfolding get_handle allocate
get_handle-known now p items d first =
    let best : ℕ × ℕ = (0, (get_item_or_blank items 0).last_used_time) in
    let scanned = (scan_items now p 0 none best items).0 in
    let at_d : found d ≡ (scan_items now p 0 none best items).1 =
      sym (scan_items-found now p 0 none best items d first ∙ ap found (plain d)) in
    subst
      (λ r.
        ((allocate now p (scanned, r)).0 ≡ d)
        × (paths (allocate now p (scanned, r)).1 ≡ paths items))
      at_d (refl, scan_items-paths now p 0 none best items)
  where
    plain : (d : ℕ) → 0 + d ≡ d
    plain d = omega arith

-- What `get_handle_path` gives for a handle of a table: the path, and a table with the same paths that
-- differs from the one before in no item but the handle's, which keeps its directory list.
abbrev pub LeadsTo : FsPath → List Item → ℕ → Option (FsPath × List Item) → Type 0
LeadsTo p before handle none = ⊥
LeadsTo p before handle (some (q, after)) =
    (q ≡ p)
    × (paths after ≡ paths before)
    × ((k : ℕ) → k ≢ handle → get_elem? after k ≡ get_elem? before k)
    × (map (λ (item : Item). item.directory_list) after
        ≡ map (λ (item : Item). item.directory_list) before)

-- A new item with the same field in place of the old one.
map-set_same :
    {A : Type 0} (f : Item → A) (items : List Item) (h : ℕ) (x y : Item)
    → get_elem? items h ≡ some x
    → f y ≡ f x
    → map f (set items h y) ≡ map f items
map-set_same f [] h x y at same = refl
map-set_same f (z ∷ zs) zero x y at same =
    let e : z ≡ x = ground (arith, at) in ap (λ a. a ∷ map f zs) (same ∙ ap f (sym e))
map-set_same f (z ∷ zs) (suc h) x y at same = ap (λ l. f z ∷ l) (map-set_same f zs h x y at same)

get_handle_path-LeadsTo :
    (later : ℕ) (p : FsPath) (items : List Item) (h : ℕ)
    → p ≢ []
    → IsFirstAt p (paths items) h
    → LeadsTo p items h (get_handle_path later items h)
unfolding get_handle_path get_item
get_handle_path-LeadsTo later p items h ne first =
    let (x, at_h, same) = get_elem?-IsFirstAt p items h first in
    let used : is_empty x.path ≡ false =
      subst (λ q. is_empty q ≡ false) (sym same) (is_empty_ne p ne) in
    let next = record x { last_used_time = later } in
    rw at_h (
      rw used (
        same,
        map-set_same (λ item. item.path) items h x next at_h refl,
        (λ k away. get_elem?-set_ne items h k next (λ e. away (sym e))),
        map-set_same (λ item. item.directory_list) items h x next at_h refl,
      ))

module _ (now : ℕ) (p : FsPath) (items : List Item) (ne : p ≢ [])
    (size : length items ≤ 65535) where
  -- The handle that a path gets leads back to the path: `get_handle_path` finds the path, at any
  -- later time, and leaves all paths of the table and every other item as they are. The handle is
  -- below 65535, and the table has at most 65535 items. The path is not empty, and the table had at
  -- most 65535 items.
  pub get_handle_path-get_handle :
      (later : ℕ)
      → LeadsTo p
          (get_handle now p items).1
          (get_handle now p items).0
          (get_handle_path later (get_handle now p items).1 (get_handle now p items).0)
        × ((get_handle now p items).0 < 65535)
        × (length (get_handle now p items).1 ≤ 65535)
  get_handle_path-get_handle later =
      let (first, low, bound, others) = get_handle-IsStored now p items ne size in
      (
        get_handle_path-LeadsTo later p (get_handle now p items).1 (get_handle now p items).0 ne
            first,
        low,
        omega (arith, bound, length-paths (get_handle now p items).1),
      )

  -- A path that is looked up again, at any later time, has the same handle, and the table has the
  -- same paths. The path is not empty, and the table had at most 65535 items.
  pub get_handle_twice :
      (later : ℕ)
      → ((get_handle later p (get_handle now p items).1).0 ≡ (get_handle now p items).0)
        × (paths (get_handle later p (get_handle now p items).1).1
            ≡ paths (get_handle now p items).1)
  get_handle_twice later =
      let (first, _, _, _) = get_handle-IsStored now p items ne size in
      get_handle-known later p (get_handle now p items).1 (get_handle now p items).0 first

  -- All other handles keep their paths. The path is not empty, and the table had at most 65535
  -- items.
  pub get_handle_others :
      (k : ℕ)
      → k ≢ (get_handle now p items).0
      → k < length items
      → path_at (paths (get_handle now p items).1) k ≡ path_at (paths items) k
  get_handle_others k away in_range =
      let (_, _, _, others) = get_handle-IsStored now p items ne size in
      others k away (omega (arith, in_range, length-paths items))
