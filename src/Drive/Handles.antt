-- ===== src/Drive/Handles.antt =====
-- `get_handle`: a path keeps its handle, and the handle leads back to the path.
use net_mount.Base.{
  ℕ, zero, suc, ◌≤◌, ◌<◌, ◌≡◌, ◌≢◌, inl, inr, refl, ap, sym, subst, ◌∙◌, List, [], ◌∷◌, ◌++◌, false,
  arith, length, length-append, length-set, set, Bool-cases, some, none, ltb,
}
use mathlib.Core.List.{map-append}
use net_mount.Drive.{
  FsPath, path_eq, Item, blank_item, Scanned, found, missing, scan_items, get_item_or_blank, assign,
  allocate, get_handle,
}
use net_mount.Drive.Table.{
  paths, path_at, IsFirstAt, IsAbsent, IsFreed, Sees, scan_items-paths, scan_items-Sees,
  path_eq_refl,
}

paths-set :
    (items : List Item) (k : ℕ) (x : Item) → paths (set items k x) ≡ set (paths items) k x.path
paths-set [] k x = refl
paths-set (y ∷ ys) zero x = refl
paths-set (y ∷ ys) (suc k) x = ap (λ (l : List FsPath). y.path ∷ l) (paths-set ys k x)

pub length-paths : (items : List Item) → length (paths items) ≡ length items
length-paths [] = refl
length-paths (x ∷ xs) = ap suc (length-paths xs)

path_at-set_ne :
    (t : List FsPath) (h k : ℕ) (p : FsPath) → k ≢ h → path_at (set t h p) k ≡ path_at t k
path_at-set_ne [] h k p ne = refl
path_at-set_ne (x ∷ xs) zero zero p ne = absurd (ne refl)
path_at-set_ne (x ∷ xs) zero (suc k) p ne = refl
path_at-set_ne (x ∷ xs) (suc h) zero p ne = refl
path_at-set_ne (x ∷ xs) (suc h) (suc k) p ne = path_at-set_ne xs h k p (λ e. ne (ap suc e))

path_at-append :
    (t : List FsPath) (k : ℕ) (p : FsPath) → k < length t → path_at (t ++ p ∷ []) k ≡ path_at t k
path_at-append [] k p h = absurd (omega arith)
path_at-append (x ∷ xs) zero p h = refl
path_at-append (x ∷ xs) (suc k) p h = path_at-append xs k p (omega arith)

IsFirstAt-set :
    (p : FsPath) (t : List FsPath) (h : ℕ) → IsAbsent p t → h < length t → IsFirstAt p (set t h p) h
IsFirstAt-set p [] h absent lt = absurd (omega arith)
IsFirstAt-set p (x ∷ xs) zero absent lt = path_eq_refl p
IsFirstAt-set p (x ∷ xs) (suc h) (other, absent) lt =
    (other, IsFirstAt-set p xs h absent (omega arith))

IsFirstAt-lt : (p : FsPath) (t : List FsPath) (d : ℕ) → IsFirstAt p t d → d < length t
IsFirstAt-lt p [] d h = absurd h
IsFirstAt-lt p (x ∷ xs) zero h = omega arith
IsFirstAt-lt p (x ∷ xs) (suc d) (o, h) = omega (arith, IsFirstAt-lt p xs d h)

-- No item is called by the path that is not empty, if all items are cleared of it.
IsAbsent-set :
    (p : FsPath) (t : List FsPath) (h : ℕ) (q : FsPath)
    → path_eq q p ≡ false
    → IsAbsent p t
    → IsAbsent p (set t h q)
IsAbsent-set p [] h q other absent = tt
IsAbsent-set p (x ∷ xs) zero q other absent = (other, absent.1)
IsAbsent-set p (x ∷ xs) (suc h) q other absent = (absent.0, IsAbsent-set p xs h q other absent.1)

IsAbsent-append :
    (p : FsPath) (t : List FsPath) (q : FsPath)
    → path_eq q p ≡ false
    → IsAbsent p t
    → IsAbsent p (t ++ q ∷ [])
IsAbsent-append p [] q other absent = (other, tt)
IsAbsent-append p (x ∷ xs) q other absent = (absent.0, IsAbsent-append p xs q other absent.1)

path_eq_empty : (p : FsPath) → p ≢ [] → path_eq [] p ≡ false
path_eq_empty [] ne = absurd (ne refl)
path_eq_empty (x ∷ xs) ne = refl

-- What `get_handle` makes of a table `t`: the table `t'`, in which the handle `h` is the first of
-- the path, and every other handle has the path that it had.
abbrev pub IsStored : FsPath → List FsPath → ℕ → List FsPath → Type 0
IsStored p t h t' =
    IsFirstAt p t' h
    × (h < 65535)
    × (length t' ≤ 65535)
    × ((k : ℕ) → k ≢ h → k < length t → path_at t' k ≡ path_at t k)

IsStored-set :
    (p : FsPath) (t : List FsPath) (h : ℕ)
    → IsAbsent p t
    → h < length t
    → length t ≤ 65535
    → IsStored p t h (set t h p)
IsStored-set p t h absent lt size = (
  IsFirstAt-set p t h absent lt,
  omega arith,
  omega (arith, length-set t h p),
  λ k ne in_range. path_at-set_ne t h k p ne,
)

IsStored-append :
    (p : FsPath) (t : List FsPath)
    → p ≢ []
    → IsAbsent p t
    → length t < 65535
    → IsStored p t (length t) (set (t ++ [] ∷ []) (length t) p)
IsStored-append p t ne absent size =
    let grown : length (t ++ [] ∷ []) ≡ suc (length t) = omega (arith, length-append t ([] ∷ [])) in
    (
      IsFirstAt-set p (t ++ [] ∷ []) (length t) (IsAbsent-append p t [] (path_eq_empty p ne) absent)
          (omega (arith, grown)),
      size,
      omega (arith, grown, length-set (t ++ [] ∷ []) (length t) p),
      λ k away in_range.
          path_at-set_ne (t ++ [] ∷ []) (length t) k p away ∙ path_at-append t k [] in_range,
    )

IsStored-evict :
    (p : FsPath) (t : List FsPath) (o : ℕ)
    → p ≢ []
    → IsAbsent p t
    → o < length t
    → length t ≤ 65535
    → IsStored p t o (set (set t o []) o p)
IsStored-evict p t o ne absent lt size = (
  IsFirstAt-set p (set t o []) o (IsAbsent-set p t o [] (path_eq_empty p ne) absent)
      (omega (arith, length-set t o [])),
  omega arith,
  omega (arith, length-set (set t o []) o p, length-set t o []),
  λ k away in_range. path_at-set_ne (set t o []) o k p away ∙ path_at-set_ne t o k [] away,
)

assign-paths :
    (now : ℕ) (p : FsPath) (items : List Item) (h : ℕ)
    → paths (assign now p items h) ≡ set (paths items) h p
assign-paths now p items h =
    paths-set items h (record (get_item_or_blank items h) { path = p; last_used_time = now })

allocate-IsStored :
    (now : ℕ) (p : FsPath) (items : List Item) (r : Scanned)
    → p ≢ []
    → length items ≤ 65535
    → Sees p 0 none 0 (paths items) r
    → IsStored p (paths items) (allocate now p (items, r)).0 (paths (allocate now p (items, r)).1)
unfolding allocate
allocate-IsStored now p items (found h) ne size (d, e, first) =
    let here : h ≡ d = omega arith in
    let at_h : IsFirstAt p (paths items) h = subst (IsFirstAt p (paths items)) (sym here) first in
    (
      at_h,
      omega (arith, IsFirstAt-lt p (paths items) h at_h, length-paths items),
      omega (arith, length-paths items),
      λ k away in_range. refl,
    )
allocate-IsStored now p items (missing (some f) o) ne size (absent, freed, met) =
    subst (IsStored p (paths items) f) (sym (assign-paths now p items f))
      (IsStored-set p (paths items) f absent (in_table freed) (omega (arith, length-paths items)))
  where
    in_table : IsFreed 0 (length (paths items)) none (some f) → f < length (paths items)
    in_table (inl e) = absurd (ground (arith, e))
    in_table (inr (lo, hi)) = omega arith
allocate-IsStored now p items (missing none o) ne size (absent, freed, met) =
    let count = length-paths items in
    elim (Bool-cases (ltb (length items) 65535)) [
      | inl room ↦
          let grown = map-append (λ (item : Item). item.path) items (blank_item ∷ []) in
          let at_end : paths (assign now p (items ++ blank_item ∷ []) (length items))
              ≡ set (paths items ++ [] ∷ []) (length (paths items)) p =
            rw (assign-paths now p (items ++ blank_item ∷ []) (length items), grown, count) refl in
          rw room (
            subst
              (λ (h : ℕ).
                IsStored p (paths items) h
                  (paths (assign now p (items ++ blank_item ∷ []) (length items))))
              count
              (subst (IsStored p (paths items) (length (paths items))) (sym at_end)
                (IsStored-append p (paths items) ne absent (ground (arith, room, count)))))
      | inr full ↦
          let cleared = record (get_item_or_blank items o) { path = []; directory_list = [] } in
          let renamed : paths (assign now p (set items o cleared) o)
              ≡ set (set (paths items) o []) o p =
            rw (assign-paths now p (set items o cleared) o, paths-set items o cleared) refl in
          rw full (
            subst (IsStored p (paths items) o) (sym renamed) (
              IsStored-evict p (paths items) o ne absent (ground (arith, full, count, met))
                (omega (arith, count))))
    ]

module _ (now : ℕ) (p : FsPath) (items : List Item) (ne : p ≢ [])
    (size : length items ≤ 65535) where
  abbrev pub handle : ℕ
  handle = (get_handle now p items).0

  abbrev pub after : List Item
  after = (get_handle now p items).1

  pub get_handle-IsStored : IsStored p (paths items) handle (paths after)
  unfolding get_handle
  get_handle-IsStored =
      let best : ℕ × ℕ = (0, (get_item_or_blank items 0).last_used_time) in
      let scanned = (scan_items now p 0 none best items).0 in
      let r = (scan_items now p 0 none best items).1 in
      let same = scan_items-paths now p 0 none best items in
      let count : length scanned ≡ length items =
        omega (arith, ap length same, length-paths items, length-paths scanned) in
      subst
        (λ t. IsStored p t (allocate now p (scanned, r)).0 (paths (allocate now p (scanned, r)).1))
        same
        (allocate-IsStored now p scanned r ne (omega (arith, count))
          (subst (λ t. Sees p 0 none 0 t r) (sym same) (scan_items-Sees now p 0 none best items)))
