-- ===== src/Drive/Table.antt =====
-- What the loop of `get_handle` finds, and that it leaves the paths of the table alone.
use net_mount.Base.{
  ℕ, zero, suc, ◌+◌, ◌≤◌, ◌<◌, ◌≡◌, ◌⊎◌, inl, inr, refl, ap₂, List, [], ◌∷◌, map, true, false, ◌&&◌,
  arith, length, All, Bool-cases, Option, some, none, bytes_eq_refl, eq-of-bytes_eq, ltb, not,
}
use net_mount.Drive.{
  FsPath, path_eq, is_empty, Item, Scanned, found, missing, expire, next_free, next_oldest,
  scan_items,
}

pub path_eq_refl : (p : FsPath) → path_eq p p ≡ true
path_eq_refl [] = refl
path_eq_refl (x ∷ xs) = ground (arith, bytes_eq_refl x, path_eq_refl xs)

pub eq-of-path_eq : (p q : FsPath) → path_eq p q ≡ true → p ≡ q
eq-of-path_eq [] [] h = refl
eq-of-path_eq [] (y ∷ ys) h = absurd (ground (arith, h))
eq-of-path_eq (x ∷ xs) [] h = absurd (ground (arith, h))
eq-of-path_eq (x ∷ xs) (y ∷ ys) h =
    ap₂ (λ (a : List ℕ) (b : FsPath). a ∷ b) (eq-of-bytes_eq x y (ground (arith, h)))
      (eq-of-path_eq xs ys (ground (arith, h)))

-- The paths of a table.
abbrev pub paths : List Item → List FsPath
paths = map (λ item. item.path)

-- The path of a handle; the empty path where there is none.
abbrev pub path_at : List FsPath → ℕ → FsPath
path_at [] k = []
path_at (x ∷ xs) zero = x
path_at (x ∷ xs) (suc k) = path_at xs k

-- The path stands at `d`, and at no smaller handle.
abbrev pub IsFirstAt : FsPath → List FsPath → ℕ → Type 0
IsFirstAt p [] d = ⊥
IsFirstAt p (x ∷ xs) zero = path_eq x p ≡ true
IsFirstAt p (x ∷ xs) (suc d) = (path_eq x p ≡ false) × IsFirstAt p xs d

abbrev pub IsAbsent : FsPath → List FsPath → Type 0
IsAbsent p = All (λ x. path_eq x p ≡ false)

-- An index that the loop has kept, or met from `handle` on.
abbrev pub IsMet : ℕ → ℕ → ℕ → ℕ → Type 0
IsMet handle size kept k = (k ≡ kept) ⊎ ((handle ≤ k) × (k < handle + size))

abbrev pub IsFreed : ℕ → ℕ → Option ℕ → Option ℕ → Type 0
IsFreed handle size kept none = kept ≡ none
IsFreed handle size kept (some k) = (kept ≡ some k) ⊎ ((handle ≤ k) × (k < handle + size))

-- What the loop promises of the items from `handle` on.
abbrev pub Sees : FsPath → ℕ → Option ℕ → ℕ → List FsPath → Scanned → Type 0
Sees p handle free kept table (found h) = (d : ℕ) × (h ≡ handle + d) × IsFirstAt p table d
Sees p handle free kept table (missing f o) =
    IsAbsent p table × IsFreed handle (length table) free f × IsMet handle (length table) kept o

pub paths-expire : (now : ℕ) (item : Item) → (expire now item).path ≡ item.path
unfolding expire
paths-expire now item =
    elim (Bool-cases (ltb (item.last_used_time + 3600) now && not (is_empty item.directory_list))) [
      | inl old ↦ rw old refl
      | inr new ↦ rw new refl
    ]

pub scan_items-paths :
    (now : ℕ) (p : FsPath) (handle : ℕ) (free : Option ℕ) (best : ℕ × ℕ) (items : List Item)
    → paths (scan_items now p handle free best items).0 ≡ paths items
unfolding scan_items
scan_items-paths now p handle free best [] = refl
scan_items-paths now p handle free best (item ∷ items) = elim (Bool-cases (path_eq item.path p)) [
  | inl same ↦ rw same refl
  | inr other ↦ rw other (
      ap₂ (λ (a : FsPath) (b : List FsPath). a ∷ b) (paths-expire now item)
        (scan_items-paths now p (suc handle) (next_free handle item.path free)
          (next_oldest handle item free best) items))
]

IsFreed-next :
    (handle size : ℕ) (path : FsPath) (free f : Option ℕ)
    → IsFreed (suc handle) size (next_free handle path free) f
    → IsFreed handle (suc size) free f
IsFreed-next handle size path (some i) none h = h
IsFreed-next handle size path none none h = refl
IsFreed-next handle size path (some i) (some k) (inl e) = inl e
IsFreed-next handle size path (some i) (some k) (inr (lo, hi)) = inr (omega arith, omega arith)
IsFreed-next handle size path none (some k) (inr (lo, hi)) = inr (omega arith, omega arith)
IsFreed-next handle size path none (some k) (inl e) = elim (Bool-cases (is_empty path)) [
  | inl empty ↦ let here : handle ≡ k = ground (arith, e, empty) in inr (omega arith, omega arith)
  | inr full ↦ absurd (ground (arith, e, full))
]

IsMet-next :
    (handle size : ℕ) (item : Item) (free : Option ℕ) (best : ℕ × ℕ) (o : ℕ)
    → IsMet (suc handle) size (next_oldest handle item free best).0 o
    → IsMet handle (suc size) best.0 o
IsMet-next handle size item (some i) best o (inl e) = inl e
IsMet-next handle size item (some i) best o (inr (lo, hi)) = inr (omega arith, omega arith)
IsMet-next handle size item none (b, age) o (inr (lo, hi)) = inr (omega arith, omega arith)
IsMet-next handle size item none (b, age) o (inl e) = elim (Bool-cases (is_empty item.path)) [
  | inl empty ↦ inl (ground (arith, e, empty))
  | inr full ↦ elim (Bool-cases (ltb item.last_used_time age)) [
    | inl older ↦
        let here : o ≡ handle = ground (arith, e, full, older) in inr (omega arith, omega arith)
    | inr newer ↦ inl (ground (arith, e, full, newer))
  ]
]

Sees-next :
    (p : FsPath) (handle : ℕ) (free : Option ℕ) (best : ℕ × ℕ) (item : Item) (table : List FsPath)
    (r : Scanned)
    → path_eq item.path p ≡ false
    → Sees p
        (suc handle)
        (next_free handle item.path free)
        (next_oldest handle item free best).0
        table
        r
    → Sees p handle free best.0 (item.path ∷ table) r
Sees-next p handle free best item table (found h) other (d, e, first) =
    (suc d, omega arith, (other, first))
Sees-next p handle free best item table (missing f o) other (absent, freed, met) = (
  (other, absent),
  IsFreed-next handle (length table) item.path free f freed,
  IsMet-next handle (length table) item free best o met,
)

pub scan_items-Sees :
    (now : ℕ) (p : FsPath) (handle : ℕ) (free : Option ℕ) (best : ℕ × ℕ) (items : List Item)
    → Sees p handle free best.0 (paths items) (scan_items now p handle free best items).1
unfolding scan_items
scan_items-Sees now p handle none best [] = (tt, refl, inl refl)
scan_items-Sees now p handle (some i) best [] = (tt, inl refl, inl refl)
scan_items-Sees now p handle free best (item ∷ items) = elim (Bool-cases (path_eq item.path p)) [
  | inl same ↦ rw same (0, omega arith, same)
  | inr other ↦ rw other (
      Sees-next p handle free best item (paths items) _ other (
        scan_items-Sees now p (suc handle) (next_free handle item.path free)
          (next_oldest handle item free best) items))
]
