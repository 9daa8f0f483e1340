-- ===== src/Server/Cache.antt =====
-- The reply cache: the item found belongs to the client, and the other clients keep theirs.
use net_mount.Base.{
  ℕ, zero, suc, ◌+◌, ◌≤◌, ◌<◌, ◌≡◌, ◌≢◌, refl, ap, List, [], ◌∷◌, true, false, arith, length, set,
  ltb, Bool-cases, inl, inr, ◌⊎◌, All,
}
use net_mount.Server.{ReplyInfo, Found, hit, reuse, owns, find_item, claim, item_at}

-- No item of the list is the client's.
abbrev pub Strangers : ℕ → ℕ → List ReplyInfo → Type 0
Strangers ip port = All (λ item. owns ip port item ≡ false)

-- None of the first `n` items is the client's.
abbrev pub StrangersBefore : ℕ → ℕ → ℕ → List ReplyInfo → Type 0
StrangersBefore ip port zero items = Unit
StrangersBefore ip port (suc n) [] = Unit
StrangersBefore ip port (suc n) (x ∷ xs) = (owns ip port x ≡ false) × StrangersBefore ip port n xs

-- The item at `d` is the first one of the client.
abbrev pub IsFirst : ℕ → ℕ → List ReplyInfo → ℕ → Type 0
IsFirst ip port items d =
    (d < length items) × StrangersBefore ip port d items × (owns ip port (item_at items d) ≡ true)

-- What the loop promises of the items from index `i` on, where `age` is the least timestamp so
-- far: a hit is the first item of the client; without one no item is the client's, and the item
-- for reuse has the least timestamp `t` of all.
abbrev pub Finds : ℕ → ℕ → ℕ → ℕ → ℕ → List ReplyInfo → Found → Type 0
Finds ip port i oldest age items (hit k) = (d : ℕ) × (k ≡ i + d) × IsFirst ip port items d
Finds ip port i oldest age items (reuse k) =
    Strangers ip port items
    × ((t : ℕ) × (t ≤ age)
        × All (λ item. t ≤ item.timestamp) items
        × (((k ≡ oldest) × (t ≡ age))
            ⊎ ((d : ℕ) × (k ≡ i + d) × (d < length items) × (t ≡ (item_at items d).timestamp))))

module _ (ip port i oldest age : ℕ) (item : ReplyInfo) (items : List ReplyInfo)
    (stranger : owns ip port item ≡ false) where
  Finds-older :
      (r : Found)
      → item.timestamp < age
      → Finds ip port (suc i) i item.timestamp items r
      → Finds ip port i oldest age (item ∷ items) r
  unfolding item_at
  Finds-older (hit k) younger (d, e, (lt, before, own)) =
      (suc d, omega arith, (omega arith, (stranger, before), own))
  Finds-older (reuse k) younger (none_owns, (t, le, all, inl (ek, et))) =
      ((stranger, none_owns), (t, omega arith, (le, all), inr (0, omega arith, omega arith, et)))
  Finds-older (reuse k) younger (none_owns, (t, le, all, inr (d, ek, lt, et))) = (
    (stranger, none_owns),
    (t, omega arith, (le, all), inr (suc d, omega arith, omega arith, et)),
  )

  Finds-same :
      (r : Found)
      → age ≤ item.timestamp
      → Finds ip port (suc i) oldest age items r
      → Finds ip port i oldest age (item ∷ items) r
  unfolding item_at
  Finds-same (hit k) older (d, e, (lt, before, own)) =
      (suc d, omega arith, (omega arith, (stranger, before), own))
  Finds-same (reuse k) older (none_owns, (t, le, all, inl (ek, et))) =
      ((stranger, none_owns), (t, le, (omega arith, all), inl (ek, et)))
  Finds-same (reuse k) older (none_owns, (t, le, all, inr (d, ek, lt, et))) = (
    (stranger, none_owns),
    (t, le, (omega arith, all), inr (suc d, omega arith, omega arith, et)),
  )

pub find_item-Finds :
    (ip port i oldest age : ℕ) (items : List ReplyInfo)
    → Finds ip port i oldest age items (find_item ip port i oldest age items)
unfolding find_item item_at
find_item-Finds ip port i oldest age [] = (tt, (age, omega arith, tt, inl (refl, refl)))
find_item-Finds ip port i oldest age (item ∷ items) = elim (Bool-cases (owns ip port item)) [
  | inl own ↦ rw own (0, omega arith, (omega arith, tt, own))
  | inr stranger ↦ elim (Bool-cases (ltb item.timestamp age)) [
    | inl lt ↦
        rw (stranger, lt)
          (Finds-older ip port i oldest age item items stranger _ (ground arith)
            (find_item-Finds ip port (suc i) i item.timestamp items))
    | inr ge ↦
        rw (stranger, ge)
          (Finds-same ip port i oldest age item items stranger _ (ground arith)
            (find_item-Finds ip port (suc i) oldest age items))
  ]
]

-- Where there is a first item of the client, the loop ends there.
pub find_item-IsFirst :
    (ip port i oldest age : ℕ) (items : List ReplyInfo) (d : ℕ)
    → IsFirst ip port items d
    → find_item ip port i oldest age items ≡ hit (i + d)
unfolding find_item item_at
find_item-IsFirst ip port i oldest age [] d f = absurd (omega arith)
find_item-IsFirst ip port i oldest age (x ∷ xs) zero (lt, before, own) =
    let e : i ≡ i + 0 = omega arith in rw own (ap hit e)
find_item-IsFirst ip port i oldest age (x ∷ xs) (suc d) (lt, (s, before), own) =
    let e : suc i + d ≡ i + suc d = omega arith in
    let f : IsFirst ip port xs d = (omega arith, before, own) in
    ground (
      arith,
      e,
      find_item-IsFirst ip port (suc i) i x.timestamp xs d f,
      find_item-IsFirst ip port (suc i) oldest age xs d f,
    )

-- Writing an item of the client at its place keeps the place.
pub IsFirst-set :
    (ip port : ℕ) (items : List ReplyInfo) (d : ℕ) (x : ReplyInfo)
    → d < length items
    → StrangersBefore ip port d items
    → owns ip port x ≡ true
    → IsFirst ip port (set items d x) d
unfolding item_at
IsFirst-set ip port [] d x lt before own = absurd (omega arith)
IsFirst-set ip port (y ∷ ys) zero x lt before own = (omega arith, tt, own)
IsFirst-set ip port (y ∷ ys) (suc d) x lt (s, before) own =
    let (l, b, o) = IsFirst-set ip port ys d x (omega arith) before own in (omega arith, (s, b), o)

-- Nor does it touch the first item of another client.
pub IsFirst-set_ne :
    (ip port : ℕ) (items : List ReplyInfo) (d k : ℕ) (x : ReplyInfo)
    → IsFirst ip port items k
    → d ≢ k
    → owns ip port x ≡ false
    → IsFirst ip port (set items d x) k × (item_at (set items d x) k ≡ item_at items k)
unfolding item_at
IsFirst-set_ne ip port [] d k x (lt, b, o) ne s = absurd (omega arith)
IsFirst-set_ne ip port (y ∷ ys) zero zero x f ne s = absurd (ne refl)
IsFirst-set_ne ip port (y ∷ ys) zero (suc k) x (lt, b, o) ne s = ((lt, (s, b.1), o), refl)
IsFirst-set_ne ip port (y ∷ ys) (suc d) zero x (lt, b, o) ne s = ((omega arith, tt, o), refl)
IsFirst-set_ne ip port (y ∷ ys) (suc d) (suc k) x (lt, b, o) ne s =
    let ((l, b', o'), e) =
      IsFirst-set_ne ip port ys d k x (omega arith, b.1, o) (λ e. ne (ap suc e)) s in
    ((omega arith, (b.0, b'), o'), e)

pub Strangers-before :
    (ip port n : ℕ) (items : List ReplyInfo)
    → Strangers ip port items
    → StrangersBefore ip port n items
Strangers-before ip port zero items s = tt
Strangers-before ip port (suc n) [] s = tt
Strangers-before ip port (suc n) (x ∷ xs) (s, rest) = (s, Strangers-before ip port n xs rest)

pub item_at-set :
    (items : List ReplyInfo) (d : ℕ) (x : ReplyInfo)
    → d < length items
    → item_at (set items d x) d ≡ x
unfolding item_at
item_at-set [] d x h = absurd (omega arith)
item_at-set (y ∷ ys) zero x h = refl
item_at-set (y ∷ ys) (suc d) x h = item_at-set ys d x (omega arith)

pub owns-claim : (ip port : ℕ) (x : ReplyInfo) → owns ip port (claim ip port x) ≡ true
owns-claim ip port x = ground arith
