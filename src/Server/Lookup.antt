-- ===== src/Server/Lookup.antt =====
-- `ReplyCache::get_reply_info`: which item it returns, and what it leaves alone.
use net_mount.Base.{
  ℕ, zero, suc, ◌≤◌, ◌<◌, ◌≡◌, ◌≢◌, ◌⊎◌, refl, sym, subst, List, [], ◌∷◌, false, arith, length,
  length-set, inl, inr, All,
}
use net_mount.Server.Cache.{
  Strangers, IsFirst, Finds, find_item-Finds, find_item-IsFirst, IsFirst-set, IsFirst-set_ne,
  Strangers-before, owns-claim,
}
use net_mount.Server.{
  ReplyInfo, Found, hit, reuse, owns, find_item, claim, item_at, settle, get_reply_info,
}

settle-IsFirst :
    (ip port age : ℕ) (items : List ReplyInfo) (r : Found)
    → 0 < length items
    → Finds ip port 0 0 age items r
    → IsFirst ip port (settle ip port items r).1 (settle ip port items r).0
settle-IsFirst ip port age items (hit k) pos (d, e, f) =
    let e' : k ≡ d = omega arith in subst (IsFirst ip port items) (sym e') f
settle-IsFirst ip port age items (reuse k) pos (s, (t, le, all, inl (e, _))) =
    IsFirst-set ip port items k (claim ip port (item_at items k)) (omega arith)
      (Strangers-before ip port k items s) (owns-claim ip port (item_at items k))
settle-IsFirst ip port age items (reuse k) pos (s, (t, le, all, inr (d, e, lt, _))) =
    IsFirst-set ip port items k (claim ip port (item_at items k)) (omega arith)
      (Strangers-before ip port k items s) (owns-claim ip port (item_at items k))

Strangers-item_at :
    (ip port d : ℕ) (items : List ReplyInfo)
    → d < length items
    → Strangers ip port items
    → owns ip port (item_at items d) ≡ false
unfolding item_at
Strangers-item_at ip port d [] lt s = absurd (omega arith)
Strangers-item_at ip port zero (x ∷ xs) lt s = s.0
Strangers-item_at ip port (suc d) (x ∷ xs) lt s = Strangers-item_at ip port d xs (omega arith) s.1

settle_oldest :
    (ip port : ℕ) (items : List ReplyInfo) (r : Found)
    → Finds ip port 0 0 (item_at items 0).timestamp items r
    → Strangers ip port items
    → All (λ item. (item_at items (settle ip port items r).0).timestamp ≤ item.timestamp) items
settle_oldest ip port items (hit k) (d, e, (lt, b, o)) s =
    absurd (cc (Strangers-item_at ip port d items lt s))
settle_oldest ip port items (reuse k) (n, (t, le, all, inl (ek, et))) s =
    let e : (item_at items k).timestamp ≡ t = rw (ek, et) in
    subst (λ (m : ℕ). All (λ item. m ≤ item.timestamp) items) (sym e) all
settle_oldest ip port items (reuse k) (n, (t, le, all, inr (d, ek, lt, et))) s =
    let ed : k ≡ d = omega arith in
    let e : (item_at items k).timestamp ≡ t = rw (ed, et) in
    subst (λ (m : ℕ). All (λ item. m ≤ item.timestamp) items) (sym e) all

module _ (ip port : ℕ) (items : List ReplyInfo) where
  abbrev found : Found
  found = find_item ip port 0 0 (item_at items 0).timestamp items

  abbrev finds : Finds ip port 0 0 (item_at items 0).timestamp items found
  finds = find_item-Finds ip port 0 0 (item_at items 0).timestamp items

  -- In a cache that is not empty, the item that is returned is inside the array, belongs to the
  -- client, and is the first that does.
  pub get_reply_info-IsFirst :
      0 < length items
      → IsFirst ip port (get_reply_info ip port items).1 (get_reply_info ip port items).0
  unfolding get_reply_info
  get_reply_info-IsFirst pos =
      settle-IsFirst ip port (item_at items 0).timestamp items found pos finds

  -- A client that has an item gets it, and nothing changes.
  pub get_reply_info-known :
      (d : ℕ) → IsFirst ip port items d → get_reply_info ip port items ≡ (d, items)
  unfolding get_reply_info
  get_reply_info-known d f =
      rw (find_item-IsFirst ip port 0 0 (item_at items 0).timestamp items d f) (ground arith)

  pub length-get_reply_info : length (get_reply_info ip port items).1 ≡ length items
  unfolding get_reply_info
  length-get_reply_info = by_found found
    where
      by_found : (r : Found) → length (settle ip port items r).1 ≡ length items
      by_found (hit k) = refl
      by_found (reuse k) = length-set items k (claim ip port (item_at items k))

  -- For a client that has no item, the one that is returned had a timestamp that is not younger
  -- than that of any other item.
  pub get_reply_info_oldest :
      Strangers ip port items
      → All
          (λ item. (item_at items (get_reply_info ip port items).0).timestamp ≤ item.timestamp)
          items
  unfolding get_reply_info
  get_reply_info_oldest = settle_oldest ip port items found finds

  -- A client with another address or another port, whose first item is not the one that is
  -- returned, still has its first item there, with the same contents.
  pub get_reply_info_others :
      (ip' port' k : ℕ)
      → (ip ≢ ip') ⊎ (port ≢ port')
      → IsFirst ip' port' items k
      → (get_reply_info ip port items).0 ≢ k
      → IsFirst ip' port' (get_reply_info ip port items).1 k
        × (item_at (get_reply_info ip port items).1 k ≡ item_at items k)
  unfolding get_reply_info
  get_reply_info_others ip' port' k ne f away = by_found found away
    where
      by_found :
          (r : Found)
          → (settle ip port items r).0 ≢ k
          → IsFirst ip' port' (settle ip port items r).1 k
            × (item_at (settle ip port items r).1 k ≡ item_at items k)
      by_found (hit i) away = (f, refl)
      by_found (reuse i) away =
          IsFirst-set_ne ip' port' items i k (claim ip port (item_at items i)) f away (ground arith)
