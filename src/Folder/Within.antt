-- ===== src/Folder/Within.antt =====
-- Where the paths on the server lie: at the root of the share or behind it.
use net_mount.Base.{
  ℕ, zero, suc, ◌≡◌, refl, ap, List, [], ◌∷◌, ◌++◌, append_assoc, Bool, true, false, inl, inr, ◌⊎◌,
  All, Option, none, some, Bool-cases, not,
}
use net_mount.Fcb.{FcbFileName, short_name_to_fcb}
use net_mount.Drive.{FsPath, DosFileProperties, Item, is_empty, get_item_or_blank}
use net_mount.Exec.{Exec, throw_if, dos_error, look}
use net_mount.Exec.Runs.{Runs, state-Runs, pure-Runs, throw-Runs, look-Runs, if-Runs, bind-Runs}
use net_mount.Os.{Os, is_there, path_not_found}
use net_mount.Folder.{
  Share, State, append, close, is_slash, is_off, create_server_path, path_at_depth, direct_path,
  walk, next_part, get_server_name, check_entry, handle_of, on_world, modify, refresh, forget,
}
use net_mount.Folder.Names.{
  IsName, AreNames, HasNames, FoundName, GivesNames, find_named-FoundName, get_handle-HasNames,
  refresh-HasNames, forget-HasNames, item-AreNames,
}

-- `p` is `root`, or follows the directory `root` with at least one more part.
abbrev pub Behind : FsPath → FsPath → Type 0
Behind root p = (p ≡ root) ⊎ ((part : List ℕ) × (rest : FsPath) × (p ≡ close root ++ part ∷ rest))

close-append :
    (xs : FsPath) (y : List ℕ) (ys : FsPath) → close (xs ++ y ∷ ys) ≡ xs ++ close (y ∷ ys)
close-append [] y ys = refl
close-append (x ∷ []) y ys = refl
close-append (x ∷ x' ∷ xs) y ys = ap (λ (l : FsPath). x ∷ l) (close-append (x' ∷ xs) y ys)

append-Behind :
    (root p : FsPath) (n : List ℕ) (name : FsPath)
    → is_slash n ≡ false
    → Behind root p
    → Behind root (append p (n ∷ name))
unfolding append
append-Behind root p n name plain (inl same) = rw (plain, same) (inr (n, name, refl))
append-Behind root p n name plain (inr (part, rest, same)) =
    rw (plain, same, close-append (close root) part rest)
      (rw (append_assoc (close root) (close (part ∷ rest)) (n ∷ name))
        (by_close (close (part ∷ rest))))
  where
    by_close : (c : FsPath) → Behind root (close root ++ (c ++ n ∷ name))
    by_close [] = inr (n, name, refl)
    by_close (x ∷ c) = inr (x, c ++ n ∷ name, refl)

-- The parts of a path that a client sends.
abbrev pub ArePlain : FsPath → Type 0
ArePlain = All (λ (part : List ℕ). is_slash part ≡ false)

abbrev Named : {W : Type 0} → State W → Type 0
Named s = HasNames s.items

module _ {W : Type 0} (os : Os W) (share : Share) (to_ascii : List ℕ → List ℕ)
    (gives : GivesNames os) where
  check_entry-Runs :
      (handle : ℕ) (fcb : FcbFileName) (path : FsPath) (found : Option DosFileProperties)
      → FoundName found
      → Runs Named IsName (check_entry os share to_ascii handle fcb path found)
  check_entry-Runs handle fcb path none h = pure-Runs [] refl
  check_entry-Runs handle fcb path (some entry) h =
      bind-Runs (λ (b : Bool). Unit) (on_world (is_there os (append path entry.server_name))) _
        (state-Runs _ (λ s k. k))
        (λ b u. if-Runs b _ _ (pure-Runs entry.server_name h) (
          bind-Runs (λ (u : Unit). Unit) (modify (forget os share to_ascii handle fcb)) _
            (state-Runs _ (λ s k. forget-HasNames os share to_ascii handle fcb s k))
            (λ v w. pure-Runs [] refl)))

  get_server_name-Runs :
      (handle : ℕ) (fcb : FcbFileName) (again : Bool)
      → Runs Named IsName (get_server_name os share to_ascii handle fcb again)
  unfolding get_server_name
  get_server_name-Runs handle fcb again =
      bind-Runs (λ (u : Unit). Unit) (modify (refresh os share to_ascii again handle)) _
        (state-Runs _ (λ s k. refresh-HasNames os share to_ascii again handle s gives k))
        (λ u v.
          bind-Runs (λ (item : Item). AreNames item.directory_list)
            (look (λ (s : State W). get_item_or_blank s.items handle)) _
            (look-Runs _ (λ s k. item-AreNames s.items handle k))
            (λ item k. check_entry-Runs handle fcb item.path _ (find_named-FoundName fcb _ k)))

  next_part-Runs :
      (p : FsPath) (part : List ℕ) (name rest : FsPath)
      (go_on : FsPath → Exec (State W) (FsPath × Bool))
      → Behind share.root p
      → is_slash part ≡ false
      → IsName name
      → ((q : FsPath)
          → Behind share.root q
          → Runs Named (λ (r : FsPath × Bool). Behind share.root r.0) (go_on q))
      → Runs Named
          (λ (r : FsPath × Bool). Behind share.root r.0)
          (next_part os share to_ascii p part name rest go_on)
  next_part-Runs p part [] [] go_on h plain named k =
      pure-Runs _ (append-Behind share.root p part [] plain h)
  next_part-Runs p part [] (x ∷ rest) go_on h plain named k = throw-Runs _
  next_part-Runs p part (n ∷ name) [] go_on h plain named k =
      pure-Runs _ (append-Behind share.root p n name named h)
  next_part-Runs p part (n ∷ name) (x ∷ rest) go_on h plain named k =
      k (append p (n ∷ name)) (append-Behind share.root p n name named h)

  walk-Runs :
      (again : Bool) (client_path p : FsPath)
      → ArePlain client_path
      → Behind share.root p
      → Runs Named
          (λ (r : FsPath × Bool). Behind share.root r.0)
          (walk os share to_ascii again client_path p)
  unfolding walk
  walk-Runs again [] p plain h = pure-Runs (p, true) h
  walk-Runs again (part ∷ rest) p plain h =
      let ih = walk-Runs again rest in
      bind-Runs (λ (n : ℕ). Unit) (handle_of os p) _ (state-Runs _ (λ s k. handle_of-Named p s k))
        (λ handle u.
          bind-Runs IsName (get_server_name os share to_ascii handle (short_name_to_fcb part) again)
            _ (get_server_name-Runs handle (short_name_to_fcb part) again)
            (λ name named.
              next_part-Runs p part name rest (walk os share to_ascii again rest) h plain.0 named
                (λ q b. ih q plain.1 b)))
    where
      handle_of-Named : (p : FsPath) (s : State W) → Named s → Named (handle_of os p s).1
      handle_of-Named p s k = unfold handle_of in get_handle-HasNames (os.now s.world) p s.items k

  direct_path-Runs :
      (p : FsPath)
      → Behind share.root p
      → Runs Named (λ (r : FsPath × Bool). Behind share.root r.0) (direct_path os share to_ascii p)
  unfolding direct_path
  direct_path-Runs p h =
      bind-Runs (λ (b : Bool). Unit) _ _ (state-Runs _ (λ s k. k))
        (λ parent u.
          bind-Runs (λ (v : Unit). Unit) _ _
            (state-Runs (throw_if (not parent) _) (throw_if-Named (not parent)))
            (λ v x.
              bind-Runs (λ (b : Bool). Unit) (on_world (is_there os p)) _ (state-Runs _ (λ s k. k))
                (λ there y. pure-Runs (p, there) h)))
    where
      throw_if-Named :
          (b : Bool) (s : State W)
          → Named s
          → Named (throw_if {S = State W} b (dos_error path_not_found) s).1
      throw_if-Named true s k = k
      throw_if-Named false s k = k

  direct-Runs :
      (client_path : FsPath)
      → ArePlain client_path
      → is_empty client_path ≡ false
      → Runs Named
          (λ (r : FsPath × Bool). Behind share.root r.0)
          (direct_path os share to_ascii (append share.root client_path))
  direct-Runs [] plain some_part = absurd (true≢false some_part)
    where
      true≢false : ¬ (true ≡ false)
      true≢false p = cc
  direct-Runs (part ∷ rest) plain some_part =
      direct_path-Runs _ (append-Behind share.root share.root part rest plain.0 (inl refl))

  path_at_depth-Runs :
      (again : Bool) (client_path : FsPath) (depth : Option ℕ)
      → ArePlain client_path
      → is_empty client_path ≡ false
      → Runs Named
          (λ (r : FsPath × Bool). Behind share.root r.0)
          (path_at_depth os share to_ascii again client_path depth)
  path_at_depth-Runs again client_path none plain some_part = throw-Runs _
  path_at_depth-Runs again client_path (some zero) plain some_part =
      pure-Runs (share.root, true) (inl refl)
  path_at_depth-Runs again client_path (some (suc depth)) plain some_part =
      if-Runs (is_off share.name_conversion) _ _ (direct-Runs client_path plain some_part)
        (walk-Runs again client_path share.root plain (inl refl))

  pub create_server_path-Runs :
      (client_path : FsPath) (again : Bool)
      → ArePlain client_path
      → Runs Named
          (λ (r : FsPath × Bool). Behind share.root r.0)
          (create_server_path os share to_ascii client_path again)
  unfolding create_server_path
  create_server_path-Runs client_path again plain = elim (Bool-cases (is_empty client_path)) [
    | inl nothing ↦ rw nothing (pure-Runs (share.root, true) (inl refl))
    | inr parts ↦ rw parts (path_at_depth-Runs again client_path _ plain parts)
  ]
