-- ===== src/Folder/Rules.antt =====
-- Looking for paths leaves the world outside as it is.
use net_mount.Base.{ℕ, zero, suc, ◌≡◌, List, [], ◌∷◌, Bool, Option, none, some}
use net_mount.Fcb.{FcbFileName}
use net_mount.Drive.{FsPath, DosFileProperties, Item}
use net_mount.Exec.{Exec}
use net_mount.Exec.Keeps.{
  Keeps, keeps_rules, pure-Keeps, throw-Keeps, ask-Keeps, look-Keeps, if-Keeps, try_catch-Keeps,
  bind-Keeps, throw_if-Keeps,
}
use net_mount.Os.{Os, is_there}
use net_mount.Folder.{
  Share, State, on_world, modify, handle_of, get_server_name, check_entry, next_part, walk,
  direct_path, path_at_depth, create_server_path,
}

-- The world is `w`.
abbrev pub HasWorld : {W : Type 0} → W → State W → Type 0
HasWorld w s = s.world ≡ w

module _ {W : Type 0} {w : W} where
  pub on_world-Keeps :
      {A : Type 0} (m : Exec W A) → Keeps (λ (v : W). v ≡ w) m → Keeps (HasWorld w) (on_world m)
  on_world-Keeps m k = record { holds = λ s h. k.holds s.world h }

  pub modify-Keeps : (f : State W → List Item) → Keeps (HasWorld w) (modify f)
  modify-Keeps f = record { holds = λ s h. h }

module _ {W : Type 0} {w : W} (os : Os W) where
  pub is_there-Keeps : (p : FsPath) → Keeps (λ (v : W). v ≡ w) (is_there os p)
  unfolding is_there
  is_there-Keeps p = search keeps_rules

  pub handle_of-Keeps : (p : FsPath) → Keeps (HasWorld w) (handle_of os p)
  unfolding handle_of
  handle_of-Keeps p = record { holds = λ s h. h }

pub ruleset world_rules =
    (keeps_rules, on_world-Keeps, modify-Keeps, is_there-Keeps, handle_of-Keeps)

module _ {W : Type 0} {w : W} (os : Os W) (share : Share) (to_ascii : List ℕ → List ℕ) where
  check_entry-Keeps :
      (handle : ℕ) (fcb : FcbFileName) (path : FsPath) (found : Option DosFileProperties)
      → Keeps (HasWorld w) (check_entry os share to_ascii handle fcb path found)
  check_entry-Keeps handle fcb path none = search world_rules
  check_entry-Keeps handle fcb path (some entry) = search world_rules

  get_server_name-Keeps :
      (handle : ℕ) (fcb : FcbFileName) (again : Bool)
      → Keeps (HasWorld w) (get_server_name os share to_ascii handle fcb again)
  unfolding get_server_name
  get_server_name-Keeps handle fcb again = search (world_rules, check_entry-Keeps)

  next_part-Keeps :
      (server_path : FsPath) (part : List ℕ) (name rest : FsPath)
      (go_on : FsPath → Exec (State W) (FsPath × Bool))
      → ((p : FsPath) → Keeps (HasWorld w) (go_on p))
      → Keeps (HasWorld w) (next_part os share to_ascii server_path part name rest go_on)
  next_part-Keeps server_path part [] [] go_on k = search world_rules
  next_part-Keeps server_path part [] (_ ∷ _) go_on k = search world_rules
  next_part-Keeps server_path part (n ∷ name) [] go_on k = search world_rules
  next_part-Keeps server_path part (n ∷ name) (_ ∷ _) go_on k = k _

  walk-Keeps :
      (again : Bool) (client_path server_path : FsPath)
      → Keeps (HasWorld w) (walk os share to_ascii again client_path server_path)
  unfolding walk
  walk-Keeps again [] server_path = search world_rules
  walk-Keeps again (part ∷ rest) server_path =
      let ih = walk-Keeps again rest in
      search (world_rules, get_server_name-Keeps, next_part-Keeps, ih)

  direct_path-Keeps : (p : FsPath) → Keeps (HasWorld w) (direct_path os share to_ascii p)
  unfolding direct_path
  direct_path-Keeps p = search world_rules

  path_at_depth-Keeps :
      (again : Bool) (p : FsPath) (depth : Option ℕ)
      → Keeps (HasWorld w) (path_at_depth os share to_ascii again p depth)
  path_at_depth-Keeps again p none = search world_rules
  path_at_depth-Keeps again p (some zero) = search world_rules
  path_at_depth-Keeps again p (some (suc depth)) =
      search (world_rules, direct_path-Keeps, walk-Keeps)

  pub create_server_path-Keeps :
      (p : FsPath) (again : Bool)
      → Keeps (HasWorld w) (create_server_path os share to_ascii p again)
  unfolding create_server_path
  create_server_path-Keeps p again = search (world_rules, path_at_depth-Keeps)
