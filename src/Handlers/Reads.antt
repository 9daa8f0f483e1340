-- ===== src/Handlers/Reads.antt =====
-- What the handlers of requests that only read leave as it is: the world outside.
use net_mount.Base.{ℕ, List}
use net_mount.Bytes.{Endian}
use net_mount.Proto.{Answer}
use net_mount.Fcb.{FcbFileName}
use net_mount.Drive.{FsPath}
use net_mount.Exec.{Exec, Result, ok, err}
use net_mount.Exec.Keeps.{Keeps, bind-Keeps, try_catch-Keeps, pure-Keeps}
use net_mount.Os.{Os}
use net_mount.Folder.{Share, State}
use net_mount.Folder.Rules.{HasWorld, world_rules, create_server_path-Keeps}
use net_mount.Operations.{recreate}
use net_mount.Operations.Rules.{
  read_rules, write_file-Keeps, set_time-Keeps, make_dir-Keeps, delete_dir-Keeps,
  set_item_attrs-Keeps, rename_file-Keeps, delete_files-Keeps, create-Keeps,
}
use net_mount.Handlers.{guarded, guarded_by, on_path, answer}
use net_mount.Handlers as Handlers
use net_mount.Handlers.Searches.{search_first, template_handle, find_first, find_next}
use net_mount.Handlers.Searches as Searches
use net_mount.Handlers.Opens.{Opened, do_open, opened_answer}

module _ {W : Type 0} {w : W} where
  pub guarded-Keeps :
      (code : ℕ) (m : Exec (State W) Answer)
      → Keeps (HasWorld w) m
      → Keeps (HasWorld w) (guarded code m)
  unfolding guarded
  guarded-Keeps code m k =
      bind-Keeps _ _ (try_catch-Keeps m _ k (λ e. pure-Keeps _)) (λ a. pure-Keeps _)

  pub guarded_by-Keeps :
      (code : ℕ) (m : Exec (State W) Answer)
      → Keeps (HasWorld w) m
      → Keeps (HasWorld w) (guarded_by code m)
  unfolding guarded_by
  guarded_by-Keeps code m k =
      bind-Keeps _ _ (try_catch-Keeps m _ k (λ e. pure-Keeps _)) (λ a. pure-Keeps _)

  pub on_path-Keeps :
      (code : ℕ) (op : FsPath → Exec (State W) Answer) (m : List ℕ)
      → ((p : FsPath) → Keeps (HasWorld w) (op p))
      → Keeps (HasWorld w) (on_path code op m)
  unfolding on_path
  on_path-Keeps code op m k = search (world_rules, guarded-Keeps, k)

pub ruleset reply_rules = (read_rules, guarded-Keeps, guarded_by-Keeps, on_path-Keeps)

module _ (e : Endian) {W : Type 0} {w : W} (os : Os W) (share : Share)
    (to_ascii : List ℕ → List ℕ) where
  pub get_attrs-Keeps : (m : List ℕ) → Keeps (HasWorld w) (Handlers.get_attrs e os share to_ascii m)
  unfolding Handlers.get_attrs
  get_attrs-Keeps m = search reply_rules depth 8

  pub read-Keeps : (m : List ℕ) → Keeps (HasWorld w) (Handlers.read_file e os share to_ascii m)
  unfolding Handlers.read_file
  read-Keeps m = search reply_rules depth 8

  pub lock-Keeps : (m : List ℕ) → Keeps (HasWorld w) (Handlers.lock_file e os share to_ascii m)
  unfolding Handlers.lock_file
  lock-Keeps m = search reply_rules depth 8

  pub disk_info-Keeps :
      (m : List ℕ) → Keeps (HasWorld w) (Handlers.get_disk_info e os share to_ascii m)
  unfolding Handlers.get_disk_info
  disk_info-Keeps m = search reply_rules depth 8

  pub disk_info_large-Keeps :
      (m : List ℕ) → Keeps (HasWorld w) (Handlers.get_disk_info_large e os share to_ascii m)
  unfolding Handlers.get_disk_info_large
  disk_info_large-Keeps m = search reply_rules depth 8

  pub seek-Keeps : (m : List ℕ) → Keeps (HasWorld w) (Handlers.seek_from_end e os share to_ascii m)
  unfolding Handlers.seek_from_end
  seek-Keeps m = search reply_rules depth 8

  pub feature-Keeps :
      (m : List ℕ) → Keeps (HasWorld w) (Handlers.feature_query e os share to_ascii m)
  unfolding Handlers.feature_query
  feature-Keeps m = search reply_rules

  search-Keeps :
      (handle : ℕ) (mask : FcbFileName) (attr nth : ℕ)
      → Keeps (HasWorld w) (Searches.search e os share to_ascii handle mask attr nth)
  unfolding Searches.search
  search-Keeps handle mask attr nth = record { holds = λ s h. h }

  template_handle-Keeps : (p : FsPath) → Keeps (HasWorld w) (template_handle e os share to_ascii p)
  unfolding template_handle
  template_handle-Keeps p = search (reply_rules, create_server_path-Keeps)

  search_first-Keeps :
      (mask : FcbFileName) (attr : ℕ) (start : Result ℕ)
      → Keeps (HasWorld w) (search_first e os share to_ascii mask attr start)
  search_first-Keeps mask attr (ok handle) = search (reply_rules, search-Keeps)
  search_first-Keeps mask attr (err ex) = search reply_rules

  pub find_first-Keeps : (m : List ℕ) → Keeps (HasWorld w) (find_first e os share to_ascii m)
  unfolding find_first
  find_first-Keeps m = search (reply_rules, template_handle-Keeps, search_first-Keeps) depth 8

  pub find_next-Keeps : (m : List ℕ) → Keeps (HasWorld w) (find_next e os share to_ascii m)
  unfolding find_next
  find_next-Keeps m = search (reply_rules, search-Keeps) depth 8

  pub opened_answer-Keeps :
      (p q : FsPath) (o : Opened) → Keeps (HasWorld w) (opened_answer e os share to_ascii p q o)
  unfolding opened_answer
  opened_answer-Keeps p q o = search reply_rules

  pub recreate-Keeps : (p : FsPath) → Keeps (HasWorld w) (recreate os share to_ascii p)
  unfolding recreate
  recreate-Keeps p = search reply_rules

  pub do_open-Keeps :
      (p : FsPath) (attrs : ℕ) → Keeps (HasWorld w) (do_open e os share to_ascii p attrs)
  unfolding do_open
  do_open-Keeps p attrs = search reply_rules depth 8
