-- ===== src/Handlers/Protected.antt =====
-- On a drive that is read-only, no request but CHANGE_DIR changes the world outside.
use net_mount.Base.{ℕ, ◌≡◌, List, Bool, true, false}
use net_mount.Bytes.{Endian}
use net_mount.Drive.{FsPath, DosFileProperties}
use net_mount.Exec.Keeps.{Keeps}
use net_mount.Os.{Os}
use net_mount.Folder.{Share}
use net_mount.Folder.Rules.{HasWorld}
use net_mount.Operations.Rules.{
  write_file-Keeps, set_time-Keeps, make_dir-Keeps, delete_dir-Keeps, set_item_attrs-Keeps,
  rename_file-Keeps, delete_files-Keeps, create-Keeps,
}
use net_mount.Handlers.{guarded, guarded_by, on_path, answer}
use net_mount.Handlers as Handlers
use net_mount.Handlers.Opens.{
  OpenKind, open_file, create_file, extended_open_create, do_create, create_new, open_old,
  do_extended, do_kind, open_in, open_or_create,
}
use net_mount.Handlers.Reads.{reply_rules, recreate-Keeps, do_open-Keeps, opened_answer-Keeps}

module _ (e : Endian) {W : Type 0} {w : W} (os : Os W) (share : Share) (to_ascii : List ℕ → List ℕ)
    (protected : share.read_only ≡ true) where
  pub make-Keeps : (m : List ℕ) → Keeps (HasWorld w) (Handlers.make_dir e os share to_ascii m)
  unfolding Handlers.make_dir
  make-Keeps m = search (reply_rules, make_dir-Keeps) depth 8

  pub remove-Keeps : (m : List ℕ) → Keeps (HasWorld w) (Handlers.remove_dir e os share to_ascii m)
  unfolding Handlers.remove_dir
  remove-Keeps m = search (reply_rules, delete_dir-Keeps) depth 8

  pub delete-Keeps : (m : List ℕ) → Keeps (HasWorld w) (Handlers.delete_file e os share to_ascii m)
  unfolding Handlers.delete_file
  delete-Keeps m = search (reply_rules, delete_files-Keeps) depth 8

  pub set_attrs-Keeps : (m : List ℕ) → Keeps (HasWorld w) (Handlers.set_attrs e os share to_ascii m)
  unfolding Handlers.set_attrs
  set_attrs-Keeps m = search (reply_rules, set_item_attrs-Keeps) depth 8

  pub rename-Keeps : (m : List ℕ) → Keeps (HasWorld w) (Handlers.rename_file e os share to_ascii m)
  unfolding Handlers.rename_file
  rename-Keeps m = search (reply_rules, rename_file-Keeps) depth 8

  pub write-Keeps : (m : List ℕ) → Keeps (HasWorld w) (Handlers.write_file e os share to_ascii m)
  unfolding Handlers.write_file
  write-Keeps m = search (reply_rules, write_file-Keeps) depth 8

  close_plain-Keeps : (m : List ℕ) → Keeps (HasWorld w) (Handlers.close_plain e os share to_ascii m)
  unfolding Handlers.close_plain
  close_plain-Keeps m = search reply_rules depth 8

  close_extended-Keeps :
      (m : List ℕ) → Keeps (HasWorld w) (Handlers.close_extended e os share to_ascii m)
  unfolding Handlers.close_extended
  close_extended-Keeps m = search (reply_rules, set_time-Keeps) depth 8

  pub close-Keeps :
      (extended : Bool) (m : List ℕ)
      → Keeps (HasWorld w) (Handlers.close_file e os share to_ascii extended m)
  unfolding Handlers.close_file
  close-Keeps true m = search (reply_rules, close_extended-Keeps) depth 9
  close-Keeps false m = search (reply_rules, close_plain-Keeps) depth 9

  do_create-Keeps :
      (p q : FsPath) (attrs : ℕ) → Keeps (HasWorld w) (do_create e os share to_ascii p q attrs)
  unfolding do_create
  do_create-Keeps p q attrs = search (reply_rules, create-Keeps, recreate-Keeps) depth 9

  create_new-Keeps :
      (p q : FsPath) (attrs action mode : ℕ)
      → Keeps (HasWorld w) (create_new e os share to_ascii p q attrs action mode)
  unfolding create_new
  create_new-Keeps p q attrs action mode =
      search (reply_rules, create-Keeps, recreate-Keeps) depth 9

  open_old-Keeps :
      (p : FsPath) (attrs action mode attr : ℕ) (props : DosFileProperties)
      → Keeps (HasWorld w) (open_old e os share to_ascii p attrs action mode attr props)
  unfolding open_old
  open_old-Keeps p attrs action mode attr props = search (reply_rules, create-Keeps) depth 9

  do_extended-Keeps :
      (p q : FsPath) (attrs action mode : ℕ)
      → Keeps (HasWorld w) (do_extended e os share to_ascii p q attrs action mode)
  unfolding do_extended
  do_extended-Keeps p q attrs action mode =
      search (reply_rules, create_new-Keeps, open_old-Keeps) depth 9

  do_kind-Keeps :
      (kind : OpenKind) (p q : FsPath) (attrs action mode : ℕ)
      → Keeps (HasWorld w) (do_kind e os share to_ascii kind p q attrs action mode)
  do_kind-Keeps open_file p q attrs action mode = do_open-Keeps e os share to_ascii q attrs
  do_kind-Keeps create_file p q attrs action mode = do_create-Keeps p q attrs
  do_kind-Keeps extended_open_create p q attrs action mode = do_extended-Keeps p q attrs action mode

  open_in-Keeps :
      (kind : OpenKind) (p : FsPath) (attrs action mode : ℕ)
      → Keeps (HasWorld w) (open_in e os share to_ascii kind p attrs action mode)
  unfolding open_in
  open_in-Keeps kind p attrs action mode =
      search (reply_rules, do_kind-Keeps, opened_answer-Keeps) depth 9

  pub open-Keeps :
      (kind : OpenKind) (m : List ℕ)
      → Keeps (HasWorld w) (open_or_create e os share to_ascii kind m)
  unfolding open_or_create
  open-Keeps kind m = search (reply_rules, open_in-Keeps) depth 8
