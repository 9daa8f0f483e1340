-- ===== src/Requests.antt =====
-- netmount-server/netmount-server.cpp, `process_request` behind the reply cache: the drive that a
-- request names, and the switch over its function (the codes are those of shared/dos.h). The drives,
-- each with its settings and its items, and the world outside are what the requests work on.
-- Server.antt takes `handle` as the argument that answers a request.
-- An exception that no handler catches ends the server: the request is not answered, and from then on
-- the server handles nothing.
pub mod ReadOnly
pub mod Drives
pub mod Reading
pub mod Fits
mod Examples
use net_mount.Base.{
  ℕ, zero, suc, List, [], ◌∷◌, Bool, true, false, not, ◌||◌, if◌then◌else◌, ◌==◌, ltb, drop, set,
  bit_and, Option, none, some, get_elem?,
}
use net_mount.Bytes.{Endian, from_little16}
use net_mount.Proto.{Answer, hdr_at, hdr_size, flag_extended_features}
use net_mount.Drive.{Item}
use net_mount.Exec.{Exec, Result, ok, err}
use net_mount.Os.{Os}
use net_mount.Folder.{Share, State}
use net_mount.Handlers as Handlers
use net_mount.Handlers.Searches.{find_first, find_next}
use net_mount.Handlers.Opens.{open_or_create, open_file, create_file, extended_open_create}

pub data Function : Type 0 where
  remove_dir make_dir change_dir close_file read_file write_file lock_unlock_file : Function
  unlock_file disk_info disk_info_large set_attrs get_attrs rename_file delete_file : Function
  find_first_file find_next_file seek_from_end open_existing create extended_open : Function
  feature_query : Function

unfoldable pub function_of : ℕ → Option Function
function_of code =
    if code == 0x01
    then some remove_dir
    else if code == 0x03
    then some make_dir
    else if code == 0x05
    then some change_dir
    else if code == 0x06
    then some close_file
    else if code == 0x08
    then some read_file
    else if code == 0x09
    then some write_file
    else if code == 0x0a
    then some lock_unlock_file
    else if code == 0x0b
    then some unlock_file
    else if code == 0x0c
    then some disk_info
    else if code == 0xa3
    then some disk_info_large
    else if code == 0x0e
    then some set_attrs
    else if code == 0x0f
    then some get_attrs
    else if code == 0x11
    then some rename_file
    else if code == 0x13
    then some delete_file
    else if code == 0x1b
    then some find_first_file
    else if code == 0x1c
    then some find_next_file
    else if code == 0x21
    then some seek_from_end
    else if code == 0x16
    then some open_existing
    else if code == 0x17
    then some create
    else if code == 0x2e
    then some extended_open
    else if code == 0xfe
    then some feature_query
    else none

pub record Drive : Type 0 where
  pub share : Share
  pub items : List Item

-- All drives, the world outside, and whether an exception has ended the server.
pub record Machine (W : Type 0) : Type 0 where
  pub drives : List Drive
  pub world : W
  pub ended : Bool

module _ (e : Endian) {W : Type 0} (os : Os W) (to_ascii : List ℕ → List ℕ) where
  -- The switch. `extended` is the flag of the request, `m` its data.
  unfoldable pub serve : Share → Function → Bool → List ℕ → Exec (State W) (Option Answer)
  serve share remove_dir extended m = Handlers.remove_dir e os share to_ascii m
  serve share make_dir extended m = Handlers.make_dir e os share to_ascii m
  serve share change_dir extended m = Handlers.change_dir e os share to_ascii m
  serve share close_file extended m = Handlers.close_file e os share to_ascii extended m
  serve share read_file extended m = Handlers.read_file e os share to_ascii m
  serve share write_file extended m = Handlers.write_file e os share to_ascii m
  serve share lock_unlock_file extended m = Handlers.lock_file e os share to_ascii m
  serve share unlock_file extended m = Handlers.lock_file e os share to_ascii m
  serve share disk_info extended m = Handlers.get_disk_info e os share to_ascii m
  serve share disk_info_large extended m = Handlers.get_disk_info_large e os share to_ascii m
  serve share set_attrs extended m = Handlers.set_attrs e os share to_ascii m
  serve share get_attrs extended m = Handlers.get_attrs e os share to_ascii m
  serve share rename_file extended m = Handlers.rename_file e os share to_ascii m
  serve share delete_file extended m = Handlers.delete_file e os share to_ascii m
  serve share find_first_file extended m = find_first e os share to_ascii m
  serve share find_next_file extended m = find_next e os share to_ascii m
  serve share seek_from_end extended m = Handlers.seek_from_end e os share to_ascii m
  serve share open_existing extended m = open_or_create e os share to_ascii open_file m
  serve share create extended m = open_or_create e os share to_ascii create_file m
  serve share extended_open extended m = open_or_create e os share to_ascii extended_open_create m
  serve share feature_query extended m = Handlers.feature_query e os share to_ascii m

  abbrev pub reply_of : Result (Option Answer) → Option Answer
  reply_of (ok a) = a
  reply_of (err ex) = none

  abbrev pub is_uncaught : Result (Option Answer) → Bool
  is_uncaught (ok a) = false
  is_uncaught (err ex) = true

  -- The drive's new items, the world and the reply go back into the whole.
  abbrev pub put_back :
      Machine W → ℕ → Drive → Result (Option Answer) × State W → Machine W × Option Answer
  put_back machine n drive (r, s) = (
    record {
      drives = set machine.drives n (record drive { items = s.items });
      world = s.world;
      ended = is_uncaught r;
    },
    reply_of r,
  )

  abbrev pub serve_on :
      Machine W → ℕ → Drive → Option Function → Bool → List ℕ → Machine W × Option Answer
  serve_on machine n drive none extended m = (machine, none)
  serve_on machine n drive (some function) extended m = put_back machine n drive (
      serve drive.share function extended m (record { items = drive.items; world = machine.world }))

  abbrev pub serve_drive :
      Machine W → ℕ → Option Drive → Option Function → Bool → List ℕ → Machine W × Option Answer
  serve_drive machine n none function extended m = (machine, none)
  serve_drive machine n (some drive) function extended m =
      if not drive.share.used then (machine, none) else serve_on machine n drive function extended m

  unfoldable pub handle : Machine W → List ℕ → Machine W × Option Answer
  handle machine request =
      let h = hdr_at e request in
      let reqdrv = bit_and h.drive 0x1f in
      let extended = not (bit_and (from_little16 e h.length_flags) flag_extended_features == 0) in
      if machine.ended || ltb reqdrv 2
      then (machine, none)
      else serve_drive machine reqdrv (get_elem? machine.drives reqdrv) (function_of h.function)
          extended (drop hdr_size request)

abbrev pub drive_read_only : Option Drive → Bool
drive_read_only none = false
drive_read_only (some drive) = drive.share.read_only

-- `drives[n].is_read_only()`
unfoldable pub is_read_only : {W : Type 0} → Machine W → ℕ → Bool
is_read_only machine n = drive_read_only (get_elem? machine.drives n)
