-- ===== src/Requests/Drives.antt =====
-- Requests that no drive serves.
use net_mount.Base.{
  ℕ, ◌≡◌, refl, List, Bool, true, not, ◌||◌, ltb, Option, none, some, get_elem?, bit_and,
  Bool-cases, inl, inr,
}
use net_mount.Bytes.{Endian}
use net_mount.Proto.{hdr_at}
use net_mount.Os.{Os}
use net_mount.Requests.{Function, function_of, Drive, Machine, serve_drive, handle}

-- The drive that a request names.
abbrev pub drive_number : Endian → List ℕ → ℕ
drive_number e request = bit_and (hdr_at e request).drive 0x1f

-- No drive is there to serve the request, or no function that it could ask for.
abbrev pub unserved : Option Drive → Option Function → Bool
unserved none function = true
unserved (some drive) none = true
unserved (some drive) (some function) = not drive.share.used

module _ (e : Endian) {W : Type 0} (os : Os W) (to_ascii : List ℕ → List ℕ) where
  serve_drive-unserved :
      (machine : Machine W) (n : ℕ) (drive : Option Drive) (function : Option Function)
      (extended : Bool) (m : List ℕ)
      → unserved drive function ≡ true
      → serve_drive e os to_ascii machine n drive function extended m ≡ (machine, none)
  serve_drive-unserved machine n none function extended m h = refl
  serve_drive-unserved machine n (some drive) none extended m h =
      elim (Bool-cases (not drive.share.used)) [
        | inl unused ↦ rw unused refl
        | inr used ↦ rw used refl
      ]
  serve_drive-unserved machine n (some drive) (some function) extended m h = rw h refl

  -- A request for a drive that is not shared or does not exist, or with a function that the server
  -- does not know, is not answered, and changes nothing.
  pub handle-unserved :
      (machine : Machine W) (request : List ℕ)
      → unserved
          (get_elem? machine.drives (drive_number e request))
          (function_of (hdr_at e request).function)
        ≡ true
      → handle e os to_ascii machine request ≡ (machine, none)
  unfolding handle
  handle-unserved machine request h =
      elim (Bool-cases (machine.ended || ltb (drive_number e request) 2)) [
        | inl low ↦ rw low refl
        | inr high ↦ rw high (serve_drive-unserved machine _ _ _ _ _ h)
      ]
