-- ===== src/Requests/Fits.antt =====
-- The answers of the server fit into its arrays, but for READ_FILE.
use net_mount.Base.{
  ℕ, ◌≤◌, ◌≡◌, List, Bool, not, ◌||◌, ltb, length, Option, none, some, bit_and, Bool-cases, inl,
  inr, drop, arith,
}
use net_mount.Bytes.{Endian}
use net_mount.Proto.{Answer, hdr_at, hdr_size, check_request}
use net_mount.Exec.{Result, ok, err}
use net_mount.Exec.Returns.{Returns, Holds}
use net_mount.Os.{Os}
use net_mount.Folder.{Share, State}
use net_mount.Server.{Server, receive_packet, packet_capacity}
use net_mount.Server.Fault.{HasRoom, AreStored, IsSafe, content_capacity, served-IsSafe}
use net_mount.Handlers.{field16}
use net_mount.Handlers.Sizes.{AnswerFits, most_content}
use net_mount.Handlers.Fits.{
  ReadsFit, read_file-fits, make_dir-fits, remove_dir-fits, change_dir-fits, delete_file-fits,
  get_attrs-fits, set_attrs-fits, rename_file-fits, close_file-fits, write_file-fits,
  lock_file-fits, get_disk_info-fits, get_disk_info_large-fits, seek_from_end-fits,
  feature_query-fits, find_first-fits, find_next-fits, open_or_create-fits,
}
use net_mount.Handlers.Opens.{open_file, create_file, extended_open_create}
use net_mount.Requests.{
  Function, remove_dir, make_dir, change_dir, close_file, read_file, write_file, lock_unlock_file,
  unlock_file, disk_info, disk_info_large, set_attrs, get_attrs, rename_file, delete_file,
  find_first_file, find_next_file, seek_from_end, open_existing, create, extended_open,
  feature_query, function_of, Drive, Machine, serve, serve_on, serve_drive, put_back, handle,
  is_read_only,
}

-- How many bytes of data the answer to a function has at most: READ_FILE asks for them.
abbrev pub data_limit : Endian → Option Function → List ℕ → ℕ
data_limit e none m = most_content
data_limit e (some read_file) m = field16 e m 6
data_limit e (some other) m = most_content

abbrev pub request_limit : Endian → List ℕ → ℕ
request_limit e request =
    data_limit e (function_of (hdr_at e request).function) (drop hdr_size request)

module _ (e : Endian) {W : Type 0} (os : Os W) (to_ascii : List ℕ → List ℕ)
    (reads : ReadsFit os) where
  serve-fits :
      (share : Share) (function : Function) (extended : Bool) (m : List ℕ)
      → Returns
          (AnswerFits (data_limit e (some function) m))
          (serve e os to_ascii share function extended m)
  unfolding serve
  serve-fits share remove_dir x m = remove_dir-fits e os share to_ascii m
  serve-fits share make_dir x m = make_dir-fits e os share to_ascii m
  serve-fits share change_dir x m = change_dir-fits e os share to_ascii m
  serve-fits share close_file x m = close_file-fits e os share to_ascii x m
  serve-fits share read_file x m = read_file-fits e os share to_ascii m reads
  serve-fits share write_file x m = write_file-fits e os share to_ascii m
  serve-fits share lock_unlock_file x m = lock_file-fits e os share to_ascii m
  serve-fits share unlock_file x m = lock_file-fits e os share to_ascii m
  serve-fits share disk_info x m = get_disk_info-fits e os share to_ascii m
  serve-fits share disk_info_large x m = get_disk_info_large-fits e os share to_ascii m
  serve-fits share set_attrs x m = set_attrs-fits e os share to_ascii m
  serve-fits share get_attrs x m = get_attrs-fits e os share to_ascii m
  serve-fits share rename_file x m = rename_file-fits e os share to_ascii m
  serve-fits share delete_file x m = delete_file-fits e os share to_ascii m
  serve-fits share find_first_file x m = find_first-fits e os share to_ascii m
  serve-fits share find_next_file x m = find_next-fits e os share to_ascii m
  serve-fits share seek_from_end x m = seek_from_end-fits e os share to_ascii m
  serve-fits share open_existing x m = open_or_create-fits e os share to_ascii open_file m
  serve-fits share create x m = open_or_create-fits e os share to_ascii create_file m
  serve-fits share extended_open x m =
      open_or_create-fits e os share to_ascii extended_open_create m
  serve-fits share feature_query x m = feature_query-fits e os share to_ascii m

  put_back-fits :
      (machine : Machine W) (n limit : ℕ) (drive : Drive) (r : Result (Option Answer) × State W)
      → Holds (AnswerFits limit) r.0
      → AnswerFits limit (put_back e os to_ascii machine n drive r).1
  put_back-fits machine n limit drive (ok a, s) h = h
  put_back-fits machine n limit drive (err ex, s) h = tt

  serve_on-fits :
      (machine : Machine W) (n : ℕ) (drive : Drive) (function : Option Function) (extended : Bool)
      (m : List ℕ)
      → AnswerFits
          (data_limit e function m)
          (serve_on e os to_ascii machine n drive function extended m).1
  serve_on-fits machine n drive none extended m = tt
  serve_on-fits machine n drive (some function) extended m =
      put_back-fits machine n (data_limit e (some function) m) drive
        (serve e os to_ascii drive.share function extended m
          (record { items = drive.items; world = machine.world }))
        ((serve-fits drive.share function extended m).value _)

  serve_drive-fits :
      (machine : Machine W) (n : ℕ) (drive : Option Drive) (function : Option Function)
      (extended : Bool) (m : List ℕ)
      → AnswerFits
          (data_limit e function m)
          (serve_drive e os to_ascii machine n drive function extended m).1
  serve_drive-fits machine n none function extended m = tt
  serve_drive-fits machine n (some drive) function extended m =
      elim (Bool-cases (not drive.share.used)) [
        | inl unused ↦ rw unused tt
        | inr used ↦ rw used (serve_on-fits machine n drive function extended m)
      ]

  pub handle-fits :
      (machine : Machine W) (request : List ℕ)
      → AnswerFits (request_limit e request) (handle e os to_ascii machine request).1
  unfolding handle
  handle-fits machine request =
      elim (Bool-cases (machine.ended || ltb (bit_and (hdr_at e request).drive 0x1f) 2)) [
        | inl low ↦ rw low tt
        | inr high ↦ rw high (serve_drive-fits machine _ _ _ _ _)
      ]

  HasRoom-AnswerFits :
      (limit : ℕ) (a : Option Answer) → limit ≤ content_capacity → AnswerFits limit a → HasRoom a
  HasRoom-AnswerFits limit none le h = tt
  HasRoom-AnswerFits limit (some a) le h = omega (arith, le, h)

  -- Let a packet of at most 1500 bytes arrive at the server, where each reply in the cache fits its
  -- array, and where reading a file gives at most the bytes that are asked for. Unless the packet is
  -- a request of READ_FILE for more than 1492 bytes, nothing is written beyond the arrays of the
  -- cache, and the replies in the cache still fit.
  pub receive_packet-IsSafe :
      (now ip port : ℕ) (packet : List ℕ) (s : Server (Machine W))
      → length packet ≤ packet_capacity
      → AreStored s.cache
      → ((request : List ℕ) (ck : Bool)
          → check_request e packet ≡ some (request, ck)
          → request_limit e request ≤ content_capacity)
      → IsSafe (receive_packet e (handle e os to_ascii) is_read_only now ip port packet s)
  receive_packet-IsSafe now ip port packet s small stored within =
      served-IsSafe e (handle e os to_ascii) is_read_only now ip port packet s small stored
        (λ request ck checked.
          HasRoom-AnswerFits (request_limit e request) _ (within request ck checked)
            (handle-fits s.world request))
