-- ===== src/Handlers/Fits.antt =====
-- How many bytes the handlers answer with.
use net_mount.Base.{ℕ, ◌≤◌, List, Bool, true, false, length, some}
use net_mount.Bytes.{Endian}
use net_mount.Fcb.{FcbFileName}
use net_mount.Drive.{FsPath}
use net_mount.Exec.{Exec, Result, ok, err, look, ◌>>=◌}
use net_mount.Exec.Returns.{
  Returns, pure-Returns, throw-Returns, look-Returns, bind-Returns, bind_value-Returns,
  try_catch-Returns, if-Returns,
}
use net_mount.Os.{Os, Transfer, not_opened, not_positioned, moved}
use net_mount.Folder.{Share, State}
use net_mount.Search.{hit, not_found, invalid_handle}
use net_mount.Search as Search
use net_mount.Operations.{moved_or_throw}
use net_mount.Operations as Drive
use net_mount.Handlers as Handlers
use net_mount.Handlers.{field16}
use net_mount.Handlers.Sizes.{
  FitsIn, AnswerFits, most_content, fits_rules, find-fits, none-fits, guarded-fits, refuse-fits,
  done-fits,
}
use net_mount.Handlers.Searches.{find_answer, search_first, find_first, find_next}
use net_mount.Handlers.Opens.{OpenKind, Opened, opened_answer, open_in, open_or_create}

-- Reading gives at most the bytes that are asked for.
abbrev pub TransferFits : ℕ → Transfer (List ℕ) → Type 0
TransferFits len not_opened = Unit
TransferFits len not_positioned = Unit
TransferFits len (moved bytes) = length bytes ≤ len

abbrev pub ReadsFit : {W : Type 0} → Os W → Type 0
ReadsFit {W} os = (p : FsPath) (offset len : ℕ) (w : W) → TransferFits len (os.read p offset len w)

find_answer-fits :
    (e : Endian) (handle : ℕ) (r : Search.Result) → FitsIn most_content (find_answer e handle r)
find_answer-fits e handle (hit props nth) = find-fits e props handle nth
find_answer-fits e handle not_found = none-fits most_content
find_answer-fits e handle invalid_handle = none-fits most_content

module _ {W : Type 0} {len : ℕ} where
  moved_or_throw-Returns :
      (t : Transfer (List ℕ))
      → TransferFits len t
      → Returns {S = State W} (λ (bytes : List ℕ). length bytes ≤ len) (moved_or_throw t)
  moved_or_throw-Returns not_opened h = throw-Returns _
  moved_or_throw-Returns not_positioned h = throw-Returns _
  moved_or_throw-Returns (moved bytes) h = pure-Returns bytes h

module _ (e : Endian) {W : Type 0} (os : Os W) (share : Share) (to_ascii : List ℕ → List ℕ) where
  read_bytes-Returns :
      (handle offset len : ℕ)
      → ReadsFit os
      → Returns
          (λ (bytes : List ℕ). length bytes ≤ len)
          (Drive.read_file os share to_ascii handle offset len)
  unfolding Drive.read_file
  read_bytes-Returns handle offset len fit = search (bind-Returns, transferred)
    where
      transferred :
          (p : FsPath)
          → Returns
              (λ (bytes : List ℕ). length bytes ≤ len)
              (look (λ (s : State W). os.read p offset len s.world) >>= (λ t. moved_or_throw t))
      transferred p =
          bind_value-Returns (TransferFits len) _ _
            (look-Returns (λ (s : State W). os.read p offset len s.world)
              (λ (s : State W). fit p offset len s.world))
            (λ t h. moved_or_throw-Returns t h)

  pub read_file-fits :
      (m : List ℕ)
      → ReadsFit os
      → Returns (AnswerFits (field16 e m 6)) (Handlers.read_file e os share to_ascii m)
  unfolding Handlers.read_file
  read_file-fits m fit =
      let read : Returns (FitsIn (field16 e m 6)) _ =
        bind_value-Returns _ _ _
          (read_bytes-Returns (field16 e m 4) (Handlers.field32 e m 0) (field16 e m 6) fit)
          (λ bytes h. pure-Returns (Handlers.answer 0 bytes) h) in
      if-Returns _ _ _ refuse-fits (guarded-fits _ _ read)

  pub make_dir-fits :
      (m : List ℕ) → Returns (AnswerFits most_content) (Handlers.make_dir e os share to_ascii m)
  unfolding Handlers.make_dir
  make_dir-fits m = search fits_rules

  pub remove_dir-fits :
      (m : List ℕ) → Returns (AnswerFits most_content) (Handlers.remove_dir e os share to_ascii m)
  unfolding Handlers.remove_dir
  remove_dir-fits m = search fits_rules

  pub change_dir-fits :
      (m : List ℕ) → Returns (AnswerFits most_content) (Handlers.change_dir e os share to_ascii m)
  unfolding Handlers.change_dir
  change_dir-fits m = search fits_rules

  pub delete_file-fits :
      (m : List ℕ) → Returns (AnswerFits most_content) (Handlers.delete_file e os share to_ascii m)
  unfolding Handlers.delete_file
  delete_file-fits m = search fits_rules

  pub get_attrs-fits :
      (m : List ℕ) → Returns (AnswerFits most_content) (Handlers.get_attrs e os share to_ascii m)
  unfolding Handlers.get_attrs
  get_attrs-fits m = search fits_rules depth 9

  pub set_attrs-fits :
      (m : List ℕ) → Returns (AnswerFits most_content) (Handlers.set_attrs e os share to_ascii m)
  unfolding Handlers.set_attrs
  set_attrs-fits m = search fits_rules depth 9

  pub rename_file-fits :
      (m : List ℕ) → Returns (AnswerFits most_content) (Handlers.rename_file e os share to_ascii m)
  unfolding Handlers.rename_file
  rename_file-fits m = search fits_rules depth 9

  closed-fits :
      (m : Exec (State W) Unit)
      → Returns (AnswerFits most_content) (Handlers.closed e os share to_ascii m)
  closed-fits m =
      bind_value-Returns (FitsIn most_content) _ _
        (try_catch-Returns _ _ (done-fits m) (λ ex. pure-Returns _ (none-fits most_content)))
        (λ a q. pure-Returns (some (record a { extended_features = share.use_client_timestamp })) q)

  pub close_file-fits :
      (extended : Bool) (m : List ℕ)
      → Returns (AnswerFits most_content) (Handlers.close_file e os share to_ascii extended m)
  unfolding Handlers.close_file
  close_file-fits true m = search (fits_rules, closed-fits) depth 9
  close_file-fits false m = search (fits_rules, closed-fits) depth 9

  pub write_file-fits :
      (m : List ℕ) → Returns (AnswerFits most_content) (Handlers.write_file e os share to_ascii m)
  unfolding Handlers.write_file
  write_file-fits m = search fits_rules depth 9

  pub lock_file-fits :
      (m : List ℕ) → Returns (AnswerFits most_content) (Handlers.lock_file e os share to_ascii m)
  unfolding Handlers.lock_file
  lock_file-fits m = search fits_rules depth 9

  pub get_disk_info-fits :
      (m : List ℕ)
      → Returns (AnswerFits most_content) (Handlers.get_disk_info e os share to_ascii m)
  unfolding Handlers.get_disk_info
  get_disk_info-fits m = search fits_rules depth 9

  pub get_disk_info_large-fits :
      (m : List ℕ)
      → Returns (AnswerFits most_content) (Handlers.get_disk_info_large e os share to_ascii m)
  unfolding Handlers.get_disk_info_large
  get_disk_info_large-fits m = search fits_rules depth 9

  pub seek_from_end-fits :
      (m : List ℕ)
      → Returns (AnswerFits most_content) (Handlers.seek_from_end e os share to_ascii m)
  unfolding Handlers.seek_from_end
  seek_from_end-fits m = search fits_rules depth 9

  pub feature_query-fits :
      (m : List ℕ)
      → Returns (AnswerFits most_content) (Handlers.feature_query e os share to_ascii m)
  unfolding Handlers.feature_query
  feature_query-fits m = search fits_rules depth 9

  search_first-fits :
      (mask : FcbFileName) (attr : ℕ) (start : Result ℕ)
      → Returns (AnswerFits most_content) (search_first e os share to_ascii mask attr start)
  search_first-fits mask attr (ok handle) = search (fits_rules, find_answer-fits) depth 9
  search_first-fits mask attr (err ex) = search fits_rules depth 9

  pub find_first-fits :
      (m : List ℕ) → Returns (AnswerFits most_content) (find_first e os share to_ascii m)
  unfolding find_first
  find_first-fits m = search (fits_rules, search_first-fits) depth 9

  pub find_next-fits :
      (m : List ℕ) → Returns (AnswerFits most_content) (find_next e os share to_ascii m)
  unfolding find_next
  find_next-fits m = search (fits_rules, find_answer-fits) depth 9

  opened_answer-fits :
      (p q : FsPath) (o : Opened)
      → Returns (FitsIn most_content) (opened_answer e os share to_ascii p q o)
  unfolding opened_answer
  opened_answer-fits p q o = search fits_rules depth 9

  open_in-fits :
      (kind : OpenKind) (p : FsPath) (attrs action mode : ℕ)
      → Returns (FitsIn most_content) (open_in e os share to_ascii kind p attrs action mode)
  unfolding open_in
  open_in-fits kind p attrs action mode = search (fits_rules, opened_answer-fits) depth 9

  pub open_or_create-fits :
      (kind : OpenKind) (m : List ℕ)
      → Returns (AnswerFits most_content) (open_or_create e os share to_ascii kind m)
  unfolding open_or_create
  open_or_create-fits kind m = search (fits_rules, open_in-fits) depth 9
