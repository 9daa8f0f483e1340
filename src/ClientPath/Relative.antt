-- ===== src/ClientPath/Relative.antt =====
-- The path that is made of a client's bytes is relative: no part of it is a root directory.
use net_mount.Base.{
  ℕ, ◌≡◌, ◌≢◌, refl, List, [], ◌∷◌, Bool, false, ◌==◌, map, All, inl, inr, Bool-cases, arith,
  ==-of-ne,
}
use net_mount.Drive.{FsPath, is_empty}
use net_mount.Exec.Returns.{Holds}
use net_mount.Os.{Os}
use net_mount.Folder.{Share, State, is_slash, create_server_path}
use net_mount.Folder.Names.{HasNames, GivesNames}
use net_mount.Folder.Within.{ArePlain, Behind, create_server_path-Runs}
use net_mount.ClientPath.{
  put_byte, split_slashes, drop_empty, not_alone, relative_path, create_relative_path, lower_slash,
}

-- No part has a slash.
abbrev NoSlash : List (List ℕ) → Type 0
NoSlash = All (λ (part : List ℕ). All (λ (c : ℕ). c ≢ b'/') part)

put_byte-NoSlash :
    (c : ℕ) (parts : List (List ℕ)) → c ≢ b'/' → NoSlash parts → NoSlash (put_byte c parts)
put_byte-NoSlash c [] ne h = ((ne, tt), tt)
put_byte-NoSlash c (part ∷ parts) ne h = ((ne, h.0), h.1)

split_slashes-NoSlash : (s : List ℕ) → NoSlash (split_slashes s)
unfolding split_slashes
split_slashes-NoSlash [] = (tt, tt)
split_slashes-NoSlash (c ∷ cs) =
    let ih = split_slashes-NoSlash cs in
    elim (Bool-cases (c == b'/')) [
      | inl slash ↦ rw slash (tt, ih)
      | inr other ↦ rw other (put_byte-NoSlash c _ (ground (arith, other)) ih)
    ]

drop_empty-NoSlash : (parts : List (List ℕ)) → NoSlash parts → NoSlash (drop_empty parts)
unfolding drop_empty
drop_empty-NoSlash [] h = tt
drop_empty-NoSlash (part ∷ []) h = h
drop_empty-NoSlash (part ∷ next ∷ parts) h =
    let ih = drop_empty-NoSlash (next ∷ parts) h.1 in
    elim (Bool-cases (is_empty part)) [
      | inl none_there ↦ rw none_there ih
      | inr kept ↦ rw kept (h.0, ih)
    ]

not_alone-NoSlash : (parts : List (List ℕ)) → NoSlash parts → NoSlash (not_alone parts)
not_alone-NoSlash [] h = tt
not_alone-NoSlash (part ∷ []) h = elim (Bool-cases (is_empty part)) [
  | inl none_there ↦ rw none_there tt
  | inr kept ↦ rw kept h
]
not_alone-NoSlash (part ∷ next ∷ parts) h = h

is_slash-false : (part : List ℕ) → All (λ (c : ℕ). c ≢ b'/') part → is_slash part ≡ false
is_slash-false [] h = refl
is_slash-false (c ∷ cs) h = rw (==-of-ne c b'/' h.0) refl

ArePlain-NoSlash : (parts : List (List ℕ)) → NoSlash parts → ArePlain parts
ArePlain-NoSlash [] h = tt
ArePlain-NoSlash (part ∷ parts) h = (is_slash-false part h.0, ArePlain-NoSlash parts h.1)

pub create_relative_path-ArePlain : (buff : List ℕ) → ArePlain (create_relative_path buff)
unfolding create_relative_path relative_path
create_relative_path-ArePlain buff =
    ArePlain-NoSlash _
      (not_alone-NoSlash _ (drop_empty-NoSlash _ (split_slashes-NoSlash (map lower_slash buff))))

-- Let iterations over directories give names of files, and let the directory lists of a drive hold no
-- absolute paths. Then, whatever bytes a client sends for a path, the lists still hold none after
-- `create_server_path`, and the path that it gives, if it throws no exception, is the root of the
-- share, or the root followed by at least one more part.
pub create_server_path-Behind :
    {W : Type 0} (os : Os W) (share : Share) (to_ascii : List ℕ → List ℕ) (buff : List ℕ)
    (again : Bool) (s : State W)
    → GivesNames os
    → HasNames s.items
    → HasNames (create_server_path os share to_ascii (create_relative_path buff) again s).1.items
      × Holds
          (λ (r : FsPath × Bool). Behind share.root r.0)
          (create_server_path os share to_ascii (create_relative_path buff) again s).0
create_server_path-Behind os share to_ascii buff again s gives named =
    (create_server_path-Runs os share to_ascii gives (create_relative_path buff) again
        (create_relative_path-ArePlain buff)).runs
      s named
