-- ===== src/Os/Sample.antt =====
-- A small file system for tests: what lies at each path, the bytes of a file or a directory.
use net_mount.Base.{
  ℕ, ◌+◌, ◌-◌, List, [], ◌∷◌, ◌++◌, Bool, true, false, if◌then◌else◌, length, take, drop, replicate,
  Option, none, some,
}
use net_mount.FatTime.{Tm}
use net_mount.Drive.{FsPath, path_eq}
use net_mount.Exec.{ok}
use net_mount.Os.{Os, not_opened, moved}

pub data Node : Type 0 where
  directory : Node
  file : List ℕ → Node

abbrev pub World : Type 0
World = List (FsPath × Node)

abbrev pub node_at : FsPath → World → Option Node
node_at p [] = none
node_at p ((q, node) ∷ w) = let rest = node_at p w in if path_eq p q then some node else rest

abbrev pub without : FsPath → World → World
without p [] = []
without p ((q, node) ∷ w) = let rest = without p w in if path_eq p q then rest else (q, node) ∷ rest

abbrev pub is_node : Option Node → Bool
is_node none = false
is_node (some node) = true

abbrev pub is_dir_node : Option Node → Bool
is_dir_node none = false
is_dir_node (some directory) = true
is_dir_node (some (file bytes)) = false

abbrev pub is_file_node : Option Node → Bool
is_file_node none = false
is_file_node (some directory) = false
is_file_node (some (file bytes)) = true

abbrev pub bytes_of : Option Node → List ℕ
bytes_of (some (file bytes)) = bytes
bytes_of (some directory) = []
bytes_of none = []

-- The name of `q` in the directory `p`.
abbrev pub name_in : FsPath → FsPath → List (List ℕ)
name_in [] (name ∷ []) = name ∷ []
name_in [] [] = []
name_in [] (name ∷ next ∷ q) = []
name_in (x ∷ p) [] = []
name_in (x ∷ p) (y ∷ q) = let rest = name_in p q in if path_eq (x ∷ []) (y ∷ []) then rest else []

abbrev pub names_in : FsPath → World → List (List ℕ)
names_in p [] = []
names_in p ((q, node) ∷ w) = name_in p q ++ names_in p w

abbrev pub rename_in : FsPath → FsPath → World → World
rename_in p q [] = []
rename_in p q ((r, node) ∷ w) =
    let rest = rename_in p q w in if path_eq p r then (q, node) ∷ rest else (r, node) ∷ rest

abbrev pub put : FsPath → List ℕ → World → World
put p bytes w = (p, file bytes) ∷ without p w

abbrev pub overwrite : ℕ → List ℕ → List ℕ → List ℕ
overwrite offset bytes old =
    take offset old
    ++ (replicate (offset - length old) 0 ++ (bytes ++ drop (offset + length bytes) old))

abbrev pub epoch : Tm
epoch = record { tm_sec = 0; tm_min = 0; tm_hour = 0; tm_mday = 1; month = 1; tm_year = 80 }

abbrev pub sample : Os World
sample = record {
  is_symlink = λ p w. ok false;
  exists = λ p w. ok (is_node (node_at p w));
  is_directory = λ p w. ok (is_dir_node (node_at p w));
  iterate = λ p w. (names_in p w, ok tt);
  equivalent = λ p q w. some (path_eq p q);
  last_write_time = λ p w. some 0;
  file_size = λ p w. some (length (bytes_of (node_at p w)));
  space = λ p w. ok (1000000000, 1000000);
  get_attrs_native = λ p w. ok 0;
  get_attrs_extended = λ p w. ok 0;
  opens = λ p writing w. is_file_node (node_at p w);
  read = λ p offset len w.
      if is_file_node (node_at p w)
      then moved (take len (drop offset (bytes_of (node_at p w))))
      else not_opened;
  now = λ w. 100;
  localtime = λ t. epoch;
  mktime = λ tm. 0;
  create_directory =
      λ p w. if is_node (node_at p w) then (ok false, w) else (ok true, (p, directory) ∷ w);
  remove = λ p w. (ok (is_node (node_at p w)), without p w);
  current_path = λ p w. (ok tt, w);
  rename = λ p q w. (ok tt, rename_in p q w);
  truncate_new = λ p w. (ok true, put p [] w);
  truncate = λ p size w. (ok true, put p (take size (bytes_of (node_at p w))) w);
  write = λ p offset bytes w.
      (ok (moved (length bytes)), put p (overwrite offset bytes (bytes_of (node_at p w))) w);
  set_attrs_native = λ p attrs w. (ok tt, w);
  set_attrs_extended = λ p attrs w. (ok tt, w);
  set_last_write_time = λ p time w. (ok tt, w);
}
