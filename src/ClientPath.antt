-- ===== src/ClientPath.antt =====
-- netmount-server/netmount-server.cpp: `create_relative_path`, which makes a path of the bytes that
-- a client sends, and `get_dos_err_code`, which names an exception to the client.
-- A path's string is taken apart as std::filesystem does it on POSIX systems.
pub mod Relative
mod Examples
use net_mount.Base.{ℕ, List, [], ◌∷◌, if◌then◌else◌, ◌==◌, map}
use net_mount.Bytes.{ascii_to_lower}
use net_mount.Drive.{FsPath, is_empty}
use net_mount.Exec.{
  Failure, dos_error, std_error, other_error, Errc, directory_not_empty, file_exists,
  is_a_directory, io_error, no_such_file_or_directory, not_a_directory, permission_denied,
  read_only_file_system, other_condition,
}
use net_mount.Os.{access_denied, file_not_found}

abbrev pub lower_slash : ℕ → ℕ
lower_slash c = let d = ascii_to_lower c in if d == b'\\' then b'/' else d

-- The parts between slashes.
abbrev pub put_byte : ℕ → List (List ℕ) → List (List ℕ)
put_byte c [] = (c ∷ []) ∷ []
put_byte c (part ∷ parts) = (c ∷ part) ∷ parts

unfoldable pub split_slashes : List ℕ → List (List ℕ)
split_slashes [] = [] ∷ []
split_slashes (c ∷ cs) =
    let rest = split_slashes cs in if c == b'/' then [] ∷ rest else put_byte c rest

-- Only the last part may be empty, and not alone.
unfoldable pub drop_empty : List (List ℕ) → FsPath
drop_empty [] = []
drop_empty (part ∷ []) = part ∷ []
drop_empty (part ∷ next ∷ parts) =
    let rest = drop_empty (next ∷ parts) in if is_empty part then rest else part ∷ rest

abbrev pub not_alone : FsPath → FsPath
not_alone [] = []
not_alone (part ∷ []) = if is_empty part then [] else part ∷ []
not_alone (part ∷ next ∷ parts) = part ∷ next ∷ parts

-- `std::filesystem::path(s).relative_path()`
unfoldable pub relative_path : List ℕ → FsPath
relative_path s = not_alone (drop_empty (split_slashes s))

unfoldable pub create_relative_path : List ℕ → FsPath
create_relative_path buff = relative_path (map lower_slash buff)

abbrev pub condition_code : ℕ → Errc → ℕ
condition_code code directory_not_empty = access_denied
condition_code code file_exists = access_denied
condition_code code is_a_directory = access_denied
condition_code code io_error = access_denied
condition_code code no_such_file_or_directory = file_not_found
condition_code code not_a_directory = access_denied
condition_code code permission_denied = access_denied
condition_code code read_only_file_system = access_denied
condition_code code other_condition = code

unfoldable pub get_dos_err_code : Failure → ℕ → ℕ
get_dos_err_code (dos_error code) default_code = code
get_dos_err_code (std_error condition) default_code = condition_code default_code condition
get_dos_err_code other_error default_code = default_code
