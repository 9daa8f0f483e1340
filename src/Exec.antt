-- ===== src/Exec.antt =====
-- How the server's code that may throw is modelled: an action on a state, with its result.
-- `FilesystemError` carries a DOS error code (netmount-server/fs.hpp), `filesystem_error` of the
-- standard library an error condition, and any other `runtime_error` nothing.
pub mod Keeps
pub mod Returns
pub mod Runs
use net_mount.Base.{ℕ, Bool, true, false, if◌then◌else◌, Option, none, some}

-- The error conditions that `get_dos_err_code` tells apart.
pub data Errc : Type 0 where
  directory_not_empty file_exists is_a_directory io_error : Errc
  no_such_file_or_directory not_a_directory permission_denied read_only_file_system : Errc
  other_condition : Errc

pub data Failure : Type 0 where
  dos_error : ℕ → Failure
  std_error : Errc → Failure
  other_error : Failure

pub data Result {ℓ} (A : Type ℓ) : Type ℓ where
  ok : A → Result A
  err : Failure → Result A

-- What was done before an exception stays done.
abbrev pub Exec {ℓ} : Type ℓ → Type ℓ → Type ℓ
Exec S A = S → Result A × S

module _ {ℓ} {S A : Type ℓ} where
  abbrev pub pure : A → Exec S A
  pure a s = (ok a, s)

  abbrev pub throw : Failure → Exec S A
  throw e s = (err e, s)

  -- A question to the state, which may be answered by an exception.
  abbrev pub ask : (S → Result A) → Exec S A
  ask f s = (f s, s)

  abbrev pub look : (S → A) → Exec S A
  look f s = (ok (f s), s)

  -- `try { m } catch (const std::runtime_error & ex) { handler }`
  abbrev pub recover : Result A × S → (Failure → Exec S A) → Result A × S
  recover (ok a, s) handler = (ok a, s)
  recover (err e, s) handler = handler e s

  abbrev pub try_catch : Exec S A → (Failure → Exec S A) → Exec S A
  try_catch m handler s = recover (m s) handler

module _ {ℓ} {S A B : Type ℓ} where
  abbrev pub proceed : Result A × S → (A → Exec S B) → Result B × S
  proceed (ok a, s) f = f a s
  proceed (err e, s) f = (err e, s)

  infixl 10 ◌>>=◌ ◌>>◌
  abbrev pub ◌>>=◌ : Exec S A → (A → Exec S B) → Exec S B
  ◌>>=◌ m f s = proceed (m s) f

  abbrev pub ◌>>◌ : Exec S A → Exec S B → Exec S B
  m >> n = m >>= λ _. n

abbrev pub throw_if {ℓ} : {S : Type ℓ} → Bool → Failure → Exec S Unit
throw_if true e = throw e
throw_if false e = pure tt

abbrev pub is_ok {ℓ} : {A : Type ℓ} → Result A → Bool
is_ok (ok a) = true
is_ok (err e) = false

-- The answer of a function of the standard library in its form that does not throw.
abbrev pub quiet : Result Bool → Bool
quiet (ok b) = b
quiet (err e) = false
