-- ===== src/Exec/Keeps.antt =====
-- What an action leaves as it was, by rules for the ways in which actions are put together.
use net_mount.Base.{Bool, true, false, if◌then◌else◌}
use net_mount.Exec.{
  Exec, Result, ok, err, Failure, pure, throw, ask, look, recover, try_catch, proceed, ◌>>=◌,
  throw_if,
}

-- From a state with `P` the action ends in a state with `P`.
pub record Keeps {ℓ} {S A : Type ℓ} (P : S → Type ℓ) (m : Exec S A) : Type ℓ where
  pub holds : (s : S) → P s → P (m s).1

module _ {ℓ} {S A : Type ℓ} {P : S → Type ℓ} where
  pub pure-Keeps : (a : A) → Keeps P (pure a)
  pure-Keeps a = record { holds = λ s h. h }

  pub throw-Keeps : (e : Failure) → Keeps P (throw {A = A} e)
  throw-Keeps e = record { holds = λ s h. h }

  pub ask-Keeps : (f : S → Result A) → Keeps P (ask f)
  ask-Keeps f = record { holds = λ s h. h }

  pub look-Keeps : (f : S → A) → Keeps P (look f)
  look-Keeps f = record { holds = λ s h. h }

  pub if-Keeps : (b : Bool) (m n : Exec S A) → Keeps P m → Keeps P n → Keeps P (if b then m else n)
  if-Keeps true m n km kn = km
  if-Keeps false m n km kn = kn

  pub try_catch-Keeps :
      (m : Exec S A) (handler : Failure → Exec S A)
      → Keeps P m
      → ((e : Failure) → Keeps P (handler e))
      → Keeps P (try_catch m handler)
  try_catch-Keeps m handler km kh = record { holds = λ s h. by_result (m s) (km.holds s h) }
    where
      by_result : (r : Result A × S) → P r.1 → P (recover r handler).1
      by_result (ok a, s) h = h
      by_result (err e, s) h = (kh e).holds s h

module _ {ℓ} {S A B : Type ℓ} {P : S → Type ℓ} where
  pub bind-Keeps :
      (m : Exec S A) (f : A → Exec S B) → Keeps P m → ((a : A) → Keeps P (f a)) → Keeps P (m >>= f)
  bind-Keeps m f km kf = record { holds = λ s h. by_result (m s) (km.holds s h) }
    where
      by_result : (r : Result A × S) → P r.1 → P (proceed r f).1
      by_result (ok a, s) h = (kf a).holds s h
      by_result (err e, s) h = h

module _ {ℓ} {S : Type ℓ} {P : S → Type ℓ} where
  pub throw_if-Keeps : (b : Bool) (e : Failure) → Keeps P (throw_if {S = S} b e)
  throw_if-Keeps true e = record { holds = λ s h. h }
  throw_if-Keeps false e = record { holds = λ s h. h }

pub ruleset keeps_rules = (
  pure-Keeps, throw-Keeps, ask-Keeps, look-Keeps, if-Keeps, try_catch-Keeps, bind-Keeps,
  throw_if-Keeps,
)
