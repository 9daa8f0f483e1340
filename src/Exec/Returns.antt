-- ===== src/Exec/Returns.antt =====
-- What holds of the value that an action returns, by rules for the ways in which actions are put
-- together. Nothing is said of an exception.
use net_mount.Base.{Bool, true, false, if◌then◌else◌}
use net_mount.Exec.{
  Exec, Result, ok, err, Failure, pure, throw, look, recover, try_catch, proceed, ◌>>=◌,
}

abbrev pub Holds {ℓ} : {A : Type ℓ} → (A → Type ℓ) → Result A → Type ℓ
Holds Q (ok a) = Q a
Holds Q (err e) = Unit

pub record Returns {ℓ} {S A : Type ℓ} (Q : A → Type ℓ) (m : Exec S A) : Type ℓ where
  pub value : (s : S) → Holds Q (m s).0

module _ {ℓ} {S A : Type ℓ} {Q : A → Type ℓ} where
  pub pure-Returns : (a : A) → Q a → Returns {S = S} Q (pure a)
  pure-Returns a q = record { value = λ s. q }

  pub throw-Returns : (e : Failure) → Returns {S = S} Q (throw e)
  throw-Returns e = record { value = λ s. tt }

  pub look-Returns : (f : S → A) → ((s : S) → Q (f s)) → Returns Q (look f)
  look-Returns f q = record { value = q }

  pub if-Returns :
      (b : Bool) (m n : Exec S A) → Returns Q m → Returns Q n → Returns Q (if b then m else n)
  if-Returns true m n rm rn = rm
  if-Returns false m n rm rn = rn

  pub try_catch-Returns :
      (m : Exec S A) (handler : Failure → Exec S A)
      → Returns Q m
      → ((e : Failure) → Returns Q (handler e))
      → Returns Q (try_catch m handler)
  try_catch-Returns m handler rm rh = record { value = λ s. by_result (m s) (rm.value s) }
    where
      by_result : (r : Result A × S) → Holds Q r.0 → Holds Q (recover r handler).0
      by_result (ok a, s) h = h
      by_result (err e, s) h = (rh e).value s

module _ {ℓ} {S A B : Type ℓ} {Q : B → Type ℓ} where
  pub bind-Returns :
      (m : Exec S A) (f : A → Exec S B) → ((a : A) → Returns Q (f a)) → Returns Q (m >>= f)
  bind-Returns m f rf = record { value = λ s. by_result (m s) }
    where
      by_result : (r : Result A × S) → Holds Q (proceed r f).0
      by_result (ok a, s) = (rf a).value s
      by_result (err e, s) = tt

  -- With what is known of the first value.
  pub bind_value-Returns :
      (P : A → Type ℓ) (m : Exec S A) (f : A → Exec S B)
      → Returns P m
      → ((a : A) → P a → Returns Q (f a))
      → Returns Q (m >>= f)
  bind_value-Returns P m f rm rf = record { value = λ s. by_result (m s) (rm.value s) }
    where
      by_result : (r : Result A × S) → Holds P r.0 → Holds Q (proceed r f).0
      by_result (ok a, s) p = (rf a p).value s
      by_result (err e, s) p = tt

pub ruleset returns_rules =
    (pure-Returns, throw-Returns, if-Returns, try_catch-Returns, bind-Returns)
