-- ===== src/Exec/Runs.antt =====
-- What holds of the state an action ends in and of the value it returns, when the state it starts
-- from has `P`, by rules for the ways in which actions are put together.
use net_mount.Base.{Bool, true, false, if◌then◌else◌}
use net_mount.Exec.{Exec, Result, ok, err, Failure, pure, throw, look, proceed, ◌>>=◌}
use net_mount.Exec.Returns.{Holds}

pub record Runs {ℓ} {S A : Type ℓ} (P : S → Type ℓ) (Q : A → Type ℓ) (m : Exec S A) : Type ℓ where
  pub runs : (s : S) → P s → P (m s).1 × Holds Q (m s).0

module _ {ℓ} {S A : Type ℓ} {P : S → Type ℓ} {Q : A → Type ℓ} where
  pub pure-Runs : (a : A) → Q a → Runs P Q (pure a)
  pure-Runs a q = record { runs = λ s h. (h, q) }

  pub throw-Runs : (e : Failure) → Runs P Q (throw e)
  throw-Runs e = record { runs = λ s h. (h, tt) }

  pub look-Runs : (f : S → A) → ((s : S) → P s → Q (f s)) → Runs P Q (look f)
  look-Runs f q = record { runs = λ s h. (h, q s h) }

  pub if-Runs :
      (b : Bool) (m n : Exec S A) → Runs P Q m → Runs P Q n → Runs P Q (if b then m else n)
  if-Runs true m n rm rn = rm
  if-Runs false m n rm rn = rn

module _ {ℓ} {S A : Type ℓ} {P : S → Type ℓ} where
  -- Nothing is said of the value.
  pub state-Runs : (m : Exec S A) → ((s : S) → P s → P (m s).1) → Runs P (λ (a : A). Unit {ℓ}) m
  state-Runs m keeps = record { runs = λ s h. (keeps s h, trivial (m s).0) }
    where
      trivial : (r : Result A) → Holds (λ (a : A). Unit {ℓ}) r
      trivial (ok a) = tt
      trivial (err e) = tt

module _ {ℓ} {S A B : Type ℓ} {P : S → Type ℓ} {Q : B → Type ℓ} where
  pub bind-Runs :
      (R : A → Type ℓ) (m : Exec S A) (f : A → Exec S B)
      → Runs P R m
      → ((a : A) → R a → Runs P Q (f a))
      → Runs P Q (m >>= f)
  bind-Runs R m f rm rf = record { runs = λ s h. by_result (m s) (rm.runs s h) }
    where
      by_result :
          (r : Result A × S) → P r.1 × Holds R r.0 → P (proceed r f).1 × Holds Q (proceed r f).0
      by_result (ok a, s) (p, q) = (rf a q).runs s p
      by_result (err e, s) (p, q) = (p, tt)
