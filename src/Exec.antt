-- ===== src/Exec.antt =====
-- Methods of mutable objects that may raise. What was written before a raise stays written, so
-- the state comes back beside an error too.
use saas_job_api.Prelude.{Bool, true, false, Option, none, some}
use saas_job_api.Result.{Error, Result, ok, err}

abbrev pub Exec {ℓ} : Type ℓ → Type ℓ → Type ℓ
Exec S A = S → Result A × S

module _ {ℓ} {S A : Type ℓ} where
  abbrev pub pure : A → Exec S A
  pure a s = (ok a, s)

  abbrev pub raise : Error → Exec S A
  raise e s = (err e, s)

  abbrev pub lift : Result A → Exec S A
  lift r s = (r, s)

  abbrev pub gets : (S → A) → Exec S A
  gets f s = (ok (f s), s)

  -- The value, or the exception if there is none.
  abbrev pub require : Error → Option A → Exec S A
  require e none = raise e
  require e (some a) = pure a

module _ {ℓ} {S A B : Type ℓ} where
  abbrev pub proceed : (A → Exec S B) → Result A → S → Result B × S
  proceed f (ok a) s = f a s
  proceed f (err e) s = (err e, s)

  infixl 5 ◌>>=◌ ◌>>◌
  abbrev pub ◌>>=◌ : Exec S A → (A → Exec S B) → Exec S B
  ◌>>=◌ m f s = let ran = m s in proceed f ran.0 ran.1

  abbrev pub ◌>>◌ : Exec S A → Exec S B → Exec S B
  m >> n = m >>= λ _. n

module _ {S : Type 0} where
  abbrev pub modify : (S → S) → Exec S (Unit {0})
  modify f s = (ok tt, f s)

  -- `if not allowed: raise e`
  abbrev pub guard : Bool → Error → Exec S (Unit {0})
  guard true e = pure tt
  guard false e = raise e
