-- ===== src/Result.antt =====
-- The exceptions of src/saas_job_api/errors.py, and pure computations that may raise one.
use saas_job_api.Prelude.{String, ◌≡◌, refl, ◌⊎◌, inl, inr}

-- The classes of errors.py with their messages, the two built-in exceptions that the code raises
-- itself or runs into, and a refusal of the database.
pub data Error : Type 0 where
  unauthorized forbidden type_error database_error : Error
  conflict bad_request not_found value_error : String → Error

pub data Result {ℓ} (A : Type ℓ) : Type ℓ where
  ok : A → Result A
  err : Error → Result A

module _ {ℓ} {A : Type ℓ} where
  pub Result-cases : (r : Result A) → ((a : A) × (r ≡ ok a)) ⊎ ((e : Error) × (r ≡ err e))
  Result-cases (ok a) = inl (a, refl)
  Result-cases (err e) = inr (e, refl)

  -- The computation returns.
  abbrev pub IsOk : Result A → Type ℓ
  IsOk r = (a : A) × (r ≡ ok a)

-- A failure of the first computation is the failure of both.
abbrev pub and_then {ℓ κ} : {A : Type ℓ} {B : Type κ} → (A → Result B) → Result A → Result B
and_then next (err e) = err e
and_then next (ok a) = next a

infixl 5 ◌>>=◌
abbrev pub ◌>>=◌ {ℓ κ} : {A : Type ℓ} {B : Type κ} → Result A → (A → Result B) → Result B
r >>= next = and_then next r

module _ {ℓ κ} {A : Type ℓ} {B : Type κ} where
  -- If a chain returns, so did its first part.
  pub bind_inv :
      (first : Result A) (next : A → Result B) {b : B}
      → (first >>= next) ≡ ok b
      → (a : A) × (first ≡ ok a) × (next a ≡ ok b)
  bind_inv (err e) next returned = cc
  bind_inv (ok a) next returned = (a, refl, returned)

module _ {ℓ κ} {A : Type ℓ} {B : Type κ} where
  -- A computation whose value is used by code that cannot raise.
  abbrev pub map_ok : (A → B) → Result A → Result B
  map_ok f (ok a) = ok (f a)
  map_ok f (err e) = err e

module _ {ℓ} {A : Type ℓ} where
  -- A computation returns if no error can be its result.
  pub IsOk-of_no_err : (r : Result A) → ((e : Error) → r ≡ err e → ⊥) → IsOk r
  IsOk-of_no_err (ok a) h = (a, refl)
  IsOk-of_no_err (err e) h = absurd (h e refl)
