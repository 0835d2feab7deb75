-- ===== src/Postgres/Registration/Tokens.antt =====
-- The enrollment tokens of `PostgresRegistrationStore`
-- (src/saas_job_api/registration_store_postgres.py), seen in the memory store.
use mathlib.Core.Path.{ap, ◌∙◌}
use mathlib.Core.Option
use saas_job_api.Prelude.{
  ℕ, String, ◌≡◌, refl, ◌⊎◌, inl, inr, false, Option, [], ◌∷◌, string_eq, ◌==◌, Bool-cases,
  Option-cases,
}
use saas_job_api.Result.{ok, err, database_error}
use saas_job_api.Time.{aware}
use saas_job_api.Dict.{Dict, lookup}
use saas_job_api.Registration.{EnrollmentToken, MemoryRegistrationStore, used, mark_first}
use saas_job_api.Registration as Memory
use saas_job_api.Postgres.{Driver, IsFaithful, times_back}
use saas_job_api.Postgres.Image.{image, image-put}
use saas_job_api.Postgres.Registration.{
  TokenRow, PostgresRegistrationStore, token_row, row_to_token, mark_row, has_token_id,
}
use saas_job_api.Postgres.Registration as Registration
use saas_job_api.Postgres.Registration.View.{registrations_of}

-- The primary keys are distinct.
abbrev pub HasDistinctIds : Dict String TokenRow → Type 0
HasDistinctIds [] = Unit
HasDistinctIds ((h, row) ∷ rows) = (has_token_id row.token_id rows ≡ false) × HasDistinctIds rows

abbrev pub IsAwareToken : EnrollmentToken → Type 0
IsAwareToken token =
    (created expires : ℕ) × (marked : Option ℕ) × (token.created_at ≡ aware created)
    × (token.expires_at ≡ aware expires)
    × (token.used_at ≡ Option.map aware marked)

module _ (token_id : String) (t : ℕ) (gateway_id : String) where
  mark_none :
      (rows : Dict String TokenRow)
      → has_token_id token_id rows ≡ false
      → image (mark_row token_id t gateway_id) rows ≡ rows
  unfolding image mark_row has_token_id
  mark_none [] h = refl
  mark_none ((k, row) ∷ rows) h = elim (Bool-cases (row.token_id == token_id)) [
    | inl same ↦ cc (rw same at h)
    | inr other ↦ rw other (ap (λ r. (k, row) ∷ r) (mark_none rows (rw other at h)))
  ]

  -- The UPDATE of all rows with the id changes what the loop over the tokens changes.
  mark_rows-mark_first :
      (rows : Dict String TokenRow)
      → HasDistinctIds rows
      → image row_to_token (image (mark_row token_id t gateway_id) rows)
        ≡ mark_first token_id (aware t) gateway_id (image row_to_token rows)
  unfolding image mark_row mark_first row_to_token
  mark_rows-mark_first [] h = refl
  mark_rows-mark_first ((k, row) ∷ rows) h = elim (Bool-cases (row.token_id == token_id)) [
    | inl same ↦ rw same (
        ap (λ r. (k, used (aware t) gateway_id (row_to_token row)) ∷ image row_to_token r)
          (mark_none rows (rw ((string_eq.eqb_iff row.token_id token_id).0 same) at h.0)))
    | inr other ↦ rw other (ap (λ r. (k, row_to_token row) ∷ r) (mark_rows-mark_first rows h.1))
  ]

-- If the primary keys are distinct, marking a token as used at an aware time changes the token that
-- the memory store changes. The driver stores an aware datetime as its instant.
pub mark_enrollment_token_used-view :
    (driver : Driver) (token_id : String) (t : ℕ) (gateway_id : String)
    (s : PostgresRegistrationStore)
    → IsFaithful driver
    → HasDistinctIds s.enrollment_tokens
    → registrations_of
        (Registration.mark_enrollment_token_used driver token_id (aware t) gateway_id s).1
      ≡ (Memory.mark_enrollment_token_used token_id (aware t) gateway_id (registrations_of s)).1
unfolding Registration.mark_enrollment_token_used Memory.mark_enrollment_token_used
mark_enrollment_token_used-view driver token_id t gateway_id s faithful h =
    rw (faithful.instant_aware t) (
      ap (λ d. record (registrations_of s) { tokens_by_hash = d })
        (mark_rows-mark_first token_id t gateway_id s.enrollment_tokens h))

token_row-back :
    (driver : Driver)
    → IsFaithful driver
    → (token : EnrollmentToken) → IsAwareToken token
    → row_to_token (token_row driver token) ≡ token
unfolding row_to_token token_row
token_row-back driver faithful token (created, expires, marked, c, e, u) =
    rw
      (
        c,
        e,
        u,
        faithful.instant_aware created,
        faithful.instant_aware expires,
        times_back driver faithful marked,
      )
      refl

-- A new token with aware times is stored in the tables and found again, as in the memory store; a
-- token whose hash or id is taken is refused, and nothing changes.
pub create_enrollment_token-view :
    (driver : Driver) (token : EnrollmentToken) (s : PostgresRegistrationStore)
    → IsFaithful driver
    → IsAwareToken token
    → (((Registration.create_enrollment_token driver token s).0 ≡ err database_error)
        × ((Registration.create_enrollment_token driver token s).1 ≡ s))
      ⊎ (((Registration.create_enrollment_token driver token s).0 ≡ ok token)
          × (registrations_of (Registration.create_enrollment_token driver token s).1
              ≡ (Memory.create_enrollment_token token (registrations_of s)).1))
unfolding Registration.create_enrollment_token Memory.create_enrollment_token
create_enrollment_token-view driver token s faithful h =
    elim (Option-cases (lookup token.token_hash s.enrollment_tokens)) [
      | inr (row, taken) ↦ rw taken (inl (refl, refl))
      | inl free ↦ elim (Bool-cases (has_token_id token.token_id s.enrollment_tokens)) [
        | inl taken ↦ rw (free, taken) (inl (refl, refl))
        | inr new ↦
            rw (free, new)
              (inr (
                refl,
                ap (λ d. record (registrations_of s) { tokens_by_hash = d })
                    (image-put row_to_token token.token_hash (token_row driver token)
                        s.enrollment_tokens
                      ∙ rw (token_row-back driver faithful token h) refl),
              ))
      ]
    ]
