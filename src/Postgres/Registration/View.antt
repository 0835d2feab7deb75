-- ===== src/Postgres/Registration/View.antt =====
-- The tables of `PostgresRegistrationStore` (src/saas_job_api/registration_store_postgres.py) seen
-- as a `MemoryRegistrationStore`.
use mathlib.Core.Path.{ap, ◌∙◌}
use saas_job_api.Prelude.{
  ℕ, String, ◌≡◌, refl, inl, inr, true, not, ◌||◌, ◌&&◌, Option, none, some, arith, string_eq,
  Bool-cases, Option-cases, is_none, option_beq,
}
use saas_job_api.Result.{ok}
use saas_job_api.Time.{aware}
use saas_job_api.Dict.{Dict, lookup, put}
use saas_job_api.Registration.{
  GatewayIdentity, EnrollmentToken, MemoryRegistrationStore, is_rebound, used, mark_first,
}
use saas_job_api.Registration as Memory
use saas_job_api.Postgres.{Driver, IsFaithful}
use saas_job_api.Postgres.Image.{image, lookup-image, image-put}
use saas_job_api.Postgres.Registration.{
  TokenRow, IdentityRow, PostgresRegistrationStore, token_row, row_to_token, identity_row,
  row_to_identity, upserted_identity, rotated, coalesce, equal_texts, store_identity, mark_row,
  has_token_id,
}
use saas_job_api.Postgres.Registration as Registration

abbrev pub registrations_of : PostgresRegistrationStore → MemoryRegistrationStore
registrations_of s = record {
  tokens_by_hash = image row_to_token s.enrollment_tokens;
  identities = image row_to_identity s.gateway_identities;
}

-- The identity since its first registration.
abbrev pub since : Option IdentityRow → GatewayIdentity → GatewayIdentity
since none identity = identity
since (some row) identity = record identity { registered_at = aware row.registered_at }

abbrev pub IsAwareIdentity : GatewayIdentity → Type 0
IsAwareIdentity identity =
    (until registered rotation : ℕ) × (identity.certificate_not_after ≡ aware until)
    × (identity.registered_at ≡ aware registered)
    × (identity.last_rotated_at ≡ aware rotation)

-- The query returns a row unless the gateway is bound to another tenant.
rebinds :
    (bound new : Option String)
    → (not (is_none bound) && not (option_beq bound new))
      ≡ not (is_none bound || equal_texts bound new)
rebinds none new = refl
rebinds (some a) none = refl
rebinds (some a) (some b) = ground arith

coalesce_bound :
    (bound new : Option String)
    → (is_none bound || equal_texts bound new) ≡ true
    → coalesce bound new ≡ new
coalesce_bound none new h = refl
coalesce_bound (some a) none h = cc
coalesce_bound (some a) (some b) h = ap some ((string_eq.eqb_iff a b).0 h)

-- A row stands under its own id.
abbrev pub IsKeyed : Dict String IdentityRow → Type 0
IsKeyed rows = (k : String) (row : IdentityRow) → lookup k rows ≡ some row → row.gateway_id ≡ k

module _ (driver : Driver) (faithful : IsFaithful driver) (identity : GatewayIdentity)
    (h : IsAwareIdentity identity) where
  identity_row-back : row_to_identity (identity_row driver identity) ≡ identity
  unfolding row_to_identity identity_row
  identity_row-back =
      let (until, registered, rotation, n, r, l) = h in
      rw
        (
          n,
          r,
          l,
          faithful.instant_aware until,
          faithful.instant_aware registered,
          faithful.instant_aware rotation,
        )
        refl

  rotated-since :
      (row : IdentityRow)
      → row.gateway_id ≡ identity.gateway_id
      → (is_none row.tenant_id || equal_texts row.tenant_id identity.tenant_id) ≡ true
      → row_to_identity (rotated driver identity row) ≡ since (some row) identity
  unfolding row_to_identity
  rotated-since row same_id binds =
      let (until, registered, rotation, n, r, l) = h in
      rw
        (
          n,
          l,
          faithful.instant_aware until,
          faithful.instant_aware rotation,
          same_id,
          coalesce_bound row.tenant_id identity.tenant_id binds,
        )
        refl

  put-identity :
      (s : PostgresRegistrationStore) (row : IdentityRow) (stored : GatewayIdentity)
      → row_to_identity row ≡ stored
      → registrations_of
          (record s { gateway_identities = put identity.gateway_id row s.gateway_identities })
        ≡ record (registrations_of s) {
          identities = put identity.gateway_id stored (image row_to_identity s.gateway_identities);
        }
  put-identity s row stored e =
      ap (λ d. record (registrations_of s) { identities = d })
        (image-put row_to_identity identity.gateway_id row s.gateway_identities ∙ rw e refl)

  -- PostgresRegistrationStore binds a gateway to a tenant as the memory store does. If the times
  -- of the identity are aware and every row stands under its own gateway id, the answer, errors
  -- included, and the stored identities are those of the memory store for the same identity with
  -- the time of its first registration, which the table keeps and the memory store replaces. The
  -- driver stores an aware datetime as its instant.
  pub upsert_gateway_identity-view :
      (s : PostgresRegistrationStore)
      → IsKeyed s.gateway_identities
      → ((Registration.upsert_gateway_identity driver identity s).0
          ≡ (Memory.upsert_gateway_identity
              (since (lookup identity.gateway_id s.gateway_identities) identity)
              (registrations_of s)).0)
        × (registrations_of (Registration.upsert_gateway_identity driver identity s).1
            ≡ (Memory.upsert_gateway_identity
                (since (lookup identity.gateway_id s.gateway_identities) identity)
                (registrations_of s)).1)
  unfolding Registration.upsert_gateway_identity Memory.upsert_gateway_identity upserted_identity
  upsert_gateway_identity-view s keyed =
      let seen = lookup-image row_to_identity identity.gateway_id s.gateway_identities in
      elim (Option-cases (lookup identity.gateway_id s.gateway_identities)) [
        | inl new ↦
            rw (new, seen, new)
              (ap ok identity_row-back, put-identity s _ identity identity_row-back)
        | inr (row, old) ↦
            let binds = is_none row.tenant_id || equal_texts row.tenant_id identity.tenant_id in
            elim (Bool-cases binds) [
              | inl same ↦
                  let stored = rotated-since row (keyed identity.gateway_id row old) same in
                  rw (old, seen, old, rebinds row.tenant_id identity.tenant_id, same)
                    (ap ok stored, put-identity s _ (since (some row) identity) stored)
              | inr other ↦
                  rw (old, seen, old, rebinds row.tenant_id identity.tenant_id, other) (refl, refl)
            ]
      ]
