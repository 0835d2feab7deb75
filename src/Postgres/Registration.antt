-- ===== src/Postgres/Registration.antt =====
-- src/saas_job_api/registration_store_postgres.py: `PostgresRegistrationStore`. The table
-- `enrollment_tokens` is given by its unique index on the hash, and `gateway_identities` by its
-- primary key.
pub mod View
pub mod Tokens
use mathlib.Core.Option
use saas_job_api.Prelude.{
  String, Bool, true, false, ◌||◌, ℕ, Option, none, some, List, [], ◌∷◌, string_eq, ◌==◌, is_none,
  if◌then◌else◌,
}
use saas_job_api.Result.{database_error}
use saas_job_api.Exec.{Exec, pure, raise, gets, require, modify, ◌>>=◌, ◌>>◌}
use saas_job_api.Time.{DateTime, aware}
use saas_job_api.Dict.{Dict, lookup, put}
use saas_job_api.Registration.{EnrollmentToken, GatewayIdentity, identity_mismatch}
use saas_job_api.Postgres.{Driver}
use saas_job_api.Postgres.Image.{image}

pub record TokenRow : Type 0 where
  pub token_id : String
  pub token_hash : String
  pub created_at : ℕ
  pub expires_at : ℕ
  pub issued_by : Option String
  pub used_at : Option ℕ
  pub used_by_gateway_id : Option String
  pub tenant_id : Option String

pub record IdentityRow : Type 0 where
  pub gateway_id : String
  pub tenant_id : Option String
  pub public_key_fingerprint : String
  pub certificate_pem : String
  pub certificate_serial : String
  pub certificate_not_after : ℕ
  pub registered_at : ℕ
  pub last_rotated_at : ℕ

pub record PostgresRegistrationStore : Type 0 where
  pub enrollment_tokens : Dict String TokenRow
  pub gateway_identities : Dict String IdentityRow

unfoldable pub token_row : Driver → EnrollmentToken → TokenRow
token_row driver token = record {
  token_id = token.token_id;
  token_hash = token.token_hash;
  created_at = driver.instant token.created_at;
  expires_at = driver.instant token.expires_at;
  issued_by = token.issued_by;
  used_at = Option.map driver.instant token.used_at;
  used_by_gateway_id = token.used_by_gateway_id;
  tenant_id = token.tenant_id;
}

unfoldable pub row_to_token : TokenRow → EnrollmentToken
row_to_token row = record {
  token_id = row.token_id;
  token_hash = row.token_hash;
  created_at = aware row.created_at;
  expires_at = aware row.expires_at;
  issued_by = row.issued_by;
  used_at = Option.map aware row.used_at;
  used_by_gateway_id = row.used_by_gateway_id;
  tenant_id = row.tenant_id;
}

unfoldable pub identity_row : Driver → GatewayIdentity → IdentityRow
identity_row driver identity = record {
  gateway_id = identity.gateway_id;
  tenant_id = identity.tenant_id;
  public_key_fingerprint = identity.public_key_fingerprint;
  certificate_pem = identity.certificate_pem;
  certificate_serial = identity.certificate_serial;
  certificate_not_after = driver.instant identity.certificate_not_after;
  registered_at = driver.instant identity.registered_at;
  last_rotated_at = driver.instant identity.last_rotated_at;
}

unfoldable pub row_to_identity : IdentityRow → GatewayIdentity
row_to_identity row = record {
  gateway_id = row.gateway_id;
  public_key_fingerprint = row.public_key_fingerprint;
  certificate_pem = row.certificate_pem;
  certificate_serial = row.certificate_serial;
  certificate_not_after = aware row.certificate_not_after;
  registered_at = aware row.registered_at;
  last_rotated_at = aware row.last_rotated_at;
  tenant_id = row.tenant_id;
}

-- Whether the primary key is taken.
unfoldable pub has_token_id : String → Dict String TokenRow → Bool
has_token_id token_id [] = false
has_token_id token_id ((h, row) ∷ rows) = row.token_id == token_id || has_token_id token_id rows

-- Nothing catches a violated constraint.
unfoldable pub create_enrollment_token :
    Driver → EnrollmentToken → Exec PostgresRegistrationStore EnrollmentToken
unfolding has_token_id token_row
create_enrollment_token driver token = do
  store ← gets (λ s. s)
  if is_none (lookup token.token_hash store.enrollment_tokens)
      then (if has_token_id token.token_id store.enrollment_tokens
          then raise database_error
          else (do
            modify (λ s. record s {
              enrollment_tokens = put token.token_hash (token_row driver token) s.enrollment_tokens;
            })
            pure token))
      else raise database_error

unfoldable pub get_enrollment_token_by_hash :
    String → Exec PostgresRegistrationStore (Option EnrollmentToken)
unfolding row_to_token
get_enrollment_token_by_hash token_hash =
    gets (λ s. Option.map row_to_token (lookup token_hash s.enrollment_tokens))

-- `SET used_at = $1, used_by_gateway_id = $2 WHERE token_id = $3`, for one row.
unfoldable pub mark_row : String → ℕ → String → TokenRow → TokenRow
mark_row token_id used_at gateway_id row =
    if row.token_id == token_id
    then record row { used_at = some used_at; used_by_gateway_id = some gateway_id }
    else row

unfoldable pub mark_enrollment_token_used :
    Driver
    → (token_id : String) (used_at : DateTime) (gateway_id : String)
    → Exec PostgresRegistrationStore (Unit {0})
unfolding mark_row image
mark_enrollment_token_used driver token_id used_at gateway_id = modify λ s. record s {
  enrollment_tokens =
      image (mark_row token_id (driver.instant used_at) gateway_id) s.enrollment_tokens;
}

-- `a = b` on columns that may be NULL, as a condition: it is not true if one is.
abbrev pub equal_texts : Option String → Option String → Bool
equal_texts none b = false
equal_texts (some a) none = false
equal_texts (some a) (some b) = a == b

-- `COALESCE(a, b)`
abbrev pub coalesce : {A : Type 0} → Option A → Option A → Option A
coalesce none b = b
coalesce (some a) b = some a

-- The SET of the UPDATE: `registered_at` stays.
abbrev pub rotated : Driver → GatewayIdentity → IdentityRow → IdentityRow
rotated driver identity row = record row {
  tenant_id = coalesce row.tenant_id identity.tenant_id;
  public_key_fingerprint = identity.public_key_fingerprint;
  certificate_pem = identity.certificate_pem;
  certificate_serial = identity.certificate_serial;
  certificate_not_after = driver.instant identity.certificate_not_after;
  last_rotated_at = driver.instant identity.last_rotated_at;
}

-- INSERT ... ON CONFLICT (gateway_id) DO UPDATE ... WHERE ... RETURNING *, for the row with the id.
unfoldable pub upserted_identity :
    Driver → GatewayIdentity → Option IdentityRow → Option IdentityRow
unfolding identity_row
upserted_identity driver identity none = some (identity_row driver identity)
upserted_identity driver identity (some row) =
    if is_none row.tenant_id || equal_texts row.tenant_id identity.tenant_id
    then some (rotated driver identity row)
    else none

-- What follows the query, with the row that it returns.
abbrev pub store_identity :
    GatewayIdentity → Option IdentityRow → Exec PostgresRegistrationStore GatewayIdentity
store_identity identity none = raise (identity_mismatch identity.gateway_id)
store_identity identity (some row) = do
  modify (λ s. record s { gateway_identities = put identity.gateway_id row s.gateway_identities })
  pure (row_to_identity row)

unfoldable pub upsert_gateway_identity :
    Driver → GatewayIdentity → Exec PostgresRegistrationStore GatewayIdentity
unfolding upserted_identity row_to_identity
upsert_gateway_identity driver identity s =
    store_identity identity
      (upserted_identity driver identity (lookup identity.gateway_id s.gateway_identities)) s

unfoldable pub get_gateway_identity :
    String → Exec PostgresRegistrationStore (Option GatewayIdentity)
unfolding row_to_identity
get_gateway_identity gateway_id =
    gets (λ s. Option.map row_to_identity (lookup gateway_id s.gateway_identities))
