-- ===== src/Registration.antt =====
-- src/saas_job_api/identity.py and registration_store_memory.py: enrollment tokens, each for one
-- registration, and the identities of the gateways.
pub mod Tokens
pub mod Identities
use Prim.Native.String.{◌++◌ as concat}
use saas_job_api.Prelude.{
  String, Bool, true, false, not, ◌&&◌, Option, none, some, List, [], ◌∷◌, string_eq, ◌==◌, is_none,
  option_beq, if◌then◌else◌,
}
use saas_job_api.Result.{Error, Result, ok, err, value_error}
use saas_job_api.Exec.{Exec, pure, raise, gets, modify, ◌>>=◌, ◌>>◌}
use saas_job_api.Time.{DateTime, is_by}
use saas_job_api.Dict.{Dict, lookup, put}

pub record EnrollmentToken : Type 0 where
  pub token_id : String
  pub token_hash : String
  pub created_at : DateTime
  pub expires_at : DateTime
  pub issued_by : Option String
  pub used_at : Option DateTime
  pub used_by_gateway_id : Option String
  pub tenant_id : Option String

abbrev pub is_used : EnrollmentToken → Bool
is_used token = not (is_none token.used_at)

-- `now >= self.expires_at`
unfoldable pub is_expired : EnrollmentToken → DateTime → Result Bool
unfolding is_by
is_expired token now = is_by token.expires_at now

pub record GatewayIdentity : Type 0 where
  pub gateway_id : String
  pub public_key_fingerprint : String
  pub certificate_pem : String
  pub certificate_serial : String
  pub certificate_not_after : DateTime
  pub registered_at : DateTime
  pub last_rotated_at : DateTime
  pub tenant_id : Option String

-- `GatewayIdentityTenantMismatch`, a ValueError. Its message quotes the id.
abbrev pub identity_mismatch : String → Error
identity_mismatch gateway_id =
    value_error (concat (concat "Gateway '" gateway_id) "' is already bound to another tenant")

pub record MemoryRegistrationStore : Type 0 where
  pub tokens_by_hash : Dict String EnrollmentToken
  pub identities : Dict String GatewayIdentity

unfoldable pub create_enrollment_token :
    EnrollmentToken → Exec MemoryRegistrationStore EnrollmentToken
create_enrollment_token token = do
  modify (λ s. record s { tokens_by_hash = put token.token_hash token s.tokens_by_hash })
  pure token

unfoldable pub get_enrollment_token_by_hash :
    String → Exec MemoryRegistrationStore (Option EnrollmentToken)
get_enrollment_token_by_hash token_hash = gets (λ s. lookup token_hash s.tokens_by_hash)

abbrev pub used : DateTime → String → EnrollmentToken → EnrollmentToken
used used_at gateway_id token = record token {
  used_at = some used_at;
  used_by_gateway_id = some gateway_id;
}

-- The loop over the tokens changes the first one with the id, and stops.
unfoldable pub mark_first :
    (token_id : String) (used_at : DateTime) (gateway_id : String)
    → Dict String EnrollmentToken
    → Dict String EnrollmentToken
mark_first token_id used_at gateway_id [] = []
mark_first token_id used_at gateway_id ((h, token) ∷ d) =
    if token.token_id == token_id
    then (h, used used_at gateway_id token) ∷ d
    else (h, token) ∷ mark_first token_id used_at gateway_id d

unfoldable pub mark_enrollment_token_used :
    (token_id : String) (used_at : DateTime) (gateway_id : String)
    → Exec MemoryRegistrationStore (Unit {0})
unfolding mark_first
mark_enrollment_token_used token_id used_at gateway_id =
    modify
      (λ s. record s { tokens_by_hash = mark_first token_id used_at gateway_id s.tokens_by_hash })

-- Whether the identity that stands is bound to a tenant other than that of the new one.
abbrev pub is_rebound : Option GatewayIdentity → Option String → Bool
is_rebound none tenant_id = false
is_rebound (some previous) tenant_id =
    not (is_none previous.tenant_id) && not (option_beq previous.tenant_id tenant_id)

unfoldable pub upsert_gateway_identity :
    GatewayIdentity → Exec MemoryRegistrationStore GatewayIdentity
upsert_gateway_identity identity = do
  previous ← gets (λ s. lookup identity.gateway_id s.identities)
  if is_rebound previous identity.tenant_id
      then raise (identity_mismatch identity.gateway_id)
      else (do
        modify (λ s. record s { identities = put identity.gateway_id identity s.identities })
        pure identity)

unfoldable pub get_gateway_identity : String → Exec MemoryRegistrationStore (Option GatewayIdentity)
get_gateway_identity gateway_id = gets (λ s. lookup gateway_id s.identities)
