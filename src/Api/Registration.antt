-- ===== src/Api/Registration.antt =====
-- src/saas_job_api/routers/registration.py: enrollment tokens, and the registration of a gateway.
pub mod Laws
pub mod Races
use Prim.Native.String.{◌++◌ as concat}
use saas_job_api.Prelude.{
  ℕ, String, Bool, true, false, not, ◌||◌, Option, none, some, List, [], ◌∷◌, string_eq, option_beq,
  is_none, if◌then◌else◌,
}
use saas_job_api.Result.{
  Error, Result, ok, err, unauthorized, forbidden, type_error, database_error, conflict,
  bad_request, not_found, value_error,
}
use saas_job_api.Exec.{Exec, pure, raise, lift, gets, require, ◌>>=◌, ◌>>◌}
use saas_job_api.Time.{DateTime, later}
use saas_job_api.Dict.{lookup}
use saas_job_api.Certificates.{Cryptography, Signed, sign_gateway_csr}
use saas_job_api.Registration.{
  EnrollmentToken, GatewayIdentity, is_used, is_expired, is_rebound, create_enrollment_token,
  get_enrollment_token_by_hash, mark_enrollment_token_used, upsert_gateway_identity,
  get_gateway_identity,
}
use saas_job_api.Audit.{empty}
use saas_job_api.Tenancy.Tenants as Tenants
use saas_job_api.Rbac.{platform_admin}
use saas_job_api.Api.{App, Settings, on_registration, on_tenants, record_audit_event}
use saas_job_api.Api.Access.{TokenClaims, require_role}

-- What issuing a token draws: a reading of the clock, the token and two ids.
pub record IssueDraws : Type 0 where
  pub now : DateTime
  pub plaintext : String
  pub token_id : String
  pub event_id : String

pub record EnrollmentTokenResponse : Type 0 where
  pub token : String
  pub expires_at : DateTime

-- `if tenant_id is not None and await tenant_store.get(tenant_id) is None: raise ...`
abbrev pub check_tenant : Option String → Exec App (Unit {0})
unfolding Tenants.get
check_tenant none = pure tt
check_tenant (some tenant_id) = do
  found ← on_tenants (Tenants.get tenant_id)
  if is_none found then raise (not_found "Tenant not found") else pure tt

unfoldable pub new_token :
    (sha256 : String → String)
    → Settings
    → Option String
    → TokenClaims
    → IssueDraws
    → EnrollmentToken
new_token sha256 settings tenant_id principal draws = record {
  token_id = draws.token_id;
  token_hash = sha256 draws.plaintext;
  created_at = draws.now;
  expires_at = later draws.now settings.enrollment_token_ttl_seconds;
  issued_by = some principal.subject;
  used_at = none;
  used_by_gateway_id = none;
  tenant_id = tenant_id;
}

-- `sha256` is `_hash_token`, SHA-256 in hex. `tenant_id` is that of the body, if there is one.
unfoldable pub issue_enrollment_token :
    (sha256 : String → String)
    → Settings
    → Option String
    → TokenClaims
    → IssueDraws
    → Exec App EnrollmentTokenResponse
unfolding require_role new_token create_enrollment_token record_audit_event Tenants.get
issue_enrollment_token sha256 settings tenant_id principal draws = do
  lift (require_role platform_admin principal)
  check_tenant tenant_id
  let token = new_token sha256 settings tenant_id principal draws
  on_registration (create_enrollment_token token)
  record_audit_event draws.event_id "ENROLLMENT_TOKEN_ISSUED" principal.subject draws.now tenant_id
      (some "enrollment_token") (some token.token_id) empty
  pure (record { token = draws.plaintext; expires_at = token.expires_at })

pub record GatewayRegisterRequest : Type 0 where
  pub enrollment_token : String
  pub gateway_id : String
  pub csr_pem : String

-- `signed_at` is the reading of the clock in certs.py.
pub record RegisterDraws : Type 0 where
  pub now : DateTime
  pub signed_at : DateTime
  pub serial : String
  pub event_id : String

pub record GatewayRegisterResponse : Type 0 where
  pub gateway_id : String
  pub certificate_pem : String
  pub not_after : DateTime

-- `token is None or token.is_used or token.is_expired(now)`
abbrev pub valid_token : Option EnrollmentToken → DateTime → Result EnrollmentToken
valid_token none now = err unauthorized
valid_token (some token) now =
    if is_used token then err unauthorized else elim (is_expired token now) [
      | err e ↦ err e
      | ok expired ↦ if expired then err unauthorized else ok token
    ]

abbrev pub bound_tenant : Option GatewayIdentity → Option String → Option String
bound_tenant none tenant_id = tenant_id
bound_tenant (some existing) tenant_id =
    if is_none existing.tenant_id || option_beq existing.tenant_id (some "")
    then tenant_id
    else existing.tenant_id

abbrev pub first_registered : Option GatewayIdentity → DateTime → DateTime
first_registered none now = now
first_registered (some existing) now = existing.registered_at

-- `except GatewayIdentityTenantMismatch as exc: raise UnauthorizedError() from exc`
abbrev pub unauthorized_of : {A : Type 0} → Result A × App → Result A × App
unauthorized_of (err (value_error text), s) = (err unauthorized, s)
unauthorized_of (err unauthorized, s) = (err unauthorized, s)
unauthorized_of (err forbidden, s) = (err forbidden, s)
unauthorized_of (err type_error, s) = (err type_error, s)
unauthorized_of (err database_error, s) = (err database_error, s)
unauthorized_of (err (conflict text), s) = (err (conflict text), s)
unauthorized_of (err (bad_request text), s) = (err (bad_request text), s)
unauthorized_of (err (not_found text), s) = (err (not_found text), s)
unauthorized_of (ok a, s) = (ok a, s)

unfoldable pub new_identity :
    GatewayRegisterRequest
    → RegisterDraws
    → Option GatewayIdentity
    → EnrollmentToken
    → Signed
    → (fingerprint : String) → GatewayIdentity
new_identity body draws existing token signed fingerprint = record {
  gateway_id = body.gateway_id;
  public_key_fingerprint = fingerprint;
  certificate_pem = signed.certificate_pem;
  certificate_serial = signed.serial;
  certificate_not_after = signed.not_after;
  registered_at = first_registered existing draws.now;
  last_rotated_at = draws.now;
  tenant_id = bound_tenant existing token.tenant_id;
}

-- The fingerprint of the request's key, which is parsed a second time.
abbrev pub fingerprint_of : {Csr : Type 0} → Cryptography Csr → Option Csr → Result String
fingerprint_of crypto none = err (value_error "malformed CSR")
fingerprint_of crypto (some csr) = elim (crypto.public_key_fingerprint csr) [
  | none ↦ err (bad_request "gateway public key must be Ed25519")
  | some fingerprint ↦ ok fingerprint
]

module _ {Csr : Type 0} (crypto : Cryptography Csr) (validity_days : ℕ)
    (sha256 : String → String) where
  -- The certificate and the fingerprint of the key, which no store is asked for.
  unfoldable pub certify : GatewayRegisterRequest → RegisterDraws → Result (Signed × String)
  unfolding sign_gateway_csr
  certify body draws =
      elim (sign_gateway_csr crypto validity_days body.csr_pem body.gateway_id draws.signed_at
        draws.serial) [
          | err e ↦ err e
          | ok signed ↦ elim (fingerprint_of crypto (crypto.load_pem_x509_csr body.csr_pem)) [
            | err e ↦ err e
            | ok fingerprint ↦ ok (signed, fingerprint)
          ]
        ]

  -- The part of a registration after the check of its token.
  unfoldable pub enroll :
      GatewayRegisterRequest → RegisterDraws → EnrollmentToken → Exec App GatewayRegisterResponse
  unfolding certify new_identity get_gateway_identity upsert_gateway_identity
      mark_enrollment_token_used record_audit_event
  enroll body draws token = do
    certified ← lift (certify body draws)
    existing ← on_registration (get_gateway_identity body.gateway_id)
    if is_rebound existing token.tenant_id then raise unauthorized else (do
      let identity = new_identity body draws existing token certified.0 certified.1
      (λ s. unauthorized_of (on_registration (upsert_gateway_identity identity) s))
      on_registration (mark_enrollment_token_used token.token_id draws.now body.gateway_id)
      record_audit_event draws.event_id "GATEWAY_REGISTERED" body.gateway_id draws.now none
          (some "gateway") (some body.gateway_id) empty
      pure (record {
        gateway_id = body.gateway_id;
        certificate_pem = certified.0.certificate_pem;
        not_after = certified.0.not_after;
      }))

  -- The check of the token.
  unfoldable pub admit : GatewayRegisterRequest → RegisterDraws → App → Result EnrollmentToken
  unfolding is_expired
  admit body draws s =
      valid_token (lookup (sha256 body.enrollment_token) s.registration.tokens_by_hash) draws.now

  unfoldable pub register_gateway :
      GatewayRegisterRequest → RegisterDraws → Exec App GatewayRegisterResponse
  unfolding admit enroll
  register_gateway body draws s = elim (admit body draws s) [
    | err e ↦ (err e, s)
    | ok token ↦ enroll body draws token s
  ]

-- Any authenticated administrator may ask.
unfoldable pub get_registration_status : (gateway_id : String) → Exec App GatewayIdentity
unfolding get_gateway_identity
get_registration_status gateway_id = do
  found ← on_registration (get_gateway_identity gateway_id)
  require (not_found (concat (concat "gateway '" gateway_id) "' is not registered")) found
