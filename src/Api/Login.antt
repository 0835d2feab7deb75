-- ===== src/Api/Login.antt =====
-- src/saas_job_api/routers/admin_auth.py: the login of an administrator.
pub mod Laws
use saas_job_api.Prelude.{ℕ, String, Bool, true, false, Option, none, some, List, if◌then◌else◌}
use saas_job_api.Result.{Result, ok, unauthorized, map_ok}
use saas_job_api.Exec.{Exec, pure, raise, lift, ◌>>=◌, ◌>>◌}
use saas_job_api.Time.{DateTime}
use saas_job_api.Rbac.{AdminPrincipal, AdminRole, get_by_username}
use saas_job_api.Audit.{empty}
use saas_job_api.Tokens.{Library}
use saas_job_api.Tokens.Text.{codes}
use saas_job_api.Tokens.Jwt.{issue_token}
use saas_job_api.Tokens.Passwords.{verify_password}
use saas_job_api.Postgres.Principals.{role_value}
use saas_job_api.Api.{App, on_principals, record_audit_event}

pub record AdminLoginRequest : Type 0 where
  pub username : String
  pub password : String

pub record AdminLoginResponse : Type 0 where
  pub access_token : List ℕ
  pub expires_in : ℕ
  pub role : String
  pub tenant_id : Option String

-- The settings `jwt_secret` and `jwt_ttl_seconds`.
pub record LoginSettings : Type 0 where
  pub jwt_secret : List ℕ
  pub jwt_ttl_seconds : ℕ

module _ (lib : Library) where
  -- `principal is not None and verify_password(...)`, with the principal.
  abbrev pub accepted : String → Option AdminPrincipal → Result (Option AdminPrincipal)
  accepted password none = ok none
  accepted password (some principal) =
      map_ok (λ matches. if matches then some principal else none)
        (verify_password lib (codes password) (codes principal.password_hash))

  unfoldable pub login_response : LoginSettings → ℕ → AdminPrincipal → AdminLoginResponse
  unfolding issue_token role_value
  login_response settings issued_at principal = record {
    access_token =
        issue_token lib settings.jwt_secret principal.principal_id (role_value principal.role)
          issued_at settings.jwt_ttl_seconds principal.tenant_id;
    expires_in = settings.jwt_ttl_seconds;
    role = role_value principal.role;
    tenant_id = principal.tenant_id;
  }

  -- What follows the check of the password. The clock of the audit log and `time.time()`, which
  -- gives the seconds of the token, are two.
  abbrev pub answer_login :
      LoginSettings
      → AdminLoginRequest
      → (event_id : String) (now : DateTime) (issued_at : ℕ) → Option AdminPrincipal
      → Exec App AdminLoginResponse
  answer_login settings body event_id now issued_at none = do
    event ← record_audit_event event_id "ADMIN_LOGIN_FAILED" body.username now none none none empty
    raise unauthorized
  answer_login settings body event_id now issued_at (some principal) = do
    event ←
        record_audit_event event_id "ADMIN_LOGIN_SUCCEEDED" principal.username now
          principal.tenant_id none none empty
    pure (login_response settings issued_at principal)

  unfoldable pub login :
      LoginSettings
      → AdminLoginRequest
      → (event_id : String) (now : DateTime) (issued_at : ℕ) → Exec App AdminLoginResponse
  unfolding verify_password login_response record_audit_event get_by_username
  login settings body event_id now issued_at = do
    found ← on_principals (get_by_username body.username)
    principal ← lift (accepted body.password found)
    answer_login settings body event_id now issued_at principal
