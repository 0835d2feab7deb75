-- ===== src/Api/Login/Laws.antt =====
-- What a login answers and records (src/saas_job_api/routers/admin_auth.py), and that its token
-- verifies (src/saas_job_api/jwt_tokens.py).
use mathlib.Core.Path.{subst, ap, ◌∙◌}
use saas_job_api.Prelude.{
  ℕ, ◌+◌, ◌≤◌, String, ◌≡◌, refl, inl, inr, true, false, Option, none, some, [], ◌∷◌, ◌++◌, arith,
  ltb, Bool-cases, string_eq,
}
use saas_job_api.Prelude.Int.{pos}
use saas_job_api.Result.{ok, err, unauthorized, Result-cases}
use saas_job_api.Time.{DateTime}
use saas_job_api.Dict.{lookup}
use saas_job_api.Audit.{AuditEvent, empty}
use saas_job_api.Rbac.{AdminPrincipal, get_by_username}
use saas_job_api.Tokens.{Library, IsCodec, IsReadable, text, number}
use saas_job_api.Tokens.Text.{codes}
use saas_job_api.Tokens.Jwt.{payload, checked, verify_token, tenant_value}
use saas_job_api.Tokens.RoundTrip.{verify_token-issue_token}
use saas_job_api.Tokens.Passwords.{verify_password}
use saas_job_api.Postgres.Principals.{role_value}
use saas_job_api.Api.{App, record_audit_event}
use saas_job_api.Api.Login.{
  AdminLoginRequest, AdminLoginResponse, LoginSettings, login, login_response, accepted,
}

-- The event of a login.
abbrev pub login_event :
    (event_id event_type actor : String) → DateTime → Option String → AuditEvent
login_event event_id event_type actor now tenant_id = record {
  event_id = event_id;
  event_type = event_type;
  actor = actor;
  tenant_id = tenant_id;
  resource_type = none;
  resource_id = none;
  detail = empty;
  occurred_at = now;
}

-- A login of a known or an unknown user is answered and recorded. If the check of the password
-- returns for every administrator with the username, then the login either returns a token for one
-- whose password it has accepted, and appends the event of a success to the audit log, or it is
-- unauthorized, and appends the event of a failure with the username that was tried. It changes
-- nothing else.
pub login_answers :
    (lib : Library) (settings : LoginSettings) (body : AdminLoginRequest) (event_id : String)
    (now : DateTime) (issued_at : ℕ) (s : App) (principal : Option AdminPrincipal)
    → accepted lib body.password (lookup body.username s.principals) ≡ ok principal
    → login lib settings body event_id now issued_at s ≡ (elim principal [
      | none ↦ (
        err unauthorized,
        record s {
          audit = s.audit ++ login_event event_id "ADMIN_LOGIN_FAILED" body.username now none ∷ [];
        },
      )
      | some p ↦ (
        ok (login_response lib settings issued_at p),
        record s {
          audit =
              s.audit
              ++ login_event event_id "ADMIN_LOGIN_SUCCEEDED" p.username now p.tenant_id ∷ [];
        },
      )
    ])
unfolding login get_by_username record_audit_event
login_answers lib settings body event_id now issued_at s none h = rw h refl
login_answers lib settings body event_id now issued_at s (some p) h = rw h refl

-- While the time to live of the answer lasts, its token verifies to the claims of the principal.
abbrev IsVerified :
    Library → LoginSettings → (t later : ℕ) → AdminPrincipal → AdminLoginResponse → Type 0
IsVerified lib settings t later p response =
    later ≤ t + response.expires_in
    → verify_token lib settings.jwt_secret response.access_token later
      ≡ checked (record {
        subject = text p.principal_id;
        role = text (role_value p.role);
        issued_at = number (pos t);
        expires_at = number (pos (t + response.expires_in));
        tenant_id = tenant_value p.tenant_id;
      })

response_verifies :
    (lib : Library) (settings : LoginSettings) (t later : ℕ) (p : AdminPrincipal)
    → IsCodec lib
    → IsReadable lib
        (payload p.principal_id (role_value p.role) t settings.jwt_ttl_seconds p.tenant_id)
    → IsVerified lib settings t later p (login_response lib settings t p)
unfolding login_response
response_verifies lib settings t later p codec readable soon =
    let live : ltb (t + settings.jwt_ttl_seconds) later ≡ false = ground arith in
    verify_token-issue_token lib codec settings.jwt_secret p.principal_id (role_value p.role) t
      settings.jwt_ttl_seconds p.tenant_id later readable
    ∙ rw live refl

-- The token of a login is valid for as long as the answer says. If the administrator p has the
-- username, and the login returns at the second t, then the check of the password has accepted it,
-- and until the end of expires_in seconds after t verify_token gives the id, the role and the
-- tenant of p. JSON and base64 give back what they have encoded, and a base64 text has ASCII
-- letters and no full stop before its padding.
pub login_token_verifies :
    (lib : Library) (settings : LoginSettings) (body : AdminLoginRequest) (event_id : String)
    (now : DateTime) (t later : ℕ) (s : App) (p : AdminPrincipal) (response : AdminLoginResponse)
    → IsCodec lib
    → IsReadable lib
        (payload p.principal_id (role_value p.role) t settings.jwt_ttl_seconds p.tenant_id)
    → lookup body.username s.principals ≡ some p
    → (login lib settings body event_id now t s).0 ≡ ok response
    → later ≤ t + response.expires_in
    → (verify_password lib (codes body.password) (codes p.password_hash) ≡ ok true)
      × (verify_token lib settings.jwt_secret response.access_token later
          ≡ checked (record {
            subject = text p.principal_id;
            role = text (role_value p.role);
            issued_at = number (pos t);
            expires_at = number (pos (t + response.expires_in));
            tenant_id = tenant_value p.tenant_id;
          }))
unfolding login get_by_username record_audit_event
login_token_verifies lib settings body event_id now t later s p response codec readable found
      returned soon =
    elim (Result-cases (verify_password lib (codes body.password) (codes p.password_hash))) [
      | inr (e, c) ↦ cc (rw (found, c) at returned)
      | inl (matches, c) ↦ elim (Bool-cases matches) [
        | inr wrong ↦ cc (rw (found, c, wrong) at returned)
        | inl right ↦
            let same : login_response lib settings t p ≡ response =
              cc (rw (found, c, right) at returned) in
            (
              c ∙ ap ok right,
              subst (IsVerified lib settings t later p) same
                  (response_verifies lib settings t later p codec readable) soon,
            )
      ]
    ]
