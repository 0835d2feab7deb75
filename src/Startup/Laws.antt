-- ===== src/Startup/Laws.antt =====
-- The first administrator can log in.
use mathlib.Core.Path.{◌∙◌}
use saas_job_api.Prelude.{ℕ, String, true, Option, none, some, List, string_eq, ◌≡◌, refl, beq_refl}
use saas_job_api.Prelude.Int.{pos}
use saas_job_api.Result.{ok, bind_inv}
use saas_job_api.Time.{DateTime}
use saas_job_api.Dict.{lookup, put}
use saas_job_api.Dict.Laws.{lookup-put}
use saas_job_api.Rbac.{AdminPrincipal, MemoryRbacStore, get_by_username, create_principal}
use saas_job_api.Tokens.{Library, IsCodec}
use saas_job_api.Tokens.Text.{codes}
use saas_job_api.Tokens.Passwords.{
  IsNumeral, iterations, hash_password, verify_password, verify_password-hash_password,
}
use saas_job_api.Api.{App, on_principals, record_audit_event}
use saas_job_api.Api.Login.{AdminLoginRequest, LoginSettings, login, login_response}
use saas_job_api.Startup.{
  BootstrapSettings, first_admin, given, add_admin, bootstrap_admin_principal,
}

module _ (lib : Library) (codec : IsCodec lib) (numeral : IsNumeral lib)
    (text_of : List ℕ → String) where
  -- The password of a hashed password is accepted.
  accepts_own :
      (password salt stored : List ℕ)
      → hash_password lib password salt ≡ ok stored
      → verify_password lib password stored ≡ ok true
  unfolding hash_password
  accepts_own password salt stored hashed =
      let (derived, d, _) = bind_inv (lib.pbkdf2 password salt (pos iterations)) _ hashed in
      (verify_password-hash_password lib codec numeral password password salt stored derived derived
        hashed d d).0

  keeps_admin :
      (username : String) (password : Option String) (other_id : String) (salt : List ℕ)
      (now : DateTime) (d : MemoryRbacStore) (p : AdminPrincipal)
      → lookup username d ≡ some p
      → add_admin lib text_of (some username) password other_id salt now d ≡ (ok tt, d)
  unfolding get_by_username
  keeps_admin username none other_id salt now d p found = refl
  keeps_admin username (some password) other_id salt now d p found = rw found refl

  -- An added administrator can log in. If the settings have a username and a password that are
  -- not empty, no administrator has the username, and hashing the password returns a list of
  -- code points which text_of turns into a text with the same code points, then start-up adds a
  -- platform administrator and nothing else. A login with the username and the password returns
  -- a token for it, and another start-up with the username, whatever the password, changes
  -- nothing. Decoding base64 gives back what was encoded, a base64 text has no dollar sign
  -- before its padding, and a numeral has none and is read as its number.
  pub bootstrap_then_login :
      (settings again : BootstrapSettings) (principal_id other_id username password : String)
      (salt other_salt stored : List ℕ) (now later : DateTime) (s : App)
      (login_settings : LoginSettings) (event_id : String) (issued_at : ℕ)
      → given settings.username ≡ some username
      → given settings.password ≡ some password
      → given again.username ≡ some username
      → lookup username s.principals ≡ none
      → hash_password lib (codes password) salt ≡ ok stored
      → codes (text_of stored) ≡ stored
      → let admin = first_admin lib text_of principal_id username stored now in
        let started : App = record s { principals = put username admin s.principals } in
        let body : AdminLoginRequest = record { username = username; password = password } in
        (on_principals (bootstrap_admin_principal lib text_of settings principal_id salt now) s
          ≡ (ok tt, started))
        × ((login lib login_settings body event_id later issued_at started).0
            ≡ ok (login_response lib login_settings issued_at admin))
        × (on_principals
              (bootstrap_admin_principal lib text_of again other_id other_salt later)
              started
            ≡ (ok tt, started))
  unfolding bootstrap_admin_principal create_principal get_by_username login record_audit_event
  bootstrap_then_login settings again principal_id other_id username password salt other_salt stored
        now later s login_settings event_id issued_at named set named_again fresh hashed read =
      let admin = first_admin lib text_of principal_id username stored now in
      let found : lookup username (put username admin s.principals) ≡ some admin =
        lookup-put username username admin s.principals
        ∙ rw (beq_refl {A = String} username) refl in
      (
        rw (named, set, fresh, hashed, fresh) refl,
        rw (found, read, accepts_own (codes password) salt stored hashed) refl,
        rw
            (
              named_again,
              keeps_admin username (given again.password) other_id other_salt later
                  (put username admin s.principals) admin found,
            )
            refl,
      )
