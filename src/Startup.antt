-- ===== src/Startup.antt =====
-- src/saas_job_api/main.py: the first administrator, whom start-up adds. The new id, the salt and
-- the clock reading are arguments.
pub mod Laws
use saas_job_api.Prelude.{
  ℕ, String, Bool, true, false, Option, none, some, List, [], string_eq, is_none, ◌==◌,
  if◌then◌else◌,
}
use saas_job_api.Exec.{Exec, pure, lift, ◌>>=◌}
use saas_job_api.Time.{DateTime}
use saas_job_api.Rbac.{
  AdminPrincipal, MemoryRbacStore, platform_admin, create_principal, get_by_username,
}
use saas_job_api.Tokens.{Library}
use saas_job_api.Tokens.Text.{codes}
use saas_job_api.Tokens.Passwords.{hash_password}

-- The settings `bootstrap_admin_username` and `bootstrap_admin_password`.
pub record BootstrapSettings : Type 0 where
  pub username : Option String
  pub password : Option String

-- The setting if it is neither `None` nor empty.
abbrev pub given : Option String → Option String
given none = none
given (some s) = if s == "" then none else some s

-- `text_of` gives the text with the code points of a list.
module _ (lib : Library) (text_of : List ℕ → String) where
  abbrev pub first_admin : (principal_id username : String) → List ℕ → DateTime → AdminPrincipal
  first_admin principal_id username stored now = record {
    principal_id = principal_id;
    username = username;
    password_hash = text_of stored;
    role = platform_admin;
    created_at = now;
    tenant_id = none;
  }

  abbrev pub add_admin :
      Option String
      → Option String
      → (principal_id : String) (salt : List ℕ) (now : DateTime) → Exec MemoryRbacStore (Unit {0})
  add_admin none password principal_id salt now = pure tt
  add_admin (some username) none principal_id salt now = pure tt
  add_admin (some username) (some password) principal_id salt now = do
    found ← get_by_username username
    if is_none found
        then (do
          stored ← lift (hash_password lib (codes password) salt)
          created ← create_principal (first_admin principal_id username stored now)
          pure tt)
        else pure tt

  unfoldable pub bootstrap_admin_principal :
      BootstrapSettings
      → (principal_id : String) (salt : List ℕ) (now : DateTime) → Exec MemoryRbacStore (Unit {0})
  unfolding hash_password create_principal get_by_username
  bootstrap_admin_principal settings principal_id salt now =
      add_admin (given settings.username) (given settings.password) principal_id salt now
