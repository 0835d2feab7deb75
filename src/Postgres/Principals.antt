-- ===== src/Postgres/Principals.antt =====
-- src/saas_job_api/rbac_store_postgres.py: `PostgresRbacStore`, the table `admin_principals` by its
-- unique index on the username.
pub mod View
use Prim.Native.String.{◌++◌ as concat}
use saas_job_api.Prelude.{
  ℕ, String, Bool, true, false, ◌||◌, not, Option, none, some, List, [], ◌∷◌, string_eq, ◌==◌,
  is_none, if◌then◌else◌,
}
use saas_job_api.Result.{Result, ok, err, value_error, ◌>>=◌}
use saas_job_api.Exec.{Exec}
use saas_job_api.Time.{aware}
use saas_job_api.Dict.{Dict, lookup, put}
use saas_job_api.Rbac.{AdminPrincipal, AdminRole, platform_admin, tenant_admin, tenant_viewer}
use saas_job_api.Postgres.{Driver}

pub record PrincipalRow : Type 0 where
  pub principal_id : String
  pub username : String
  pub password_hash : String
  pub role : String
  pub created_at : ℕ
  pub tenant_id : Option String

abbrev pub PostgresRbacStore : Type 0
PostgresRbacStore = Dict String PrincipalRow

-- `role.value`
unfoldable pub role_value : AdminRole → String
role_value platform_admin = "platform_admin"
role_value tenant_admin = "tenant_admin"
role_value tenant_viewer = "tenant_viewer"

-- `AdminRole(value)`
unfoldable pub admin_role : String → Result AdminRole
admin_role value =
    if value == "platform_admin"
    then ok platform_admin
    else if value == "tenant_admin"
    then ok tenant_admin
    else if value == "tenant_viewer"
    then ok tenant_viewer
    else err (value_error (concat (concat "'" value) "' is not a valid AdminRole"))

unfoldable pub principal_row : Driver → AdminPrincipal → PrincipalRow
unfolding role_value
principal_row driver principal = record {
  principal_id = principal.principal_id;
  username = principal.username;
  password_hash = principal.password_hash;
  role = role_value principal.role;
  created_at = driver.instant principal.created_at;
  tenant_id = principal.tenant_id;
}

-- Whether the primary key is taken.
unfoldable pub has_principal_id : String → PostgresRbacStore → Bool
has_principal_id principal_id [] = false
has_principal_id principal_id ((k, row) ∷ rows) =
    row.principal_id == principal_id || has_principal_id principal_id rows

-- A violation of either constraint is taken as one of the username.
unfoldable pub create_principal : Driver → AdminPrincipal → Exec PostgresRbacStore AdminPrincipal
unfolding principal_row has_principal_id
create_principal driver principal s =
    if not (is_none (lookup principal.username s)) || has_principal_id principal.principal_id s
    then (err (value_error (concat "username already exists: " principal.username)), s)
    else (ok principal, put principal.username (principal_row driver principal) s)

unfoldable pub row_to_principal : PrincipalRow → Result AdminPrincipal
unfolding admin_role
row_to_principal row = do
  role ← admin_role row.role
  ok (record {
    principal_id = row.principal_id;
    username = row.username;
    password_hash = row.password_hash;
    role = role;
    created_at = aware row.created_at;
    tenant_id = row.tenant_id;
  })

abbrev pub principal_of : Option PrincipalRow → Result (Option AdminPrincipal)
principal_of none = ok none
principal_of (some row) = do principal ← row_to_principal row; ok (some principal)

unfoldable pub get_by_username : String → Exec PostgresRbacStore (Option AdminPrincipal)
unfolding row_to_principal
get_by_username username s = (principal_of (lookup username s), s)
