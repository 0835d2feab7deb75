-- ===== src/Api/Access.antt =====
-- src/saas_job_api/auth.py: which administrators may do what, by the claims of a verified token.
pub mod Laws
use saas_job_api.Prelude.{
  String, Bool, true, false, not, ◌||◌, Option, some, List, [], ◌∷◌, string_eq, option_beq,
  if◌then◌else◌,
}
use saas_job_api.Rbac.{AdminRole, platform_admin, tenant_admin, tenant_viewer}
use saas_job_api.Result.{Result, ok, err, forbidden}

-- `TokenClaims` of a token that `jwt_tokens.py` verified. A role is one of the three.
pub record TokenClaims : Type 0 where
  pub subject : String
  pub role : AdminRole
  pub tenant_id : Option String

unfoldable pub role_beq : AdminRole → AdminRole → Bool
role_beq platform_admin platform_admin = true
role_beq platform_admin tenant_admin = false
role_beq platform_admin tenant_viewer = false
role_beq tenant_admin platform_admin = false
role_beq tenant_admin tenant_admin = true
role_beq tenant_admin tenant_viewer = false
role_beq tenant_viewer platform_admin = false
role_beq tenant_viewer tenant_admin = false
role_beq tenant_viewer tenant_viewer = true

unfoldable pub require_role : AdminRole → TokenClaims → Result TokenClaims
unfolding role_beq
require_role role claims = if not (role_beq claims.role role) then err forbidden else ok claims

abbrev pub is_among : AdminRole → List AdminRole → Bool
is_among role [] = false
is_among role (r ∷ rs) = role_beq r role || is_among role rs

unfoldable pub require_any_role : List AdminRole → TokenClaims → Result TokenClaims
require_any_role roles claims =
    if not (is_among claims.role roles) then err forbidden else ok claims

unfoldable pub require_tenant_access : TokenClaims → String → Result (Unit {0})
unfolding role_beq
require_tenant_access claims resource_tenant_id =
    if role_beq claims.role platform_admin
    then ok tt
    else if not (option_beq claims.tenant_id (some resource_tenant_id))
    then err forbidden
    else ok tt
