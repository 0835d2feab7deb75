-- ===== src/Api/Access/Laws.antt =====
-- Who is let through.
use saas_job_api.Prelude.{String, ◌≡◌, ◌↔◌, ◌⊎◌, true, some, arith, string_eq, option_beq_iff}
use saas_job_api.Result.{ok}
use saas_job_api.Rbac.{AdminRole, platform_admin, tenant_admin, tenant_viewer}
use saas_job_api.Api.Access.{TokenClaims, role_beq, require_role, require_tenant_access}

role_beq_iff : (a b : AdminRole) → (role_beq a b ≡ true) ↔ (a ≡ b)
unfolding role_beq
role_beq_iff platform_admin platform_admin = ground arith
role_beq_iff platform_admin tenant_admin = ground arith
role_beq_iff platform_admin tenant_viewer = ground arith
role_beq_iff tenant_admin platform_admin = ground arith
role_beq_iff tenant_admin tenant_admin = ground arith
role_beq_iff tenant_admin tenant_viewer = ground arith
role_beq_iff tenant_viewer platform_admin = ground arith
role_beq_iff tenant_viewer tenant_admin = ground arith
role_beq_iff tenant_viewer tenant_viewer = ground arith

-- A tenant's resources are open to platform administrators and to those whose token is of the
-- tenant, and to no other.
pub require_tenant_access_iff :
    (claims : TokenClaims) (tenant_id : String)
    → (require_tenant_access claims tenant_id ≡ ok tt)
      ↔ ((claims.role ≡ platform_admin) ⊎ (claims.tenant_id ≡ some tenant_id))
unfolding require_tenant_access
require_tenant_access_iff claims tenant_id = ground (
  arith,
  role_beq_iff claims.role platform_admin,
  option_beq_iff claims.tenant_id (some tenant_id),
)

-- A role stands for itself only: a platform administrator is refused where another role is asked
-- for.
pub require_role_iff :
    (role : AdminRole) (claims : TokenClaims)
    → (require_role role claims ≡ ok claims) ↔ (claims.role ≡ role)
unfolding require_role
require_role_iff role claims = ground (arith, role_beq_iff claims.role role)
