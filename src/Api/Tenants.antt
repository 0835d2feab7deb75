-- ===== src/Api/Tenants.antt =====
-- src/saas_job_api/routers/tenants.py. A response shows the stored record.
pub mod Laws
use Prim.Native.String.{◌++◌ as concat}
use saas_job_api.Prelude.{String, true, Option, some, List, string_eq}
use saas_job_api.Result.{not_found}
use saas_job_api.Exec.{Exec, pure, lift, require, ◌>>=◌, ◌>>◌}
use saas_job_api.Time.{DateTime}
use saas_job_api.Tenancy.{Tenant}
use saas_job_api.Tenancy.Tenants.{create, get, list_all, delete}
use saas_job_api.Audit.{empty}
use saas_job_api.Api.{App, on_tenants, conflict_of, or_new, record_audit_event}
use saas_job_api.Rbac.{platform_admin}
use saas_job_api.Api.Access.{TokenClaims, require_role, require_tenant_access}

pub record TenantCreateRequest : Type 0 where
  pub tenant_id : Option String
  pub name : String

pub record TenantDraws : Type 0 where
  pub now : DateTime
  pub new_id : String
  pub event_id : String

unfoldable pub new_tenant : TenantCreateRequest → TenantDraws → Tenant
new_tenant body draws = record {
  tenant_id = or_new body.tenant_id draws.new_id;
  name = body.name;
  created_at = draws.now;
  is_active = true;
}

unfoldable pub create_tenant : TenantCreateRequest → TokenClaims → TenantDraws → Exec App Tenant
unfolding require_role new_tenant create record_audit_event
create_tenant body claims draws = do
  lift (require_role platform_admin claims)
  let tenant = new_tenant body draws
  (λ s. conflict_of (on_tenants (create tenant) s))
  record_audit_event draws.event_id "TENANT_CREATED" claims.subject draws.now
      (some tenant.tenant_id) (some "tenant") (some tenant.tenant_id) empty
  pure tenant

unfoldable pub list_tenants : TokenClaims → Exec App (List Tenant)
unfolding require_role list_all
list_tenants claims = do lift (require_role platform_admin claims); on_tenants list_all

unfoldable pub get_tenant : (tenant_id : String) → TokenClaims → Exec App Tenant
unfolding require_tenant_access get
get_tenant tenant_id claims = do
  lift (require_tenant_access claims tenant_id)
  found ← on_tenants (get tenant_id)
  require (not_found (concat "tenant not found: " tenant_id)) found

-- The response names the id that was given.
unfoldable pub delete_tenant : (tenant_id : String) → TokenClaims → TenantDraws → Exec App String
unfolding require_role delete record_audit_event
delete_tenant tenant_id claims draws = do
  lift (require_role platform_admin claims)
  on_tenants (delete tenant_id)
  record_audit_event draws.event_id "TENANT_DELETED" claims.subject draws.now (some tenant_id)
      (some "tenant") (some tenant_id) empty
  pure tenant_id
