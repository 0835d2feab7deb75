-- ===== src/Api/Targets.antt =====
-- src/saas_job_api/routers/targets.py: a tenant's targets. A response shows the stored record.
pub mod Laws
use Prim.Native.String.{◌++◌ as concat}
use saas_job_api.Prelude.{String, Bool, true, false, Option, none, some, List, [], ◌∷◌, string_eq}
use saas_job_api.Prelude.Int.{ℤ}
use saas_job_api.Result.{not_found}
use saas_job_api.Exec.{Exec, pure, lift, require, ◌>>=◌, ◌>>◌}
use saas_job_api.Time.{DateTime}
use saas_job_api.Tenancy.{Target}
use saas_job_api.Tenancy.Targets.{create, get, list_by_tenant, delete}
use saas_job_api.Audit.{empty}
use saas_job_api.Api.{App, on_targets, conflict_of, or_new, record_audit_event}
use saas_job_api.Rbac.{AdminRole, platform_admin, tenant_admin}
use saas_job_api.Api.Access.{TokenClaims, require_any_role, require_tenant_access}

pub record TargetCreateRequest : Type 0 where
  pub target_id : Option String
  pub name : String
  pub host : String
  pub port : ℤ
  pub plugin_ref : String
  pub plugin_version : String
  pub credential_ref : Option String

-- The reading of the clock and the new ids of a request.
pub record Draws : Type 0 where
  pub now : DateTime
  pub new_id : String
  pub event_id : String

abbrev pub write_roles : List AdminRole
write_roles = platform_admin ∷ tenant_admin ∷ []

unfoldable pub new_target : String → TargetCreateRequest → Draws → Target
new_target tenant_id body draws = record {
  target_id = or_new body.target_id draws.new_id;
  tenant_id = tenant_id;
  name = body.name;
  host = body.host;
  port = body.port;
  plugin_ref = body.plugin_ref;
  plugin_version = body.plugin_version;
  created_at = draws.now;
  credential_ref = body.credential_ref;
}

unfoldable pub create_target :
    (tenant_id : String) → TargetCreateRequest → TokenClaims → Draws → Exec App Target
unfolding require_any_role require_tenant_access new_target create record_audit_event
create_target tenant_id body claims draws = do
  lift (require_any_role write_roles claims)
  lift (require_tenant_access claims tenant_id)
  let target = new_target tenant_id body draws
  (λ s. conflict_of (on_targets (create target) s))
  record_audit_event draws.event_id "TARGET_CREATED" claims.subject draws.now (some tenant_id)
      (some "target") (some target.target_id) empty
  pure target

unfoldable pub list_targets : (tenant_id : String) → TokenClaims → Exec App (List Target)
unfolding require_tenant_access list_by_tenant
list_targets tenant_id claims = do
  lift (require_tenant_access claims tenant_id)
  on_targets (list_by_tenant tenant_id)

unfoldable pub get_target : (tenant_id target_id : String) → TokenClaims → Exec App Target
unfolding require_tenant_access get
get_target tenant_id target_id claims = do
  lift (require_tenant_access claims tenant_id)
  found ← on_targets (get tenant_id target_id)
  require (not_found (concat "target not found: " target_id)) found

unfoldable pub delete_target :
    (tenant_id target_id : String) → TokenClaims → Draws → Exec App (Unit {0})
unfolding require_any_role require_tenant_access delete record_audit_event
delete_target tenant_id target_id claims draws = do
  lift (require_any_role write_roles claims)
  lift (require_tenant_access claims tenant_id)
  on_targets (delete tenant_id target_id)
  record_audit_event draws.event_id "TARGET_DELETED" claims.subject draws.now (some tenant_id)
      (some "target") (some target_id) empty
  pure tt
