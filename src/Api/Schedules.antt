-- ===== src/Api/Schedules.antt =====
-- src/saas_job_api/routers/schedules.py: a tenant's schedules. A response shows the stored record.
use Prim.Native.String.{◌++◌ as concat}
use saas_job_api.Prelude.{String, true, Option, none, some, List, string_eq, ltb}
use saas_job_api.Prelude.Int.{ℤ, pos_part}
use saas_job_api.Result.{bad_request, not_found}
use saas_job_api.Exec.{Exec, pure, lift, require, guard, ◌>>=◌, ◌>>◌}
use saas_job_api.Time.{DateTime}
use saas_job_api.Tenancy.{Schedule}
use saas_job_api.Tenancy.Schedules.{create, get, list_by_tenant, delete}
use saas_job_api.Tenancy.Targets as Targets
use saas_job_api.Audit.{empty}
use saas_job_api.Api.{App, on_targets, on_schedules, conflict_of, or_new, record_audit_event}
use saas_job_api.Api.Access.{TokenClaims, require_any_role, require_tenant_access}
use saas_job_api.Api.Targets.{Draws, write_roles}

-- The interval is a duration, so it counts microseconds here.
pub record ScheduleCreateRequest : Type 0 where
  pub schedule_id : Option String
  pub target_id : String
  pub job_type : String
  pub manifest_version : String
  pub interval_seconds : ℤ
  pub next_run_at : Option DateTime

abbrev at_or_now : Option DateTime → DateTime → DateTime
at_or_now none now = now
at_or_now (some t) now = t

unfoldable pub new_schedule : String → ScheduleCreateRequest → Draws → Schedule
new_schedule tenant_id body draws = record {
  schedule_id = or_new body.schedule_id draws.new_id;
  tenant_id = tenant_id;
  target_id = body.target_id;
  job_type = body.job_type;
  manifest_version = body.manifest_version;
  interval_seconds = pos_part body.interval_seconds;
  next_run_at = at_or_now body.next_run_at draws.now;
  created_at = draws.now;
  enabled = true;
  last_run_at = none;
}

unfoldable pub create_schedule :
    (tenant_id : String) → ScheduleCreateRequest → TokenClaims → Draws → Exec App Schedule
unfolding require_any_role require_tenant_access new_schedule create Targets.get record_audit_event
create_schedule tenant_id body claims draws = do
  lift (require_any_role write_roles claims)
  lift (require_tenant_access claims tenant_id)
  guard (ltb 0 (pos_part body.interval_seconds))
      (bad_request "intervalSeconds must be a positive integer")
  found ← on_targets (Targets.get tenant_id body.target_id)
  require (not_found (concat "target not found for this tenant: " body.target_id)) found
  let schedule = new_schedule tenant_id body draws
  (λ s. conflict_of (on_schedules (create schedule) s))
  record_audit_event draws.event_id "SCHEDULE_CREATED" claims.subject draws.now (some tenant_id)
      (some "schedule") (some schedule.schedule_id) empty
  pure schedule

unfoldable pub list_schedules : (tenant_id : String) → TokenClaims → Exec App (List Schedule)
unfolding require_tenant_access list_by_tenant
list_schedules tenant_id claims = do
  lift (require_tenant_access claims tenant_id)
  on_schedules (list_by_tenant tenant_id)

unfoldable pub get_schedule : (tenant_id schedule_id : String) → TokenClaims → Exec App Schedule
unfolding require_tenant_access get
get_schedule tenant_id schedule_id claims = do
  lift (require_tenant_access claims tenant_id)
  found ← on_schedules (get tenant_id schedule_id)
  require (not_found (concat "schedule not found: " schedule_id)) found

unfoldable pub delete_schedule :
    (tenant_id schedule_id : String) → TokenClaims → Draws → Exec App (Unit {0})
unfolding require_any_role require_tenant_access delete record_audit_event
delete_schedule tenant_id schedule_id claims draws = do
  lift (require_any_role write_roles claims)
  lift (require_tenant_access claims tenant_id)
  on_schedules (delete tenant_id schedule_id)
  record_audit_event draws.event_id "SCHEDULE_DELETED" claims.subject draws.now (some tenant_id)
      (some "schedule") (some schedule_id) empty
  pure tt
