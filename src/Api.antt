-- ===== src/Api.antt =====
-- The application: the stores and settings of src/saas_job_api/main.py that the routers share, the
-- checks of src/saas_job_api/auth.py, and the status codes of src/saas_job_api/errors.py. Handlers
-- get the identity that the bearer token stands for, clock readings and new ids as arguments.
pub mod Polling
pub mod Results
pub mod Heartbeat
pub mod Access
pub mod Targets
pub mod Schedules
pub mod Tenants
pub mod Registration
pub mod GatewaySettings
pub mod AuditLog
pub mod Admin
pub mod Login
use saas_job_api.Prelude.{
  ℕ, String, Bool, true, false, not, Option, none, some, List, string_eq, ◌==◌, if◌then◌else◌,
}
use saas_job_api.Result.{
  Error, unauthorized, forbidden, type_error, database_error, conflict, bad_request, not_found,
  value_error, Result, ok, err,
}
use saas_job_api.Exec.{Exec}
use saas_job_api.Time.{DateTime}
use saas_job_api.Jobs.Store.{MemoryJobStore}
use saas_job_api.Health.{MemoryHealthStore, Thresholds}
use saas_job_api.Inventory.{MemoryInventoryStore}
use saas_job_api.Audit.{MemoryAuditLogStore, AuditEvent, Detail, append}
use saas_job_api.Tenancy.Tenants.{MemoryTenantStore}
use saas_job_api.Registration.{MemoryRegistrationStore}
use saas_job_api.Rbac.{MemoryRbacStore}
use saas_job_api.Tenancy.Targets.{MemoryTargetStore}
use saas_job_api.Tenancy.Schedules.{MemoryScheduleStore}
use saas_job_api.GatewayConfig.{MemoryGatewayOperationalConfigStore}

-- The stores of `app.state` that the modelled routers use, as start-up makes them without a
-- `database_url`: in memory, where no store fails in the middle of a handler.
pub record App : Type 0 where
  pub jobs : MemoryJobStore
  pub health : MemoryHealthStore
  pub inventory : MemoryInventoryStore
  pub audit : MemoryAuditLogStore
  pub configs : MemoryGatewayOperationalConfigStore
  pub targets : MemoryTargetStore
  pub schedules : MemoryScheduleStore
  pub tenants : MemoryTenantStore
  pub registration : MemoryRegistrationStore
  pub principals : MemoryRbacStore

pub record Settings : Type 0 where
  pub thresholds : Thresholds
  pub default_poll_after_ms : ℕ
  pub default_gateway_heartbeat_interval_ms : ℕ
  pub enrollment_token_ttl_seconds : ℕ

module _ {A : Type 0} where
  abbrev pub on_jobs : Exec MemoryJobStore A → Exec App A
  on_jobs m s = let ran = m s.jobs in (ran.0, record s { jobs = ran.1 })

  abbrev pub on_health : Exec MemoryHealthStore A → Exec App A
  on_health m s = let ran = m s.health in (ran.0, record s { health = ran.1 })

  abbrev pub on_inventory : Exec MemoryInventoryStore A → Exec App A
  on_inventory m s = let ran = m s.inventory in (ran.0, record s { inventory = ran.1 })

  abbrev pub on_audit : Exec MemoryAuditLogStore A → Exec App A
  on_audit m s = let ran = m s.audit in (ran.0, record s { audit = ran.1 })

  abbrev pub on_targets : Exec MemoryTargetStore A → Exec App A
  on_targets m s = let ran = m s.targets in (ran.0, record s { targets = ran.1 })

  abbrev pub on_schedules : Exec MemoryScheduleStore A → Exec App A
  on_schedules m s = let ran = m s.schedules in (ran.0, record s { schedules = ran.1 })

  abbrev pub on_tenants : Exec MemoryTenantStore A → Exec App A
  on_tenants m s = let ran = m s.tenants in (ran.0, record s { tenants = ran.1 })

  abbrev pub on_registration : Exec MemoryRegistrationStore A → Exec App A
  on_registration m s = let ran = m s.registration in (ran.0, record s { registration = ran.1 })

  abbrev pub on_principals : Exec MemoryRbacStore A → Exec App A
  on_principals m s = let ran = m s.principals in (ran.0, record s { principals = ran.1 })

  -- `except ValueError as exc: raise ConflictError(str(exc)) from exc`
  abbrev pub conflict_of : Result A × App → Result A × App
  conflict_of (err (value_error text), s) = (err (conflict text), s)
  conflict_of (err unauthorized, s) = (err unauthorized, s)
  conflict_of (err forbidden, s) = (err forbidden, s)
  conflict_of (err type_error, s) = (err type_error, s)
  conflict_of (err database_error, s) = (err database_error, s)
  conflict_of (err (conflict text), s) = (err (conflict text), s)
  conflict_of (err (bad_request text), s) = (err (bad_request text), s)
  conflict_of (err (not_found text), s) = (err (not_found text), s)
  conflict_of (ok a, s) = (ok a, s)

-- `given or new`: an empty id counts as none.
abbrev pub or_new : Option String → String → String
or_new none new = new
or_new (some id) new = if id == "" then new else id

-- `body_gateway_id is not None and body_gateway_id != token_gateway_id`
abbrev contradicts : Option String → String → Bool
contradicts none id = false
contradicts (some body_id) id = not (body_id == id)

unfoldable pub bind_gateway_id : Option String → String → Result String
bind_gateway_id body_gateway_id token_gateway_id =
    if contradicts body_gateway_id token_gateway_id then err forbidden else ok token_gateway_id

-- `_check_job_id` of routers/results.py.
unfoldable pub check_job_id : String → Option String → Result (Unit {0})
check_job_id path_job_id body_job_id =
    if contradicts body_job_id path_job_id
    then err (bad_request "jobId in body does not match jobId in path")
    else ok tt

-- `record_audit_event`, with the new id of the event.
unfoldable pub record_audit_event :
    (event_id event_type actor : String)
    → DateTime
    → (tenant_id resource_type resource_id : Option String) → Detail
    → Exec App AuditEvent
unfolding append
record_audit_event event_id event_type actor now tenant_id resource_type resource_id detail =
    on_audit (
      append (record {
        event_id = event_id;
        event_type = event_type;
        actor = actor;
        tenant_id = tenant_id;
        resource_type = resource_type;
        resource_id = resource_id;
        detail = detail;
        occurred_at = now;
      }))

-- The exception handlers; an exception of no class of errors.py is answered as an internal error.
unfoldable pub status_code : Error → ℕ
status_code (bad_request detail) = 400
status_code unauthorized = 401
status_code forbidden = 403
status_code (not_found detail) = 404
status_code (conflict detail) = 409
status_code type_error = 500
status_code database_error = 500
status_code (value_error detail) = 500
