-- ===== src/Health.antt =====
-- src/saas_job_api/health.py and health_store_memory.py: the health of a gateway, derived from the
-- time of its last heartbeat.
pub mod Laws
use saas_job_api.Prelude.{
  ℕ, String, Bool, true, false, Option, none, some, List, string_eq, if◌then◌else◌,
}
use saas_job_api.Result.{Result, ok, err, ◌>>=◌}
use saas_job_api.Exec.{Exec, pure, gets, modify}
use saas_job_api.Time.{DateTime, elapsed_lt}
use saas_job_api.Dict.{Dict, lookup, put, values}

pub data HealthState : Type 0 where
  healthy degraded unreachable failed : HealthState

pub record GatewayStatus : Type 0 where
  pub gateway_id : String
  pub tenant_id : Option String
  pub last_heartbeat_at : DateTime
  pub gateway_version : Option String
  pub container_runtime_status : Option String
  pub last_successful_job_at : Option DateTime
  pub last_error : Option String
  pub last_reported_status : Option HealthState

-- The settings `gateway_degraded_after_seconds`, `gateway_unreachable_after_seconds` and
-- `gateway_failed_after_seconds`.
pub record Thresholds : Type 0 where
  pub degraded_after : ℕ
  pub unreachable_after : ℕ
  pub failed_after : ℕ

abbrev pub reports_failed : Option HealthState → Bool
reports_failed (some failed) = true
reports_failed _ = false

unfoldable pub derive_current_status : Thresholds → DateTime → GatewayStatus → Result HealthState
derive_current_status t now status =
    if reports_failed status.last_reported_status then ok failed else do
      fresh ← elapsed_lt now status.last_heartbeat_at t.degraded_after
      late ← elapsed_lt now status.last_heartbeat_at t.unreachable_after
      lost ← elapsed_lt now status.last_heartbeat_at t.failed_after
      ok (
          if fresh
          then healthy
          else if late
          then degraded
          else if lost
          then unreachable
          else failed)

-- `_HELD_STATUSES`
abbrev pub is_held : HealthState → Bool
is_held healthy = false
is_held degraded = false
is_held unreachable = true
is_held failed = true

abbrev pub MemoryHealthStore : Type 0
MemoryHealthStore = Dict String GatewayStatus

unfoldable pub upsert : GatewayStatus → Exec MemoryHealthStore (Unit {0})
upsert status = modify (put status.gateway_id status)

unfoldable pub get : String → Exec MemoryHealthStore (Option GatewayStatus)
get gateway_id = gets (lookup gateway_id)

unfoldable pub list_all : Exec MemoryHealthStore (List GatewayStatus)
list_all = gets values
