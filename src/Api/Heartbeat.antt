-- ===== src/Api/Heartbeat.antt =====
-- src/saas_job_api/routers/heartbeat.py: a gateway reports its health.
pub mod Laws
use Prim.Native.String.{◌++◌ as concat}
use saas_job_api.Prelude.{
  String, Bool, true, false, Option, none, some, string_eq, ◌==◌, if◌then◌else◌,
}
use saas_job_api.Result.{Result, ok, err, bad_request}
use saas_job_api.Exec.{Exec, pure, lift, gets, ◌>>=◌, ◌>>◌}
use saas_job_api.Time.{DateTime}
use saas_job_api.Dict.{lookup}
use saas_job_api.Health.{
  HealthState, healthy, degraded, unreachable, failed, GatewayStatus, upsert, get,
  derive_current_status,
}
use saas_job_api.Api.{App, Settings, on_health, bind_gateway_id}

-- The fields of `HeartbeatRequest` that the handler reads.
pub record HeartbeatRequest : Type 0 where
  pub gateway_id : Option String
  pub status : String
  pub container_runtime : String
  pub timestamp : DateTime
  pub gateway_version : Option String

pub record HeartbeatResponse : Type 0 where
  pub gateway_id : String
  pub current_status : HealthState

-- `HealthState(status)`
unfoldable pub parse_health : String → Result HealthState
parse_health status =
    if status == "HEALTHY"
    then ok healthy
    else if status == "DEGRADED"
    then ok degraded
    else if status == "UNREACHABLE"
    then ok unreachable
    else if status == "FAILED"
    then ok failed
    else err (bad_request (concat (concat "unknown heartbeat status '" status) "'"))

-- `existing.field if existing else None`
abbrev kept : {A : Type 0} → (GatewayStatus → Option A) → Option GatewayStatus → Option A
kept field none = none
kept field (some existing) = field existing

-- `body.gateway_version or ...`
abbrev or_kept : Option String → Option String → Option String
or_kept none old = old
or_kept (some version) old = if version == "" then old else some version

unfoldable pub new_status :
    String → HeartbeatRequest → HealthState → Option GatewayStatus → GatewayStatus
new_status gateway_id body reported existing = record {
  gateway_id = gateway_id;
  tenant_id = kept (λ e. e.tenant_id) existing;
  last_heartbeat_at = body.timestamp;
  gateway_version = or_kept body.gateway_version (kept (λ e. e.gateway_version) existing);
  container_runtime_status = some body.container_runtime;
  last_successful_job_at = kept (λ e. e.last_successful_job_at) existing;
  last_error = kept (λ e. e.last_error) existing;
  last_reported_status = some reported;
}

unfoldable pub receive_heartbeat :
    Settings
    → HeartbeatRequest
    → (gateway_id : String) → (now : DateTime) → Exec App HeartbeatResponse
unfolding bind_gateway_id parse_health new_status get upsert derive_current_status
receive_heartbeat settings body gateway_id now = do
  lift (bind_gateway_id body.gateway_id gateway_id)
  reported ← lift (parse_health body.status)
  existing ← on_health (get gateway_id)
  let status = new_status gateway_id body reported existing
  on_health (upsert status)
  current ← lift (derive_current_status settings.thresholds now status)
  pure (record { gateway_id = gateway_id; current_status = current })
