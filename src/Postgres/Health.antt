-- ===== src/Postgres/Health.antt =====
-- src/saas_job_api/health_store_postgres.py: `PostgresHealthStore`, the table `gateway_status` by
-- its primary key.
pub mod View
use Prim.Native.String.{◌++◌ as concat}
use mathlib.Core.Option
use saas_job_api.Prelude.{
  ℕ, String, Bool, true, false, Option, none, some, List, [], ◌∷◌, string_eq, ◌==◌, if◌then◌else◌,
}
use saas_job_api.Result.{Result, ok, err, value_error, ◌>>=◌}
use saas_job_api.Exec.{Exec, modify}
use saas_job_api.Time.{aware}
use saas_job_api.Dict.{Dict, lookup, put, values}
use saas_job_api.Sorting.{sort}
use saas_job_api.Health.{GatewayStatus, HealthState, healthy, degraded, unreachable, failed}
use saas_job_api.Postgres.{Driver}

-- The column `last_reported_status` has the value of the state.
pub record StatusRow : Type 0 where
  pub gateway_id : String
  pub tenant_id : Option String
  pub last_heartbeat_at : ℕ
  pub gateway_version : Option String
  pub container_runtime_status : Option String
  pub last_successful_job_at : Option ℕ
  pub last_error : Option String
  pub last_reported_status : Option String

abbrev pub PostgresHealthStore : Type 0
PostgresHealthStore = Dict String StatusRow

-- `state.value`
unfoldable pub health_value : HealthState → String
health_value healthy = "HEALTHY"
health_value degraded = "DEGRADED"
health_value unreachable = "UNREACHABLE"
health_value failed = "FAILED"

-- `HealthState(value)`
unfoldable pub health_state : String → Result HealthState
health_state value =
    if value == "HEALTHY"
    then ok healthy
    else if value == "DEGRADED"
    then ok degraded
    else if value == "UNREACHABLE"
    then ok unreachable
    else if value == "FAILED"
    then ok failed
    else err (value_error (concat (concat "'" value) "' is not a valid HealthState"))

unfoldable pub status_row : Driver → GatewayStatus → StatusRow
unfolding health_value
status_row driver status = record {
  gateway_id = status.gateway_id;
  tenant_id = status.tenant_id;
  last_heartbeat_at = driver.instant status.last_heartbeat_at;
  gateway_version = status.gateway_version;
  container_runtime_status = status.container_runtime_status;
  last_successful_job_at = Option.map driver.instant status.last_successful_job_at;
  last_error = status.last_error;
  last_reported_status = Option.map health_value status.last_reported_status;
}

-- `HealthState(...) if row["last_reported_status"] else None`: the empty text counts as none.
abbrev pub reported : Option String → Result (Option HealthState)
reported none = ok none
reported (some value) =
    if value == "" then ok none else (do state ← health_state value; ok (some state))

unfoldable pub row_to_status : StatusRow → Result GatewayStatus
unfolding health_state
row_to_status row = do
  state ← reported row.last_reported_status
  ok (record {
    gateway_id = row.gateway_id;
    tenant_id = row.tenant_id;
    last_heartbeat_at = aware row.last_heartbeat_at;
    gateway_version = row.gateway_version;
    container_runtime_status = row.container_runtime_status;
    last_successful_job_at = Option.map aware row.last_successful_job_at;
    last_error = row.last_error;
    last_reported_status = state;
  })

-- INSERT ... ON CONFLICT (gateway_id) DO UPDATE of all other columns.
unfoldable pub upsert : Driver → GatewayStatus → Exec PostgresHealthStore GatewayStatus
unfolding status_row
upsert driver status s = (ok status, put status.gateway_id (status_row driver status) s)

abbrev pub status_of : Option StatusRow → Result (Option GatewayStatus)
status_of none = ok none
status_of (some row) = do status ← row_to_status row; ok (some status)

unfoldable pub get : String → Exec PostgresHealthStore (Option GatewayStatus)
unfolding row_to_status
get gateway_id s = (status_of (lookup gateway_id s), s)

unfoldable pub statuses : List StatusRow → Result (List GatewayStatus)
unfolding row_to_status
statuses [] = ok []
statuses (row ∷ rows) = do status ← row_to_status row; rest ← statuses rows; ok (status ∷ rest)

-- `ORDER BY gateway_id`
unfoldable pub list_all : Driver → Exec PostgresHealthStore (List GatewayStatus)
unfolding statuses
list_all driver s = (
  (do
    rows ←
        sort (λ a b. ok (driver.collate_lt a.gateway_id b.gateway_id)) (driver.unordered (values s))
    statuses rows),
  s,
)
