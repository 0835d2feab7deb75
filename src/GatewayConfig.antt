-- ===== src/GatewayConfig.antt =====
-- src/saas_job_api/gateway_operational_config.py and gateway_operational_config_store_memory.py:
-- the settings of a gateway that an administrator changes.
pub mod Laws
use Prim.Native.String.{◌++◌ as concat}
use saas_job_api.Prelude.{
  ℕ, ◌+◌, String, Bool, true, false, not, ◌&&◌, Option, none, some, List, [], ◌∷◌, string_eq, ◌==◌,
  nat_beq, if◌then◌else◌,
}
use saas_job_api.Result.{Error, Result, ok, err, value_error}
use saas_job_api.Exec.{Exec}
use saas_job_api.Time.{DateTime}
use saas_job_api.Dict.{Dict, lookup, put, remove}
use saas_job_api.Audit.{AuditEvent}

-- The intervals are from validated requests, so they are numbers.
pub record GatewayOperationalConfig : Type 0 where
  pub gateway_id : String
  pub tenant_id : String
  pub poll_interval_ms : ℕ
  pub heartbeat_interval_ms : ℕ
  pub accept_new_jobs : Bool
  pub config_version : ℕ
  pub updated_at : DateTime

abbrev pub MemoryGatewayOperationalConfigStore : Type 0
MemoryGatewayOperationalConfigStore = Dict String GatewayOperationalConfig

-- `GatewayConfigTenantMismatch`, a ValueError. Its message quotes the id.
abbrev pub tenant_mismatch : String → Error
tenant_mismatch gateway_id =
    value_error (concat (concat "Gateway '" gateway_id) "' is already assigned to another tenant")

-- The arguments of `save` that describe a configuration.
pub record Saving : Type 0 where
  pub gateway_id : String
  pub tenant_id : String
  pub poll_interval_ms : ℕ
  pub heartbeat_interval_ms : ℕ
  pub accept_new_jobs : Bool
  pub updated_at : DateTime

abbrev pub bool_beq : Bool → Bool → Bool
bool_beq true b = b
bool_beq false b = not b

unfoldable pub is_unchanged : Saving → GatewayOperationalConfig → Bool
is_unchanged r previous =
    nat_beq previous.poll_interval_ms r.poll_interval_ms
    && nat_beq previous.heartbeat_interval_ms r.heartbeat_interval_ms
    && bool_beq previous.accept_new_jobs r.accept_new_jobs

abbrev pub version_of : Option GatewayOperationalConfig → ℕ
version_of none = 0
version_of (some previous) = previous.config_version

unfoldable pub next_config : Saving → Option GatewayOperationalConfig → GatewayOperationalConfig
next_config r previous = record {
  gateway_id = r.gateway_id;
  tenant_id = r.tenant_id;
  poll_interval_ms = r.poll_interval_ms;
  heartbeat_interval_ms = r.heartbeat_interval_ms;
  accept_new_jobs = r.accept_new_jobs;
  config_version = version_of previous + 1;
  updated_at = r.updated_at;
}

-- What `except Exception` does before it raises again.
abbrev pub restore :
    String
    → Option GatewayOperationalConfig
    → MemoryGatewayOperationalConfigStore
    → MemoryGatewayOperationalConfigStore
restore gateway_id none configs = remove gateway_id configs
restore gateway_id (some previous) configs = put gateway_id previous configs

abbrev pub Saved : Type 0
Saved = Option GatewayOperationalConfig × GatewayOperationalConfig

-- The audit store with the state S, and the factory of the event.
pub record AuditSink (S : Type 0) : Type 0 where
  pub append : AuditEvent → Exec S AuditEvent
  pub event : Option GatewayOperationalConfig → GatewayOperationalConfig → AuditEvent

module _ {S : Type 0} where
  abbrev pub logged :
      Saving
      → Option GatewayOperationalConfig
      → MemoryGatewayOperationalConfigStore
      → Result AuditEvent × S
      → Result Saved × (MemoryGatewayOperationalConfigStore × S)
  logged r previous configs (ok event, log) = (
    ok (previous, next_config r previous),
    (put r.gateway_id (next_config r previous) configs, log),
  )
  logged r previous configs (err e, log) = (
    err e,
    (restore r.gateway_id previous (put r.gateway_id (next_config r previous) configs), log),
  )

  -- The assignment, and the event if there is an audit store.
  unfoldable pub replace :
      Option (AuditSink S)
      → Saving
      → Option GatewayOperationalConfig
      → Exec (MemoryGatewayOperationalConfigStore × S) Saved
  unfolding next_config
  replace none r previous (configs, log) = (
    ok (previous, next_config r previous),
    (put r.gateway_id (next_config r previous) configs, log),
  )
  replace (some sink) r previous (configs, log) =
      logged r previous configs (sink.append (sink.event previous (next_config r previous)) log)

  abbrev pub save_over :
      Option (AuditSink S)
      → Saving
      → Option GatewayOperationalConfig
      → Exec (MemoryGatewayOperationalConfigStore × S) Saved
  save_over sink r none s = replace sink r none s
  save_over sink r (some previous) s =
      if not (previous.tenant_id == r.tenant_id)
      then (err (tenant_mismatch r.gateway_id), s)
      else if is_unchanged r previous
      then (ok (some previous, previous), s)
      else replace sink r (some previous) s

  unfoldable pub save_with_previous :
      Option (AuditSink S) → Saving → Exec (MemoryGatewayOperationalConfigStore × S) Saved
  unfolding is_unchanged replace
  save_with_previous sink r s = save_over sink r (lookup r.gateway_id s.0) s
