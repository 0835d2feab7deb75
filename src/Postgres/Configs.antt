-- ===== src/Postgres/Configs.antt =====
-- src/saas_job_api/gateway_operational_config_store_postgres.py:
-- `PostgresGatewayOperationalConfigStore`, the table `gateway_operational_configs` by its primary
-- key. The audit events are appended over the same connection, so they are in the transaction.
pub mod View
use mathlib.Core.Option
use saas_job_api.Prelude.{
  ℕ, ◌+◌, String, Bool, true, false, not, Option, none, some, List, string_eq, ◌==◌, if◌then◌else◌,
}
use saas_job_api.Result.{Result, ok, err}
use saas_job_api.Exec.{Exec, pure, gets, require, modify, guard, ◌>>=◌, ◌>>◌}
use saas_job_api.Time.{aware}
use saas_job_api.Dict.{Dict, lookup, put}
use saas_job_api.GatewayConfig.{
  GatewayOperationalConfig, Saving, Saved, AuditSink, tenant_mismatch, is_unchanged,
}
use saas_job_api.Postgres.{Driver}

pub record ConfigRow : Type 0 where
  pub gateway_id : String
  pub tenant_id : String
  pub poll_interval_ms : ℕ
  pub heartbeat_interval_ms : ℕ
  pub accept_new_jobs : Bool
  pub config_version : ℕ
  pub updated_at : ℕ

abbrev pub ConfigTable : Type 0
ConfigTable = Dict String ConfigRow

unfoldable pub row_to_config : ConfigRow → GatewayOperationalConfig
row_to_config row = record {
  gateway_id = row.gateway_id;
  tenant_id = row.tenant_id;
  poll_interval_ms = row.poll_interval_ms;
  heartbeat_interval_ms = row.heartbeat_interval_ms;
  accept_new_jobs = row.accept_new_jobs;
  config_version = row.config_version;
  updated_at = aware row.updated_at;
}

unfoldable pub get : String → Exec ConfigTable (Option GatewayOperationalConfig)
unfolding row_to_config
get gateway_id = gets (λ s. Option.map row_to_config (lookup gateway_id s))

-- A transaction that raises leaves nothing behind.
abbrev pub rolled_back : {S A : Type 0} → S → Result A × S → Result A × S
rolled_back before (ok a, after) = (ok a, after)
rolled_back before (err e, after) = (err e, before)

abbrev pub transaction : {S A : Type 0} → Exec S A → Exec S A
transaction m s = rolled_back s (m s)

abbrev pub is_foreign : Option GatewayOperationalConfig → String → Bool
is_foreign none tenant_id = false
is_foreign (some previous) tenant_id = not (previous.tenant_id == tenant_id)

-- The previous configuration, if it has the values of the request.
abbrev pub kept : Saving → Option GatewayOperationalConfig → Option GatewayOperationalConfig
kept r none = none
kept r (some previous) = if is_unchanged r previous then some previous else none

-- The VALUES of the INSERT.
abbrev pub inserted_config : Driver → Saving → ConfigRow
inserted_config driver r = record {
  gateway_id = r.gateway_id;
  tenant_id = r.tenant_id;
  poll_interval_ms = r.poll_interval_ms;
  heartbeat_interval_ms = r.heartbeat_interval_ms;
  accept_new_jobs = r.accept_new_jobs;
  config_version = 1;
  updated_at = driver.instant r.updated_at;
}

-- The SET of the UPDATE.
abbrev pub updated_config : Driver → Saving → ConfigRow → ConfigRow
updated_config driver r row = record row {
  poll_interval_ms = r.poll_interval_ms;
  heartbeat_interval_ms = r.heartbeat_interval_ms;
  accept_new_jobs = r.accept_new_jobs;
  config_version = row.config_version + 1;
  updated_at = driver.instant r.updated_at;
}

-- INSERT ... ON CONFLICT (gateway_id) DO UPDATE ... WHERE ... RETURNING *, for the row with the id.
unfoldable pub upserted_config : Driver → Saving → Option ConfigRow → Option ConfigRow
upserted_config driver r none = some (inserted_config driver r)
upserted_config driver r (some row) =
    if row.tenant_id == r.tenant_id then some (updated_config driver r row) else none

module _ {S : Type 0} where
  abbrev pub on_log : {A : Type 0} → Exec S A → Exec (ConfigTable × S) A
  on_log m s = let ran = m s.1 in (ran.0, (s.0, ran.1))

  -- `append_with_connection`, if there is an audit store.
  abbrev pub append_event :
      Option (AuditSink S)
      → Option GatewayOperationalConfig
      → GatewayOperationalConfig
      → Exec (ConfigTable × S) (Unit {0})
  append_event none previous updated = pure tt
  append_event (some sink) previous updated = do
    event ← on_log (sink.append (sink.event previous updated))
    pure tt

  -- The transaction, for the row that it has read.
  abbrev pub save_row :
      Driver → Option (AuditSink S) → Saving → Option ConfigRow → Exec (ConfigTable × S) Saved
  save_row driver sink r found = do
    let previous = Option.map row_to_config found
    guard (not (is_foreign previous r.tenant_id)) (tenant_mismatch r.gateway_id)
    elim (kept r previous) [
      | some same ↦ pure (some same, same)
      | none ↦ do
        row ← require (tenant_mismatch r.gateway_id) (upserted_config driver r found)
        modify (λ s. (put r.gateway_id row s.0, s.1))
        append_event sink previous (row_to_config row)
        pure (previous, row_to_config row)
    ]

  unfoldable pub save_with_previous :
      Driver → Option (AuditSink S) → Saving → Exec (ConfigTable × S) Saved
  unfolding row_to_config is_unchanged upserted_config
  save_with_previous driver sink r =
      transaction (do found ← gets (λ s. lookup r.gateway_id s.0); save_row driver sink r found)

  unfoldable pub save : Driver → Saving → Exec (ConfigTable × S) GatewayOperationalConfig
  unfolding save_with_previous
  save driver r = do saved ← save_with_previous driver none r; pure saved.1
