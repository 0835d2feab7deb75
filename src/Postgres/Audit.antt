-- ===== src/Postgres/Audit.antt =====
-- src/saas_job_api/audit_store_postgres.py: `PostgresAuditLogStore`, the table `audit_events` by
-- its primary key. A detail comes back from its JSON as it went in.
pub mod View
pub mod Purge
use saas_job_api.Prelude.{
  ℕ, String, Bool, true, false, Option, none, some, List, [], ◌∷◌, map, string_eq, length, ltb,
  is_none, option_beq, if◌then◌else◌,
}
use saas_job_api.Prelude.Int.{ℤ}
use saas_job_api.Result.{Result, ok, database_error}
use saas_job_api.Exec.{Exec, pure, raise, lift, gets, modify, ◌>>=◌, ◌>>◌}
use saas_job_api.Time.{DateTime, aware}
use saas_job_api.Dict.{Dict, lookup, put, values}
use saas_job_api.Dict.Select.{select}
use saas_job_api.Audit.{AuditEvent, Detail}
use saas_job_api.Postgres.{Driver}
use saas_job_api.Postgres.Jobs.Queries.{limit_rows}

pub record EventRow : Type 0 where
  pub event_id : String
  pub event_type : String
  pub actor : String
  pub tenant_id : Option String
  pub resource_type : Option String
  pub resource_id : Option String
  pub detail : Detail
  pub occurred_at : ℕ

abbrev pub PostgresAuditLogStore : Type 0
PostgresAuditLogStore = Dict String EventRow

unfoldable pub event_row : Driver → AuditEvent → EventRow
event_row driver event = record {
  event_id = event.event_id;
  event_type = event.event_type;
  actor = event.actor;
  tenant_id = event.tenant_id;
  resource_type = event.resource_type;
  resource_id = event.resource_id;
  detail = event.detail;
  occurred_at = driver.instant event.occurred_at;
}

unfoldable pub row_to_event : EventRow → AuditEvent
row_to_event row = record {
  event_id = row.event_id;
  event_type = row.event_type;
  actor = row.actor;
  tenant_id = row.tenant_id;
  resource_type = row.resource_type;
  resource_id = row.resource_id;
  detail = row.detail;
  occurred_at = aware row.occurred_at;
}

-- `append_with_connection`; nothing catches a violated constraint.
unfoldable pub append : Driver → AuditEvent → Exec PostgresAuditLogStore AuditEvent
unfolding event_row
append driver event = do
  found ← gets (lookup event.event_id)
  if is_none found
      then (do modify (put event.event_id (event_row driver event)); pure event)
      else raise database_error

-- The WHERE clause, which is there if a tenant is given.
unfoldable pub is_selected : Option String → EventRow → Bool
is_selected none row = true
is_selected (some tenant_id) row = option_beq row.tenant_id (some tenant_id)

-- `ORDER BY occurred_at DESC LIMIT ...`
unfoldable pub list_recent :
    Driver → Option String → ℤ → Exec PostgresAuditLogStore (List AuditEvent)
unfolding is_selected row_to_event
list_recent driver tenant_id limit = do
  table ← gets (λ s. s)
  count ← lift (limit_rows limit)
  rows ← lift (
      select (λ row. ok (is_selected tenant_id row)) (λ a b. ok (ltb b.occurred_at a.occurred_at))
        count (driver.unordered table))
  pure (map row_to_event (values rows))

-- `WHERE occurred_at < $1`
abbrev pub is_out_of_date : ℕ → EventRow → Result Bool
is_out_of_date before row = ok (ltb row.occurred_at before)

-- `ORDER BY occurred_at`
abbrev pub occurs_before : EventRow → EventRow → Result Bool
occurs_before a b = ok (ltb a.occurred_at b.occurred_at)

-- The subquery of the DELETE.
unfoldable pub expired_rows : Driver → ℕ → ℕ → PostgresAuditLogStore → Result PostgresAuditLogStore
expired_rows driver before limit table =
    select (is_out_of_date before) occurs_before limit (driver.unordered table)

-- The rows that a DELETE of these leaves.
unfoldable pub rows_without : PostgresAuditLogStore → PostgresAuditLogStore → PostgresAuditLogStore
rows_without gone [] = []
rows_without gone ((k, row) ∷ rows) =
    let rest = rows_without gone rows in if is_none (lookup k gone) then (k, row) ∷ rest else rest

unfoldable pub purge_expired : Driver → DateTime → ℕ → Exec PostgresAuditLogStore ℕ
unfolding expired_rows rows_without
purge_expired driver before limit = do
  table ← gets (λ s. s)
  gone ← lift (expired_rows driver (driver.instant before) limit table)
  modify (rows_without gone)
  pure (length gone)
