-- ===== src/Postgres/Schedules.antt =====
-- src/saas_job_api/schedule_store_postgres.py: `PostgresScheduleStore`, the table `schedules` by
-- its primary key. The limits on the length of a text and the size of an integer are left out.
pub mod View
pub mod Rows
pub mod Claims
pub mod Locks
use Prim.Native.String.{◌++◌ as concat}
use mathlib.Core.Option
use saas_job_api.Prelude.{
  ℕ, String, Bool, true, false, ◌&&◌, Option, none, some, List, [], ◌∷◌, map, string_eq, ◌==◌, leb,
  ltb, is_none, if◌then◌else◌,
}
use saas_job_api.Result.{Result, ok, value_error, not_found}
use saas_job_api.Exec.{Exec, pure, raise, lift, gets, modify, ◌>>=◌, ◌>>◌}
use saas_job_api.Time.{DateTime, aware, later}
use saas_job_api.Dict.{Dict, lookup, put, put_all, remove, values}
use saas_job_api.Dict.Select.{select}
use saas_job_api.Sorting.{sort}
use saas_job_api.Tenancy.{Schedule}
use saas_job_api.Postgres.{Driver}
use saas_job_api.Postgres.Image.{image}

pub record ScheduleRow : Type 0 where
  pub schedule_id : String
  pub tenant_id : String
  pub target_id : String
  pub job_type : String
  pub manifest_version : String
  pub interval_seconds : ℕ
  pub next_run_at : ℕ
  pub created_at : ℕ
  pub enabled : Bool
  pub last_run_at : Option ℕ

abbrev pub PostgresScheduleStore : Type 0
PostgresScheduleStore = Dict String ScheduleRow

-- The values of the INSERT.
unfoldable pub schedule_row : Driver → Schedule → ScheduleRow
schedule_row driver schedule = record {
  schedule_id = schedule.schedule_id;
  tenant_id = schedule.tenant_id;
  target_id = schedule.target_id;
  job_type = schedule.job_type;
  manifest_version = schedule.manifest_version;
  interval_seconds = schedule.interval_seconds;
  next_run_at = driver.instant schedule.next_run_at;
  created_at = driver.instant schedule.created_at;
  enabled = schedule.enabled;
  last_run_at = Option.map driver.instant schedule.last_run_at;
}

unfoldable pub row_to_schedule : ScheduleRow → Schedule
row_to_schedule row = record {
  schedule_id = row.schedule_id;
  tenant_id = row.tenant_id;
  target_id = row.target_id;
  job_type = row.job_type;
  manifest_version = row.manifest_version;
  interval_seconds = row.interval_seconds;
  next_run_at = aware row.next_run_at;
  created_at = aware row.created_at;
  enabled = row.enabled;
  last_run_at = Option.map aware row.last_run_at;
}

unfoldable pub create : Driver → Schedule → Exec PostgresScheduleStore Schedule
unfolding schedule_row
create driver schedule = do
  found ← gets (lookup schedule.schedule_id)
  if is_none found
      then (do modify (put schedule.schedule_id (schedule_row driver schedule)); pure schedule)
      else raise (value_error (concat "schedule_id already exists: " schedule.schedule_id))

-- `WHERE schedule_id = $1 AND tenant_id = $2`, for the row with the id.
abbrev pub row_of_tenant : String → Option ScheduleRow → Option ScheduleRow
row_of_tenant tenant_id none = none
row_of_tenant tenant_id (some row) = if row.tenant_id == tenant_id then some row else none

unfoldable pub get : (tenant_id schedule_id : String) → Exec PostgresScheduleStore (Option Schedule)
unfolding row_to_schedule
get tenant_id schedule_id =
    gets (λ s. Option.map row_to_schedule (row_of_tenant tenant_id (lookup schedule_id s)))

-- `WHERE tenant_id = $1`
unfoldable pub rows_of_tenant : String → List ScheduleRow → List ScheduleRow
rows_of_tenant tenant_id [] = []
rows_of_tenant tenant_id (row ∷ rows) =
    let rest = rows_of_tenant tenant_id rows in
    if row.tenant_id == tenant_id then row ∷ rest else rest

-- `ORDER BY created_at`
unfoldable pub list_by_tenant : Driver → String → Exec PostgresScheduleStore (List Schedule)
unfolding rows_of_tenant row_to_schedule
list_by_tenant driver tenant_id s =
    (do
      sorted ← lift (
          sort (λ a b. ok (ltb a.created_at b.created_at))
            (driver.unordered (rows_of_tenant tenant_id (values s))))
      pure (map row_to_schedule sorted))
      s

unfoldable pub delete : (tenant_id schedule_id : String) → Exec PostgresScheduleStore (Unit {0})
delete tenant_id schedule_id = do
  found ← gets (λ s. row_of_tenant tenant_id (lookup schedule_id s))
  if is_none found
      then raise (not_found (concat "schedule not found: " schedule_id))
      else modify (remove schedule_id)

-- `FOR UPDATE SKIP LOCKED`: the rows that no other transaction has locked.
unfoldable pub unlocked : {V : Type 0} → (String → Bool) → Dict String V → Dict String V
unlocked is_locked [] = []
unlocked is_locked ((k, v) ∷ d) =
    let rest = unlocked is_locked d in if is_locked k then rest else (k, v) ∷ rest

-- `enabled = true AND next_run_at <= $1`
unfoldable pub is_due : ℕ → ScheduleRow → Bool
is_due now row = row.enabled && leb row.next_run_at now

-- The rows that the SELECT of `claim_due` locks.
unfoldable pub due_rows :
    Driver → (String → Bool) → ℕ → ℕ → PostgresScheduleStore → Result PostgresScheduleStore
unfolding unlocked is_due
due_rows driver is_locked now limit table =
    select (λ row. ok (is_due now row)) (λ a b. ok (ltb a.next_run_at b.next_run_at)) limit
      (unlocked is_locked (driver.unordered table))

-- The UPDATE of `claim_due`.
unfoldable pub advance_row : Driver → DateTime → ScheduleRow → ScheduleRow
advance_row driver now row = record row {
  next_run_at = driver.instant (later now row.interval_seconds);
  last_run_at = some (driver.instant now);
}

abbrev pub advance_rows : Driver → DateTime → PostgresScheduleStore → PostgresScheduleStore
advance_rows driver now rows = image (advance_row driver now) rows

-- What `claim_due` appends to its answer for a row.
unfoldable pub claimed_schedule : DateTime → ScheduleRow → Schedule
unfolding row_to_schedule
claimed_schedule now row = record (row_to_schedule row) {
  next_run_at = later now row.interval_seconds;
  last_run_at = some now;
}

unfoldable pub claim_due :
    Driver → (String → Bool) → DateTime → ℕ → Exec PostgresScheduleStore (List Schedule)
unfolding due_rows advance_row claimed_schedule
claim_due driver is_locked now limit = do
  table ← gets (λ s. s)
  rows ← lift (due_rows driver is_locked (driver.instant now) limit table)
  modify (put_all (advance_rows driver now rows))
  pure (map (claimed_schedule now) (values rows))
