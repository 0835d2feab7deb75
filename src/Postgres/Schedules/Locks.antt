-- ===== src/Postgres/Schedules/Locks.antt =====
-- The claims of several scheduler instances at once (`claim_due` of
-- src/saas_job_api/schedule_store_postgres.py): a transaction locks its rows with its SELECT
-- (FOR UPDATE SKIP LOCKED) and frees them when it ends. What the instances and the routers do in
-- the meantime is a sequence of events.
pub mod Current
pub mod Exclusive
use saas_job_api.Prelude.{
  ℕ, String, Bool, true, false, not, ◌||◌, Option, none, some, List, [], ◌∷◌, string_eq, is_none,
  get_elem?, erase_idx, if◌then◌else◌,
}
use saas_job_api.Result.{Result, ok, err}
use saas_job_api.Time.{aware}
use saas_job_api.Dict.{lookup, put_all}
use saas_job_api.Tenancy.{Schedule}
use saas_job_api.Postgres.{Driver}
use saas_job_api.Postgres.Schedules.{
  PostgresScheduleStore, due_rows, advance_rows, advance_row, create, delete,
}

-- A transaction of `claim_due` that has locked its rows and has not ended.
pub record Claiming : Type 0 where
  pub now : ℕ
  pub rows : PostgresScheduleStore

pub record Cluster : Type 0 where
  pub table : PostgresScheduleStore
  pub claims : List Claiming

unfoldable pub is_held : List Claiming → String → Bool
is_held [] k = false
is_held (x ∷ xs) k = not (is_none (lookup k x.rows)) || is_held xs k

-- The end of a transaction names its place in the list of those that have not ended.
pub data Event : Type 0 where
  selects : (now limit : ℕ) → Event
  commits rolls_back : (i : ℕ) → Event
  creates : Schedule → Event
  deletes : (tenant_id schedule_id : String) → Event

abbrev selected : ℕ → Cluster → Result PostgresScheduleStore → Cluster
selected now s (ok rows) = record s { claims = record { now = now; rows = rows } ∷ s.claims }
selected now s (err e) = s

abbrev pub committed : Driver → ℕ → Cluster → Option Claiming → Cluster
committed driver i s none = s
committed driver i s (some x) = record s {
  table = put_all (advance_rows driver (aware x.now) x.rows) s.table;
  claims = erase_idx s.claims i;
}

-- A DELETE waits for the lock of its row: it is an event when no claim holds the row.
unfoldable pub cluster_step : Driver → Cluster → Event → Cluster
unfolding is_held due_rows advance_row create delete
cluster_step driver s (selects now limit) =
    selected now s (due_rows driver (is_held s.claims) now limit s.table)
cluster_step driver s (commits i) = committed driver i s (get_elem? s.claims i)
cluster_step driver s (rolls_back i) = record s { claims = erase_idx s.claims i }
cluster_step driver s (creates schedule) = record s { table = (create driver schedule s.table).1 }
cluster_step driver s (deletes tenant_id schedule_id) =
    if is_held s.claims schedule_id
    then s
    else record s { table = (delete tenant_id schedule_id s.table).1 }

unfoldable pub cluster_run : Driver → Cluster → List Event → Cluster
unfolding cluster_step
cluster_run driver s [] = s
cluster_run driver s (event ∷ events) = cluster_run driver (cluster_step driver s event) events
