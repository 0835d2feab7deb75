-- ===== src/Postgres/Health/View.antt =====
-- A memory store of heartbeats (src/saas_job_api/health_store_memory.py) stored as the table of
-- `PostgresHealthStore` (src/saas_job_api/health_store_postgres.py).
use mathlib.Core.Path.{sym}
use mathlib.Core.Option
use saas_job_api.Prelude.{ℕ, String, ◌≡◌, refl, Option, none, some, string_eq}
use saas_job_api.Result.{ok}
use saas_job_api.Time.{aware}
use saas_job_api.Dict.{lookup}
use saas_job_api.Health.{
  GatewayStatus, MemoryHealthStore, HealthState, healthy, degraded, unreachable, failed,
}
use saas_job_api.Health as Memory
use saas_job_api.Postgres.{Driver, IsFaithful, times_back}
use saas_job_api.Postgres.Image.{image, lookup-image, image-put}
use saas_job_api.Postgres.Health.{
  StatusRow, health_value, health_state, reported, status_row, row_to_status, status_of,
}
use saas_job_api.Postgres.Health as Health

-- The datetimes of a status are aware.
abbrev pub IsAwareStatus : GatewayStatus → Type 0
IsAwareStatus status =
    (beat : ℕ) × (job : Option ℕ) × (status.last_heartbeat_at ≡ aware beat)
    × (status.last_successful_job_at ≡ Option.map aware job)

reported_back : (state : Option HealthState) → reported (Option.map health_value state) ≡ ok state
unfolding health_value health_state
reported_back none = refl
reported_back (some healthy) = refl
reported_back (some degraded) = refl
reported_back (some unreachable) = refl
reported_back (some failed) = refl

-- A status with aware datetimes is read from its row as it was stored. The driver stores an aware
-- datetime as its instant.
pub status_row-back :
    (driver : Driver) (status : GatewayStatus)
    → IsFaithful driver
    → IsAwareStatus status
    → row_to_status (status_row driver status) ≡ ok status
unfolding row_to_status status_row
status_row-back driver status faithful (beat, job, b, j) =
    rw
      (
        reported_back status.last_reported_status,
        b,
        j,
        faithful.instant_aware beat,
        times_back driver faithful job,
      )
      refl

-- If the table has the rows of the statuses of a memory store, then it has them after an upsert,
-- and both stores find the same status, if its datetimes are aware. The driver stores an aware
-- datetime as its instant.
pub health_store-view :
    (driver : Driver) (s : MemoryHealthStore) (new : GatewayStatus) (id : String)
    (status : GatewayStatus)
    → IsFaithful driver
    → IsAwareStatus status
    → lookup id s ≡ some status
    → ((Health.upsert driver new (image (status_row driver) s)).1
        ≡ image (status_row driver) (Memory.upsert new s).1)
      × ((Health.get id (image (status_row driver) s)).0 ≡ (Memory.get id s).0)
unfolding Health.upsert Memory.upsert Health.get Memory.get
health_store-view driver s new id status faithful h found = (
  sym (image-put (status_row driver) new.gateway_id new s),
  rw (lookup-image (status_row driver) id s, found, status_row-back driver status faithful h) refl,
)
