-- ===== src/Postgres/Jobs/View.antt =====
-- The view of a `PostgresJobStore` as a `MemoryJobStore`, and how its rows relate to the records.
pub mod Rows
pub mod Claims
pub mod Steps
pub mod Orphans
pub mod Runs
use mathlib.Core.Path.{ap}
use saas_job_api.Prelude.{map, String, ◌≡◌, ℕ, List, ◌∷◌, []}
use saas_job_api.Result.{Result, map_ok}
use saas_job_api.Exec.{Exec}
use saas_job_api.Time.{DateTime, aware}
use saas_job_api.Jobs.{JobRecord, new_job}
use saas_job_api.Jobs.Store.{MemoryJobStore}
use saas_job_api.Jobs.Claim.{ClaimRequest}
use saas_job_api.Jobs.Lifecycle.{
  Operation, seeds, resets, claims, acknowledges, completes, interrupts, orphans, arms, disarms,
}
use saas_job_api.Prelude.Int.{pos}
use saas_job_api.Prelude.{Option, none}
use saas_job_api.Postgres.{Driver}
use saas_job_api.Postgres.Image.{image}
use saas_job_api.Postgres.Jobs.{JobRow, PostgresJobStore, row_to_record}
use saas_job_api.Postgres.Jobs.Queries.{limit_of}
use saas_job_api.Postgres.Jobs.Index.{IsFresh}
use saas_job_api.Postgres.Jobs.Queries as Queries
use saas_job_api.Postgres.Jobs.Updates as Updates

unfoldable pub view : PostgresJobStore → MemoryJobStore
unfolding image row_to_record
view s = record {
  reservation_ttl_seconds = s.reservation_ttl_seconds;
  jobs = image row_to_record s.jobs;
  pending_fault = s.pending_fault;
  interrupted_attempts = s.job_interruption_receipts;
}

-- The store after an operation, whether it returns or raises. `created_at` is the clock reading of
-- a seed.
unfoldable pub pg_step : Driver → DateTime → PostgresJobStore → Operation → PostgresJobStore
unfolding new_job
pg_step driver created_at s (seeds n) = (Queries.seed driver created_at (new_job n) s).1
pg_step driver created_at s resets = (Queries.reset s).1
pg_step driver created_at s (claims now token r) = (Queries.claim driver now token r s).1
pg_step driver created_at s (acknowledges r) = (Updates.acknowledge driver r s).1
pg_step driver created_at s (completes job_id gateway_id) =
    (Updates.mark_completed job_id gateway_id s).1
pg_step driver created_at s (interrupts job_id gateway_id attempt_token) =
    (Updates.reissue_one job_id gateway_id attempt_token s).1
pg_step driver created_at s (orphans now unreachable sla) =
    (Updates.reissue_orphaned driver now unreachable sla s).1
pg_step driver created_at s (arms status retry_after) = (Queries.set_fault status retry_after s).1
pg_step driver created_at s disarms = (Queries.take_fault s).1

unfoldable pub pg_run : Driver → DateTime → PostgresJobStore → List Operation → PostgresJobStore
unfolding pg_step
pg_run driver created_at s [] = s
pg_run driver created_at s (op ∷ ops) =
    pg_run driver created_at (pg_step driver created_at s op) ops

-- The second answer has the records of some rows, and the first the same in the order in which the
-- database gives them.
abbrev pub IsReordered : Driver → Result (List JobRecord) → Result (List JobRecord) → Type 0
IsReordered driver given listed =
    (rows : Result (List JobRow)) × (given
      ≡ map_ok (λ found. map row_to_record (driver.unordered found)) rows)
    × (listed ≡ map_ok (map row_to_record) rows)

abbrev pub IsAware : DateTime → Type 0
IsAware t = (u : ℕ) × (t ≡ aware u)

-- The claim names no job types and no manifest versions, and its limit is not negative.
abbrev pub IsOpenClaim : ClaimRequest → Type 0
IsOpenClaim r =
    (r.job_types ≡ none)
    × (r.manifest_versions ≡ none)
    × ((n : ℕ) × (limit_of r.max_jobs r.dispatch_slots ≡ pos n))

-- The operations on which both stores agree: all datetimes are aware, a claim is open and draws new
-- tokens, and there is no reset, which keeps the pending fault here and clears it there.
abbrev pub IsCommon : PostgresJobStore → Operation → Type 0
IsCommon s (seeds n) = IsAware n.scheduled_at
IsCommon s resets = ⊥
IsCommon s (claims now token r) = IsAware now × IsOpenClaim r × IsFresh token s.jobs
IsCommon s (acknowledges r) = IsAware r.received_at
IsCommon s (completes job_id gateway_id) = Unit
IsCommon s (interrupts job_id gateway_id attempt_token) = Unit
IsCommon s (orphans now unreachable sla) = IsAware now
IsCommon s (arms status retry_after) = Unit
IsCommon s disarms = Unit

-- Each operation of a run is common at the store that it finds.
abbrev pub IsCommonRun : Driver → DateTime → PostgresJobStore → List Operation → Type 0
IsCommonRun driver created_at s [] = Unit
IsCommonRun driver created_at s (op ∷ ops) =
    IsCommon s op × IsCommonRun driver created_at (pg_step driver created_at s op) ops
