-- ===== src/Tests/Postgres.antt =====
-- The theorems on the job store over PostgreSQL, at concrete tables.
use saas_job_api.Prelude.{
  String, zero, suc, ℕ, ◌≡◌, ◌+◌, refl, none, some, List, [], ◌∷◌, arith, string_eq, pair_eq,
  contains,
}
use saas_job_api.Prelude.Int.{pos}
use saas_job_api.Time.{aware}
use saas_job_api.Dict.{lookup}
use saas_job_api.Dict.Select.{select}
use saas_job_api.Sorting.{filter, sort, insert}
use saas_job_api.Jobs.{new_job}
use saas_job_api.Jobs.Claim.{ClaimRequest, claim, text_lt}
use saas_job_api.Jobs.Lifecycle.{
  Operation, claims, acknowledges, completes, interrupts, orphans, arms, disarms, run,
}
use saas_job_api.Postgres.{Driver, IsFaithful}
use saas_job_api.Postgres.Jobs.{JobRow, PostgresJobStore, inserted, row_to_record}
use saas_job_api.Postgres.Jobs.Queries as Queries
use saas_job_api.Postgres.Jobs.Index.{IsFresh}
use mathlib.Core.Path.{ap}
use saas_job_api.Postgres.Jobs.View.{view, pg_run, IsReordered}
use saas_job_api.Postgres.Jobs.View.Runs.{pg_run-refines}
use saas_job_api.Postgres.Jobs.View.Claims.{claim-view}
use saas_job_api.Postgres.Jobs.Filters.{claim_takes_unsupported}
use saas_job_api.Tests.Data.{scan, poll_one, receipt}

abbrev pub driver : Driver
driver = record { instant = λ t. t.micros; collate_lt = text_lt; unordered = λ rows. rows }

pub driver-IsFaithful : IsFaithful driver
driver-IsFaithful = record { instant_aware = λ t. refl; collate_text = λ a b. refl }

abbrev scan_row : JobRow
unfolding inserted new_job
scan_row = inserted driver (aware 1) (new_job scan)

abbrev table : PostgresJobStore
table = record {
  reservation_ttl_seconds = 60;
  jobs = ("job_1", scan_row) ∷ [];
  pending_fault = none;
  job_interruption_receipts = [];
}

abbrev open_poll : ClaimRequest
open_poll = record poll_one { manifest_versions = none }

-- A different token for each draw.
abbrev drawn : ℕ → String
drawn zero = "token"
drawn (suc n) = String.◌∷◌ "1" (drawn n)

drawn_distinct : (i j : ℕ) → drawn i ≡ drawn j → i ≡ j
drawn_distinct zero zero e = refl
drawn_distinct zero (suc j) e = cc
drawn_distinct (suc i) zero e = cc
drawn_distinct (suc i) (suc j) e = ap suc (drawn_distinct i j cc)

drawn-IsFresh : IsFresh drawn table.jobs
unfolding scan_row
drawn-IsFresh = (drawn_distinct, λ i. (refl, tt))

abbrev common_run : List Operation
common_run =
    claims (aware 1500) drawn open_poll
    ∷ acknowledges receipt
    ∷ orphans (aware 3000) ("gw_1" ∷ []) 60
    ∷ completes "job_1" "gw_1"
    ∷ interrupts "job_1" "gw_1" "attempt"
    ∷ arms 503 none
    ∷ disarms
    ∷ []

pg_run-refines_example :
    view (pg_run driver (aware 1) table common_run) ≡ run (view table) common_run
unfolding Queries.limit_of
pg_run-refines_example = pg_run-refines driver driver-IsFaithful (aware 1) table common_run (
  ((1500, refl), (refl, refl, (1, refl)), drawn-IsFresh),
  ((2000, refl), ((3000, refl), (tt, (tt, (tt, (tt, tt)))))),
)

claim-view_example :
    IsReordered driver
      (Queries.claim driver (aware 1500) drawn open_poll table).0
      (claim (aware 1500) drawn open_poll (view table)).0
    × (view (Queries.claim driver (aware 1500) drawn open_poll table).1
        ≡ (claim (aware 1500) drawn open_poll (view table)).1)
unfolding Queries.limit_of
claim-view_example =
    claim-view driver driver-IsFaithful 1500 drawn open_poll table (refl, refl, (1, refl))
      drawn-IsFresh

-- A gateway that supports other jobs alone.
abbrev other_poll : ClaimRequest
other_poll = record poll_one { job_types = some ("SSH_SCAN" ∷ []); max_jobs = pos 5 }

claim_takes_unsupported_example :
    ((i : ℕ) × (lookup "job_1" (Queries.claim driver (aware 1500) drawn other_poll table).1.jobs
        ≡ some (Queries.reserve_row "gw_1" (1500 + 60) (drawn i) scan_row)))
    × (lookup "job_1" (claim (aware 1500) drawn other_poll (view table)).1.jobs
        ≡ some (row_to_record scan_row))
unfolding Queries.limit_of Queries.locked_rows Queries.is_open select filter sort insert lookup
    contains scan_row
claim_takes_unsupported_example =
    claim_takes_unsupported driver 1500 5 drawn other_poll table "job_1" scan_row table.jobs
      driver-IsFaithful (refl, tt) drawn-IsFresh refl refl (omega arith) refl refl refl
