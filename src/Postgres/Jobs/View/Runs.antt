-- ===== src/Postgres/Jobs/View/Runs.antt =====
-- Whole runs of `PostgresJobStore` (src/saas_job_api/store_postgres.py) and of `MemoryJobStore`
-- (src/saas_job_api/store_memory.py).
use mathlib.Core.Path.{ap, ◌∙◌}
use saas_job_api.Prelude.{◌≡◌, refl, List, [], ◌∷◌}
use saas_job_api.Time.{DateTime}
use saas_job_api.Jobs.Lifecycle.{
  Operation, seeds, resets, claims, acknowledges, completes, interrupts, orphans, arms, disarms,
  step, run,
}
use saas_job_api.Postgres.{Driver, IsFaithful}
use saas_job_api.Postgres.Jobs.{PostgresJobStore}
use saas_job_api.Jobs.Store as Store
use saas_job_api.Postgres.Jobs.Queries as Queries
use saas_job_api.Postgres.Jobs.View.{view, pg_step, pg_run, IsCommon, IsCommonRun}
use saas_job_api.Postgres.Jobs.View.Claims.{claim-view}
use saas_job_api.Postgres.Jobs.View.Steps.{
  seed-view, acknowledge-view, mark_completed-view, reissue_one-view,
}
use saas_job_api.Postgres.Jobs.View.Orphans.{reissue_orphaned-view}

module _ (driver : Driver) (faithful : IsFaithful driver) (created_at : DateTime) where
  pg_step-refines :
      (s : PostgresJobStore) (op : Operation)
      → IsCommon s op
      → view (pg_step driver created_at s op) ≡ step (view s) op
  unfolding pg_step step Queries.set_fault Queries.take_fault Store.set_fault Store.take_fault view
  pg_step-refines s (seeds n) h = seed-view driver faithful n created_at s h
  pg_step-refines s resets h = absurd h
  pg_step-refines s (claims now token r) ((t, e), h, fresh) =
      rw e (claim-view driver faithful t token r s h fresh).1
  pg_step-refines s (acknowledges r) h = (acknowledge-view driver faithful r s h).1
  pg_step-refines s (completes job_id gateway_id) h = (mark_completed-view job_id gateway_id s).1
  pg_step-refines s (interrupts job_id gateway_id attempt_token) h =
      (reissue_one-view job_id gateway_id attempt_token s).1
  pg_step-refines s (orphans now unreachable sla) (t, e) =
      rw e (reissue_orphaned-view driver faithful t unreachable sla s)
  pg_step-refines s (arms status retry_after) h = refl
  pg_step-refines s disarms h = refl

  -- PostgresJobStore refines MemoryJobStore. If the driver stores an aware datetime as its
  -- instant and the database orders texts by code points, then after any run of operations without
  -- a reset whose datetimes are aware, and whose claims name no job types, no manifest versions
  -- and no negative limit and draw tokens that differ from each other and from those in the
  -- table, the tables, seen as a memory store, are what the same run leaves of the memory store.
  pub pg_run-refines :
      (s : PostgresJobStore) (ops : List Operation)
      → IsCommonRun driver created_at s ops
      → view (pg_run driver created_at s ops) ≡ run (view s) ops
  unfolding pg_run run
  pg_run-refines s [] h = refl
  pg_run-refines s (op ∷ ops) (common, h) =
      pg_run-refines (pg_step driver created_at s op) ops h
      ∙ ap (λ left. run left ops) (pg_step-refines s op common)
