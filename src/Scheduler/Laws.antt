-- ===== src/Scheduler/Laws.antt =====
-- What the two steps of the scheduler keep, and when they stop.
use saas_job_api.Prelude.{
  ℕ, suc, String, ◌≡◌, inl, inr, false, some, List, [], ◌∷◌, string_eq, ◌==◌, Option-cases,
  Bool-cases,
}
use saas_job_api.Result.{Error, err, Result-cases}
use saas_job_api.Time.{DateTime, aware, naive}
use saas_job_api.Dict.{lookup, values}
use saas_job_api.Dict.Laws.{lookup-put}
use saas_job_api.Jobs.{JobRecord}
use saas_job_api.Jobs.Store.{MemoryJobStore, seed}
use saas_job_api.Health.{
  GatewayStatus, Thresholds, MemoryHealthStore, derive_current_status, reports_failed,
}
use saas_job_api.Health.Laws.{derive_naive}
use saas_job_api.Tenancy.{Schedule}
use saas_job_api.Tenancy.Targets.{MemoryTargetStore, of_tenant}
use saas_job_api.Tenancy.Schedules.{claim_due}
use saas_job_api.Scheduler.{
  Ids, scheduled_job, create_jobs, SchedulerStores, run_scheduler_tick, unreachable_ids,
  reissue_orphaned_jobs,
}

seed_keeps :
    (job : JobRecord) (k : String) (j : JobRecord) (s : MemoryJobStore)
    → lookup k s.jobs ≡ some j
    → lookup k (seed job s).1.jobs ≡ some j
unfolding seed
seed_keeps job k j s h = elim (Option-cases (lookup job.job_id s.jobs)) [
  | inr (old, e) ↦ rw e h
  | inl e ↦ rw e (
      rw lookup-put (elim (Bool-cases (job.job_id == k)) [
        | inr miss ↦ rw miss h
        | inl hit ↦ cc (rw ((string_eq.eqb_iff job.job_id k).0 hit) at e)
      ]))
]

create_jobs_keeps :
    (now : DateTime) (i : ℕ) (ids : Ids) (targets : MemoryTargetStore) (due : List Schedule)
    (s : MemoryJobStore) (k : String) (j : JobRecord)
    → lookup k s.jobs ≡ some j
    → lookup k (create_jobs now i ids targets due s).1.jobs ≡ some j
unfolding create_jobs
create_jobs_keeps now i ids targets [] s k j h = h
create_jobs_keeps now i ids targets (schedule ∷ due) s k j h =
    elim (Option-cases (of_tenant schedule.tenant_id (lookup schedule.target_id targets))) [
      | inl e ↦ rw (e, create_jobs) (create_jobs_keeps now i ids targets due s k j h)
      | inr (target, e) ↦
          let job = scheduled_job now (ids.job i) (ids.correlation i) schedule target in
          let kept : lookup k (seed job s).1.jobs ≡ some j = seed_keeps job k j s h in
          elim (Result-cases (seed job s).0) [
            | inr (x, c) ↦ rw (e, c, create_jobs) kept
            | inl (made, c) ↦
                rw (e, c, create_jobs)
                  (create_jobs_keeps now (suc i) ids targets due (seed job s).1 k j kept)
          ]
    ]

-- A tick of the scheduler, also one that fails, adds jobs and keeps every job that is stored as
-- it is.
pub run_scheduler_tick_keeps :
    (now : DateTime) (limit : ℕ) (ids : Ids) (s : SchedulerStores) (k : String) (j : JobRecord)
    → lookup k s.jobs.jobs ≡ some j
    → lookup k (run_scheduler_tick now limit ids s).1.jobs.jobs ≡ some j
unfolding run_scheduler_tick
run_scheduler_tick_keeps now limit ids s k j h =
    elim (Result-cases (claim_due now limit s.schedules).0) [
      | inr (e, c) ↦ rw (c, run_scheduler_tick) h
      | inl (due, c) ↦
          rw (c, run_scheduler_tick) (create_jobs_keeps now 0 ids s.targets due s.jobs k j h)
    ]

-- The first status without a health raises.
naive-unreachable_ids :
    (t : Thresholds) (now last : ℕ) (k : String) (status : GatewayStatus) (d : MemoryHealthStore)
    → lookup k d ≡ some status
    → reports_failed status.last_reported_status ≡ false
    → status.last_heartbeat_at ≡ naive last
    → (e : Error) × (unreachable_ids t (aware now) (values d) ≡ err e)
unfolding unreachable_ids lookup
naive-unreachable_ids t now last k status [] h r n = cc
naive-unreachable_ids t now last k status ((i, other) ∷ d) h r n =
    elim (Result-cases (derive_current_status t (aware now) other)) [
      | inr (e, c) ↦ (e, rw (c, unreachable_ids))
      | inl (x, c) ↦ elim (Bool-cases (i == k)) [
        | inl hit ↦
            let same : other ≡ status = cc (rw hit at h) in
            cc (rw (same, derive_naive t status now last r n) at c)
        | inr miss ↦
            let (e, f) = naive-unreachable_ids t now last k status d (rw miss at h) r n in
            (e, rw (c, unreachable_ids) (rw f))
      ]
    ]

-- At an aware time, one gateway whose last heartbeat has a naive time and reports no failure
-- stops the reissue for all gateways: it fails, and changes nothing.
pub naive_heartbeat_stops_reissue :
    (t : Thresholds) (sla now last : ℕ) (k : String) (status : GatewayStatus) (s : SchedulerStores)
    → lookup k s.health ≡ some status
    → reports_failed status.last_reported_status ≡ false
    → status.last_heartbeat_at ≡ naive last
    → (e : Error) × (reissue_orphaned_jobs t sla (aware now) s ≡ (err e, s))
unfolding reissue_orphaned_jobs
naive_heartbeat_stops_reissue t sla now last k status s h r n =
    let (e, c) = naive-unreachable_ids t now last k status s.health h r n in
    (e, rw (c, reissue_orphaned_jobs))
