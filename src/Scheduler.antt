-- ===== src/Scheduler.antt =====
-- src/saas_job_api/orchestrator/scheduler_tick.py: due schedules become jobs, and the jobs of
-- gateways that fell silent are offered again.
pub mod Laws
pub mod Recovery
use saas_job_api.Prelude.{
  ℕ, zero, suc, ◌+◌, String, Bool, true, false, Option, none, some, List, [], ◌∷◌, string_eq,
  contains, length, if◌then◌else◌,
}
use saas_job_api.Prelude.Int.{pos}
use saas_job_api.Result.{Error, Result, ok, err, map_ok}
use saas_job_api.Exec.{Exec}
use saas_job_api.Time.{DateTime}
use saas_job_api.Dict.{lookup, values, add}
use saas_job_api.Jobs.{JobRecord, NewJob, PayloadValue, null, text, endpoint, new_job}
use saas_job_api.Jobs.Store.{MemoryJobStore, seed}
use saas_job_api.Jobs.Reissue.{reissue_orphaned}
use saas_job_api.Health.{
  GatewayStatus, HealthState, MemoryHealthStore, Thresholds, derive_current_status, is_held,
}
use saas_job_api.Tenancy.{Schedule, Target}
use saas_job_api.Tenancy.Targets.{MemoryTargetStore, of_tenant}
use saas_job_api.Tenancy.Schedules.{MemoryScheduleStore, claim_due}

-- The i-th results of `new_job_id` and `new_correlation_id`.
pub record Ids : Type 0 where
  pub job : ℕ → String
  pub correlation : ℕ → String

abbrev text_or_null : Option String → PayloadValue
text_or_null none = null
text_or_null (some t) = text t

-- The record for a schedule, with `DEFAULT_JOB_PRIORITY` and `DEFAULT_JOB_MAX_ATTEMPTS`.
unfoldable pub scheduled_job : DateTime → String → String → Schedule → Target → JobRecord
unfolding new_job
scheduled_job now job_id correlation_id schedule target = new_job (record {
  job_id = job_id;
  job_type = schedule.job_type;
  manifest_version = schedule.manifest_version;
  priority = pos 50;
  scheduled_at = now;
  correlation_id = correlation_id;
  payload =
      ("pluginRef", text target.plugin_ref)
      ∷ ("pluginVersion", text target.plugin_version)
      ∷ ("targetEndpoint", endpoint target.host target.port)
      ∷ ("credentialRef", text_or_null target.credential_ref)
      ∷ ("tenantId", text schedule.tenant_id)
      ∷ ("targetId", text target.target_id)
      ∷ ("scheduleId", text schedule.schedule_id)
      ∷ [];
  max_attempts = pos 8;
  trace_id = none;
})

-- The loop over the claimed schedules. A schedule without its target is skipped; the i-th job
-- that is made has the i-th new ids.
unfoldable pub create_jobs :
    DateTime
    → ℕ
    → Ids
    → MemoryTargetStore
    → List Schedule
    → MemoryJobStore
    → Result ℕ × MemoryJobStore
unfolding scheduled_job seed
create_jobs now i ids targets [] jobs = (ok 0, jobs)
create_jobs now i ids targets (schedule ∷ due) jobs =
    elim (of_tenant schedule.tenant_id (lookup schedule.target_id targets)) [
      | none ↦ create_jobs now i ids targets due jobs
      | some target ↦
          let ran = seed (scheduled_job now (ids.job i) (ids.correlation i) schedule target) jobs in
          let rest = create_jobs now (suc i) ids targets due ran.1 in
          elim ran.0 [ err e ↦ (err e, ran.1) | ok job ↦ (map_ok (λ n. n + 1) rest.0, rest.1) ]
    ]

-- The stores that the loop uses.
pub record SchedulerStores : Type 0 where
  pub schedules : MemoryScheduleStore
  pub targets : MemoryTargetStore
  pub jobs : MemoryJobStore
  pub health : MemoryHealthStore

unfoldable pub run_scheduler_tick : DateTime → ℕ → Ids → Exec SchedulerStores ℕ
unfolding claim_due create_jobs
run_scheduler_tick now limit ids s =
    let claimed = claim_due now limit s.schedules in
    elim claimed.0 [
      | err e ↦ (err e, record s { schedules = claimed.1 })
      | ok due ↦
          let made = create_jobs now 0 ids s.targets due s.jobs in
          (made.0, record s { schedules = claimed.1; jobs = made.1 })
    ]

-- The comprehension over the statuses; the first one that has no health raises.
unfoldable pub unreachable_ids : Thresholds → DateTime → List GatewayStatus → Result (List String)
unfolding derive_current_status add
unreachable_ids t now [] = ok []
unreachable_ids t now (status ∷ statuses) =
    let rest = unreachable_ids t now statuses in
    elim (derive_current_status t now status) [
      | err e ↦ err e
      | ok h ↦ map_ok (λ ids. if is_held h then add status.gateway_id ids else ids) rest
    ]

abbrev pub reissue_of : DateTime → ℕ → List String → Exec SchedulerStores ℕ
reissue_of now sla [] s = (ok 0, s)
reissue_of now sla (g ∷ gs) s =
    let ran = reissue_orphaned now (g ∷ gs) sla s.jobs in
    (map_ok length ran.0, record s { jobs = ran.1 })

unfoldable pub reissue_orphaned_jobs : Thresholds → ℕ → DateTime → Exec SchedulerStores ℕ
unfolding unreachable_ids reissue_orphaned
reissue_orphaned_jobs t sla now s = elim (unreachable_ids t now (values s.health)) [
  | err e ↦ (err e, s)
  | ok ids ↦ reissue_of now sla ids s
]

-- One round of `start_scheduler_loop`, with the two readings of the clock. A failure of one of
-- the two steps is logged, and the other runs all the same.
unfoldable pub scheduler_round :
    Thresholds → (sla : ℕ) → (first second : DateTime) → Ids → SchedulerStores → SchedulerStores
unfolding run_scheduler_tick reissue_orphaned_jobs
scheduler_round t sla first second ids s =
    (reissue_orphaned_jobs t sla second (run_scheduler_tick first 100 ids s).1).1
