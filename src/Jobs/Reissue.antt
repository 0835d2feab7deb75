-- ===== src/Jobs/Reissue.antt =====
-- `MemoryJobStore.reissue_orphaned` and `reissue_one` (src/saas_job_api/store_memory.py).
pub mod Loop
pub mod Laws
use saas_job_api.Prelude.{
  ℕ, String, Bool, true, false, ◌&&◌, Option, none, some, List, [], ◌∷◌, string_eq, pair_eq,
  contains, option_beq, if◌then◌else◌,
}
use saas_job_api.Result.{Result, ok, err, map_ok}
use saas_job_api.Exec.{Exec, pure, gets, modify, ◌>>=◌, ◌>>◌}
use saas_job_api.Time.{DateTime, elapsed_ge}
use saas_job_api.Dict.{Dict, lookup, put, add}
use saas_job_api.Jobs.{JobRecord, available, is_acknowledged}
use saas_job_api.Jobs.Store.{MemoryJobStore}

-- The fields that both reissues clear.
unfoldable pub reset_job : JobRecord → JobRecord
reset_job job = record job {
  state = available;
  reserved_by = none;
  reservation_until = none;
  receipt_token = none;
  ack_gateway_id = none;
  ack_received_at = none;
  ack_payload_hash = none;
  ack_local_record_version = none;
}

abbrev is_in : Option String → List String → Bool
is_in none ids = false
is_in (some g) ids = contains g ids

abbrev waited : DateTime → ℕ → Option DateTime → Result Bool
waited now sla none = ok false
waited now sla (some at) = elapsed_ge now at sla

-- The condition of `reissue_orphaned`, whose parts are read from left to right.
unfoldable pub is_orphaned : DateTime → List String → ℕ → JobRecord → Result Bool
unfolding contains elapsed_ge
is_orphaned now unreachable sla job =
    if is_acknowledged job.state && is_in job.ack_gateway_id unreachable
    then waited now sla job.ack_received_at
    else ok false

-- The loop over the jobs. An exception leaves the jobs before it reset.
unfoldable pub reset_orphans :
    DateTime
    → List String
    → ℕ
    → Dict String JobRecord
    → Result (List JobRecord) × Dict String JobRecord
reset_orphans now unreachable sla [] = (ok [], [])
reset_orphans now unreachable sla ((k, job) ∷ d) =
    let rest = reset_orphans now unreachable sla d in
    elim (is_orphaned now unreachable sla job) [
      | err e ↦ (err e, (k, job) ∷ d)
      | ok true ↦
          (map_ok (λ reissued. reset_job job ∷ reissued) rest.0, (k, reset_job job) ∷ rest.1)
      | ok false ↦ (rest.0, (k, job) ∷ rest.1)
    ]

unfoldable pub reissue_orphaned : DateTime → List String → ℕ → Exec MemoryJobStore (List JobRecord)
reissue_orphaned now unreachable sla s =
    let ran = reset_orphans now unreachable sla s.jobs in (ran.0, record s { jobs = ran.1 })

-- The rest of `reissue_one` for an attempt that was not reported before.
unfoldable pub interrupt :
    (job_id gateway_id attempt_token : String)
    → Option JobRecord
    → Exec MemoryJobStore (Option JobRecord)
unfolding add reset_job
interrupt job_id gateway_id attempt_token none = pure none
interrupt job_id gateway_id attempt_token (some job) =
    if is_acknowledged job.state && option_beq job.ack_gateway_id (some gateway_id)
    then (do
      modify λ s. record s {
        jobs = put job_id (reset_job job) s.jobs;
        interrupted_attempts = add (job_id, (gateway_id, attempt_token)) s.interrupted_attempts;
      }
      pure (some (reset_job job)))
    else pure none

unfoldable pub reissue_one :
    (job_id gateway_id attempt_token : String) → Exec MemoryJobStore (Option JobRecord)
unfolding contains interrupt
reissue_one job_id gateway_id attempt_token = do
  store ← gets (λ s. s)
  if contains (job_id, (gateway_id, attempt_token)) store.interrupted_attempts
      then pure none
      else interrupt job_id gateway_id attempt_token (lookup job_id store.jobs)
