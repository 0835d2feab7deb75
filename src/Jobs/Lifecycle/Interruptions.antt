-- ===== src/Jobs/Lifecycle/Interruptions.antt =====
-- A report of an interruption acts once until the store is reset, whatever else happens in between.
use saas_job_api.Prelude.{
  String, ◌≡◌, inl, inr, true, All, ◌&&◌, Option, none, some, List, [], ◌∷◌, arith, contains,
  string_eq, pair_eq, Bool-cases, beq_refl, option_beq,
}
use saas_job_api.Result.{ok}
use saas_job_api.Dict.{lookup}
use saas_job_api.Dict.Laws.{contains-add}
use saas_job_api.Jobs.{JobRecord, is_acknowledged}
use saas_job_api.Jobs.Store.{MemoryJobStore, seed, set_fault, take_fault}
use saas_job_api.Jobs.Claim.{claim}
use saas_job_api.Jobs.Receipts.{acknowledge, mark_completed}
use saas_job_api.Jobs.Reissue.{interrupt, reissue_one, reissue_orphaned}
use saas_job_api.Jobs.Lifecycle.{
  Operation, seeds, resets, Keeps, claims, acknowledges, completes, interrupts, orphans, arms,
  disarms, step, run,
}

abbrev Reported : (String × (String × String)) → MemoryJobStore → Type 0
Reported key s = contains key s.interrupted_attempts ≡ true

interrupt-Reported :
    (key : String × (String × String)) (job_id gateway_id attempt_token : String)
    (s : MemoryJobStore) (found : Option JobRecord)
    → Reported key s
    → Reported key (interrupt job_id gateway_id attempt_token found s).1
unfolding interrupt
interrupt-Reported key job_id gateway_id attempt_token s none h = h
interrupt-Reported key job_id gateway_id attempt_token s (some j) h =
    elim (Bool-cases (is_acknowledged j.state && option_beq j.ack_gateway_id (some gateway_id))) [
      | inl hit ↦ rw hit (rw contains-add (ground arith))
      | inr miss ↦ rw miss h
    ]

step-Reported :
    (key : String × (String × String)) (s : MemoryJobStore) (op : Operation)
    → Keeps op
    → Reported key s
    → Reported key (step s op)
unfolding step seed claim acknowledge mark_completed reissue_one reissue_orphaned set_fault
    take_fault
step-Reported key s resets keeps h = absurd keeps
step-Reported key s (seeds n) keeps h = ground arith
step-Reported key s (claims now token r) keeps h = ground arith
step-Reported key s (acknowledges r) keeps h = ground arith
step-Reported key s (completes job_id gateway_id) keeps h = ground arith
step-Reported key s (interrupts job_id gateway_id attempt_token) keeps h =
    ground (arith, interrupt-Reported key job_id gateway_id attempt_token s (lookup job_id s.jobs))
step-Reported key s (orphans now unreachable sla) keeps h = h
step-Reported key s (arms status retry_after) keeps h = h
step-Reported key s disarms keeps h = h

run-Reported :
    (key : String × (String × String)) (s : MemoryJobStore) (ops : List Operation)
    → All Keeps ops
    → Reported key s
    → Reported key (run s ops)
unfolding run
run-Reported key s [] kept h = h
run-Reported key s (op ∷ ops) (keeps, kept) h =
    run-Reported key (step s op) ops kept (step-Reported key s op keeps h)

interrupt_reports :
    (job_id gateway_id attempt_token : String) (s : MemoryJobStore) (j : JobRecord)
    (found : Option JobRecord)
    → (interrupt job_id gateway_id attempt_token found s).0 ≡ ok (some j)
    → Reported
        (job_id, (gateway_id, attempt_token))
        (interrupt job_id gateway_id attempt_token found s).1
unfolding interrupt
interrupt_reports job_id gateway_id attempt_token s j none h = cc
interrupt_reports job_id gateway_id attempt_token s j (some i) h =
    elim (Bool-cases (is_acknowledged i.state && option_beq i.ack_gateway_id (some gateway_id))) [
      | inl hit ↦ rw hit (
          rw contains-add
            (rw (beq_refl {A = String × (String × String)} (job_id, (gateway_id, attempt_token)))))
      | inr miss ↦ cc (rw miss at h)
    ]

reported :
    (job_id gateway_id attempt_token : String) (s : MemoryJobStore) (j : JobRecord)
    → (reissue_one job_id gateway_id attempt_token s).0 ≡ ok (some j)
    → Reported
        (job_id, (gateway_id, attempt_token))
        (reissue_one job_id gateway_id attempt_token s).1
unfolding reissue_one
reported job_id gateway_id attempt_token s j h =
    elim (Bool-cases (contains (job_id, (gateway_id, attempt_token)) s.interrupted_attempts)) [
      | inl known ↦ cc (rw known at h)
      | inr fresh ↦ rw fresh (
          interrupt_reports job_id gateway_id attempt_token s j (lookup job_id s.jobs)
            (rw fresh at h))
    ]

-- A gateway's report that an attempt was interrupted reissues the job at most once. After a report
-- that reissued the job, the same report, after any operations but a reset, returns `None` and
-- changes nothing, also if the gateway has acknowledged the job again in the meantime.
pub reissue_one_once :
    (job_id gateway_id attempt_token : String) (s : MemoryJobStore) (j : JobRecord)
    (ops : List Operation)
    → (reissue_one job_id gateway_id attempt_token s).0 ≡ ok (some j)
    → All Keeps ops
    → let s' = run (reissue_one job_id gateway_id attempt_token s).1 ops in
      reissue_one job_id gateway_id attempt_token s' ≡ (ok none, s')
reissue_one_once job_id gateway_id attempt_token s j ops h kept =
    let known =
      run-Reported (job_id, (gateway_id, attempt_token))
        (reissue_one job_id gateway_id attempt_token s).1 ops kept
        (reported job_id gateway_id attempt_token s j h) in
    unfold reissue_one in rw known
