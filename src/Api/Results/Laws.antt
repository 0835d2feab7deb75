-- ===== src/Api/Results/Laws.antt =====
-- What a submission leaves behind, and that a refused one changes nothing.
use saas_job_api.Prelude.{
  ℕ, String, ◌≡◌, refl, inl, inr, true, some, arith, string_eq, pair_eq, Option-cases, Bool-cases,
  beq_refl, [],
}
use mathlib.Core.Path.{ap, subst}
use saas_job_api.Result.{Error, ok, err, Result-cases}
use saas_job_api.Dict.{lookup}
use saas_job_api.Dict.Laws.{lookup-put}
use saas_job_api.Jobs.{JobRecord, completed}
use saas_job_api.Jobs.Store.{MemoryJobStore, get}
use saas_job_api.Jobs.Receipts.{mark_completed, complete_record}
use saas_job_api.Inventory.{SubmitResultOutcome}
use saas_job_api.Inventory.{submit_result as store_result}
use saas_job_api.Inventory.Laws.{submit_result_total}
use saas_job_api.Api.{App, check_job_id, record_audit_event}
use saas_job_api.Api.Results.{
  SubmitResultRequest, SubmitResultResponse, Draws, submission, record_result, submit_result,
  answer,
}

-- A refused completion changes nothing.
mark_completed_err :
    (job_id gateway_id : String) (s : MemoryJobStore) (e : Error)
    → (mark_completed job_id gateway_id s).0 ≡ err e
    → (mark_completed job_id gateway_id s).1 ≡ s
unfolding mark_completed
mark_completed_err job_id gateway_id s e h = elim (Option-cases (lookup job_id s.jobs)) [
  | inl c ↦ rw c
  | inr (j, c) ↦ elim (Result-cases (complete_record gateway_id j)) [
    | inr (x, d) ↦ rw (c, d)
    | inl (x, d) ↦ cc (rw (c, d) at h)
  ]
]

-- What follows the completion always answers.
pub record_result_answers :
    (job_id : String) (body : SubmitResultRequest) (gateway_id : String) (draws : Draws)
    (j : JobRecord) (s : App)
    → (outcome : SubmitResultOutcome) × ((store_result draws.record_id
          (submission job_id body draws.now j)
          s.inventory).0
        ≡ ok outcome)
      × ((record_result job_id body gateway_id draws j s).0 ≡ ok (answer outcome))
      × ((record_result job_id body gateway_id draws j s).1.inventory
          ≡ (store_result draws.record_id (submission job_id body draws.now j) s.inventory).1)
      × ((record_result job_id body gateway_id draws j s).1.jobs ≡ s.jobs)
unfolding record_result record_audit_event
record_result_answers job_id body gateway_id draws j s =
    let (o, c) =
      submit_result_total draws.record_id (submission job_id body draws.now j) s.inventory in
    elim (Bool-cases o.dedupe) [
      | inl old ↦ (o, c, rw c (rw old), rw c (rw old), rw c (rw old))
      | inr new ↦ (o, c, rw c (rw new), rw c (rw new), rw c (rw new))
    ]

-- A duplicate is answered, and nothing changes.
pub record_result_duplicate :
    (job_id : String) (body : SubmitResultRequest) (gateway_id : String) (draws : Draws)
    (j : JobRecord) (s : App) (n : ℕ)
    → store_result draws.record_id (submission job_id body draws.now j) s.inventory ≡ (
      ok (record { accepted = true; dedupe = true; record_count = n; records = [] }),
      s.inventory,
    )
    → record_result job_id body gateway_id draws j s
      ≡ (ok (record { accepted = true; dedupe = true; record_count = n }), s)
unfolding record_result
record_result_duplicate job_id body gateway_id draws j s n h = rw h refl

complete_record_completes :
    (gateway_id : String) (j j' : JobRecord)
    → complete_record gateway_id j ≡ ok j'
    → j'.state ≡ completed
unfolding complete_record
complete_record_completes gateway_id j j' h = ground arith

-- After a completion that returns the job is stored, completed, with the payload it had.
pub mark_completed_stores :
    (job_id gateway_id : String) (s : MemoryJobStore) (j' : JobRecord)
    → (mark_completed job_id gateway_id s).0 ≡ ok j'
    → (lookup job_id (mark_completed job_id gateway_id s).1.jobs ≡ some j') × (j'.state ≡ completed)
unfolding mark_completed
mark_completed_stores job_id gateway_id s j' h = elim (Option-cases (lookup job_id s.jobs)) [
  | inl c ↦ cc (rw c at h)
  | inr (j, c) ↦ elim (Result-cases (complete_record gateway_id j)) [
    | inr (x, d) ↦ cc (rw (c, d) at h)
    | inl (x, d) ↦
        let same : x ≡ j' = cc (rw (c, d) at h) in
        (
          rw (c, d) (rw lookup-put (rw (beq_refl {A = String} job_id) (ap some same))),
          subst (λ y. y.state ≡ completed) same (complete_record_completes gateway_id j x d),
        )
  ]
]

module _ (job_id : String) (body : SubmitResultRequest) (gateway_id : String) (draws : Draws)
    (s : App) where
  completing :
      (j' : JobRecord)
      → (mark_completed job_id gateway_id s.jobs).0 ≡ ok j'
      → mark_completed job_id gateway_id s.jobs
        ≡ (ok j', (mark_completed job_id gateway_id s.jobs).1)
  completing j' m = ap (λ r. (r, (mark_completed job_id gateway_id s.jobs).1)) m

  -- A submission that passes its checks is what follows the completion.
  pub submit_result_passed :
      (j j' : JobRecord) (jobs : MemoryJobStore)
      → check_job_id job_id body.job_id ≡ ok tt
      → lookup job_id s.jobs.jobs ≡ some j
      → mark_completed job_id gateway_id s.jobs ≡ (ok j', jobs)
      → submit_result job_id body gateway_id draws s
        ≡ record_result job_id body gateway_id draws j (record s { jobs = jobs })
  unfolding submit_result get
  submit_result_passed j j' jobs c f m = rw (c, f, m) refl

  abbrev pub completed_app : App
  completed_app = record s { jobs = (mark_completed job_id gateway_id s.jobs).1 }

  -- With the stores in memory, a submission that is refused, whatever the reason, changes nothing:
  -- no job, no certificate and no audit event.
  pub submit_result_refused :
      (e : Error)
      → (submit_result job_id body gateway_id draws s).0 ≡ err e
      → (submit_result job_id body gateway_id draws s).1 ≡ s
  unfolding submit_result get
  submit_result_refused e h = elim (Result-cases (check_job_id job_id body.job_id)) [
    | inr (x, c) ↦ rw c refl
    | inl (_, c) ↦ elim (Option-cases (lookup job_id s.jobs.jobs)) [
      | inl f ↦ rw (c, f) refl
      | inr (j, f) ↦ elim (Result-cases (mark_completed job_id gateway_id s.jobs).0) [
        | inr (x, m) ↦
            rw (c, f, m)
              (ap (λ jobs. record s { jobs = jobs })
                (mark_completed_err job_id gateway_id s.jobs x m))
        | inl (j', m) ↦
            let (o, _, a, _, _) =
              record_result_answers job_id body gateway_id draws j completed_app in
            let passed = ap (λ ran. ran.0) (submit_result_passed j j' _ c f (completing j' m)) in cc
      ]
    ]
  ]

  -- What a submission that is answered has done.
  pub accepted_inv :
      (first : SubmitResultResponse)
      → (submit_result job_id body gateway_id draws s).0 ≡ ok first
      → (j j' : JobRecord) × (lookup job_id s.jobs.jobs ≡ some j)
        × ((mark_completed job_id gateway_id s.jobs).0 ≡ ok j')
        × (submit_result job_id body gateway_id draws s
            ≡ record_result job_id body gateway_id draws j completed_app)
  unfolding submit_result get
  accepted_inv first h = elim (Result-cases (check_job_id job_id body.job_id)) [
    | inr (x, c) ↦ cc (rw c at h)
    | inl (_, c) ↦ elim (Option-cases (lookup job_id s.jobs.jobs)) [
      | inl f ↦ cc (rw (c, f) at h)
      | inr (j, f) ↦ elim (Result-cases (mark_completed job_id gateway_id s.jobs).0) [
        | inr (x, m) ↦ cc (rw (c, f, m) at h)
        | inl (j', m) ↦ (j, j', f, m, submit_result_passed j j' _ c f (completing j' m))
      ]
    ]
  ]

  -- A submission that is answered leaves its job completed.
  pub submit_result_completes :
      (first : SubmitResultResponse)
      → (submit_result job_id body gateway_id draws s).0 ≡ ok first
      → (j : JobRecord) × (lookup job_id (submit_result job_id body gateway_id draws s).1.jobs.jobs
          ≡ some j)
        × (j.state ≡ completed)
  submit_result_completes first h =
      let (j, j', f, m, same) = accepted_inv first h in
      let (o, _, _, _, kept) = record_result_answers job_id body gateway_id draws j completed_app in
      let (stored, done) = mark_completed_stores job_id gateway_id s.jobs j' m in
      (j', (rw same (rw kept stored)), done)
