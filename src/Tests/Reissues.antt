-- ===== src/Tests/Reissues.antt =====
-- The theorems on acknowledgements, completion and reissue, at concrete stores.
use saas_job_api.Prelude.{
  ◌≡◌, ◌⊎◌, arith, contains, refl, none, some, List, [], ◌∷◌, string_eq, pair_eq,
}
use saas_job_api.Result.{ok}
use saas_job_api.Time.{aware}
use saas_job_api.Dict.{lookup}
use saas_job_api.Jobs.Receipts.{acknowledge, check_receipt}
use saas_job_api.Jobs.Reissue.{is_orphaned, reset_job, reset_orphans, reissue_orphaned, reissue_one}
use saas_job_api.Jobs.Reissue.Laws.{IsAbandoned, reissue_orphaned_exact}
use saas_job_api.Jobs.Lifecycle.{Operation, Inv, orphans, claims, acknowledges, run}
use saas_job_api.Jobs.Lifecycle.Replays.{acknowledge_replayed}
use saas_job_api.Tests.Jobs.{holding-Inv}
use saas_job_api.Jobs.{JobRecord}
use saas_job_api.Jobs.Lifecycle.Interruptions.{reissue_one_once}
use saas_job_api.Tests.Data.{poll_one, token, receipt, holding, held_job, fresh_job, acked_job}

accepted : (acknowledge receipt (holding held_job)).0 ≡ ok acked_job
unfolding acknowledge check_receipt lookup
accepted = refl

held-Inv : Inv (holding held_job)
unfolding contains
held-Inv = holding-Inv held_job (ground arith)

-- The gateway is lost, and another one gets the job.
abbrev taken_over : List Operation
taken_over =
    orphans (aware 9000) ("gw_1" ∷ []) 600
    ∷ claims (aware 9000) (λ i. "other") (record poll_one { gateway_id = "gw_2" })
    ∷ []

acknowledge_replayed_example :
    let s' = run (acknowledge receipt (holding held_job)).1 taken_over in
    (j : JobRecord) × (lookup "job_1" s'.jobs ≡ some j) × (acknowledge receipt s' ≡ (ok j, s'))
acknowledge_replayed_example =
    acknowledge_replayed receipt (holding held_job) acked_job taken_over held-Inv accepted
      (tt, (tt, tt))

reissued :
    (reissue_orphaned (aware 9000) ("gw_1" ∷ []) 600 (holding acked_job)).0
    ≡ ok (reset_job acked_job ∷ [])
unfolding reissue_orphaned reset_orphans is_orphaned reset_job
reissued = refl

reissue_orphaned_exact_example :
    (IsAbandoned 9000 ("gw_1" ∷ []) 600 acked_job
      × (lookup "job_1" (reissue_orphaned (aware 9000) ("gw_1" ∷ []) 600 (holding acked_job)).1.jobs
          ≡ some (record fresh_job {
            delivery_attempts = 1;
            acknowledged_receipts = ("job_1", "token") ∷ [];
          })))
    ⊎ ((¬ (IsAbandoned 9000 ("gw_1" ∷ []) 600 acked_job))
        × (lookup "job_1"
              (reissue_orphaned (aware 9000) ("gw_1" ∷ []) 600 (holding acked_job)).1.jobs
            ≡ some acked_job))
unfolding lookup
reissue_orphaned_exact_example =
    reissue_orphaned_exact 9000 ("gw_1" ∷ []) 600 (holding acked_job) (reset_job acked_job ∷ [])
      "job_1" acked_job reissued refl

interrupted :
    (reissue_one "job_1" "gw_1" "attempt" (holding acked_job)).0 ≡ ok (some (reset_job acked_job))
unfolding reissue_one lookup reset_job
interrupted = refl

abbrev redelivered : List Operation
redelivered = claims (aware 9000) token poll_one ∷ acknowledges receipt ∷ []

reissue_one_once_example :
    let s' = run (reissue_one "job_1" "gw_1" "attempt" (holding acked_job)).1 redelivered in
    reissue_one "job_1" "gw_1" "attempt" s' ≡ (ok none, s')
reissue_one_once_example =
    reissue_one_once "job_1" "gw_1" "attempt" (holding acked_job) (reset_job acked_job) redelivered
      interrupted (tt, (tt, tt))
