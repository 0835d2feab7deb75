-- ===== src/Tests/Jobs.antt =====
-- The theorems on the job store, at concrete stores.
use mathlib.Core.Path.{subst}
use mathlib.Core.Option.{some-injective}
use text.Mathlib.TextEquality.{eq_iff}
use saas_job_api.Sorting.{filter, insert, sort}
use saas_job_api.Dict.Select.{select}
use saas_job_api.Prelude.{
  contains, Bool-cases, inl, inr, none, ◌==◌, pair_eq, ◌≡◌, refl, some, List, [], ◌∷◌, arith,
  string_eq,
}
use saas_job_api.Time.{aware}
use saas_job_api.Dict.{lookup, put, put_all}
use saas_job_api.Jobs.{JobRecord, new_job, completed}
use saas_job_api.Jobs.Store.{seed}
use saas_job_api.Jobs.Claim.{claim, choose, is_claimable, job_lt, claim_limit, reserve_each}
use saas_job_api.Jobs.Receipts.{acknowledge, check_receipt, mark_completed, complete_record}
use saas_job_api.Jobs.Lifecycle.{
  Operation, arms, resets, seeds, claims, acknowledges, completes, interrupts, step, run, Inv,
  IsConsistent, ◌⟶◌,
}
use saas_job_api.Jobs.Lifecycle.History.{run-Inv, completed_forever, step-follows}
use saas_job_api.Tests.Data.{scan, empty, poll_one, token, receipt, holding, done_job}

empty-Inv : Inv empty
unfolding lookup
empty-Inv = record { unique = tt; at_key = λ k j e. cc }

abbrev delivered : List Operation
delivered =
    seeds scan
    ∷ claims (aware 1500) token poll_one
    ∷ acknowledges receipt
    ∷ completes "job_1" "gw_1"
    ∷ []

run-Inv_example : Inv (run empty (arms 503 none ∷ resets ∷ delivered))
run-Inv_example = run-Inv empty (arms 503 none ∷ resets ∷ delivered) empty-Inv

pub holding-Inv : (j : JobRecord) → IsConsistent "job_1" j → Inv (holding j)
unfolding lookup
holding-Inv j c = record {
  unique = (refl, tt);
  at_key = λ k i e. elim (Bool-cases ("job_1" == k)) [
    | inr miss ↦ cc (rw miss at e)
    | inl hit ↦
        subst (λ x. IsConsistent x i) ((eq_iff "job_1" k).0 hit)
          (subst (IsConsistent "job_1") (some-injective j i (rw hit at e)) c)
  ];
}

done-Inv : Inv (holding done_job)
unfolding contains
done-Inv = holding-Inv done_job (ground arith)

completed_forever_example :
    (j : JobRecord) × (lookup "job_1" (run (holding done_job) delivered).jobs ≡ some j)
    × (j.state ≡ completed)
unfolding lookup
completed_forever_example =
    completed_forever (holding done_job) delivered "job_1" done_job done-Inv
      (tt, (tt, (tt, (tt, tt)))) refl refl

step-follows_example :
    (j : JobRecord) × (lookup "job_1" (step (holding done_job) (interrupts "job_1" "gw_1" "a")).jobs
      ≡ some j)
    × (completed ⟶ j.state)
unfolding lookup
step-follows_example =
    step-follows (holding done_job) (interrupts "job_1" "gw_1" "a") "job_1" done_job done-Inv tt
      refl

-- Seeded, claimed, acknowledged and completed.
delivered_completes : lookup "job_1" (run empty delivered).jobs ≡ some done_job
unfolding run step seed claim choose select filter sort insert is_claimable job_lt claim_limit
    reserve_each put_all put lookup acknowledge check_receipt mark_completed complete_record new_job
delivered_completes = refl
