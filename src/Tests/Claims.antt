-- ===== src/Tests/Claims.antt =====
-- The theorems on claims, at concrete stores.
use saas_job_api.Prelude.{ℕ, String, ◌≡◌, refl, some, [], ◌∷◌, arith, string_eq}
use saas_job_api.Prelude.Int.{pos, ◌≤ℤ◌}
use saas_job_api.Result.{ok, IsOk}
use saas_job_api.Time.{aware}
use saas_job_api.Sorting.{filter, insert, sort}
use saas_job_api.Dict.{Dict, lookup}
use saas_job_api.Dict.Select.{select}
use saas_job_api.Jobs.{JobRecord}
use saas_job_api.Jobs.Claim.{
  ClaimRequest, claim, choose, is_claimable, job_lt, claim_limit, reserve,
}
use saas_job_api.Jobs.Claim.Exclusive.{claim_exclusive}
use saas_job_api.Jobs.Claim.Priority.{choose_priority, claim_complete, claim_total}
use saas_job_api.Tests.Data.{poll_one, token, two_jobs, urgent_job, fresh_job}

abbrev taken : Dict String JobRecord
taken = ("job_2", urgent_job) ∷ []

takes_urgent : choose (aware 1500) poll_one two_jobs.jobs ≡ ok taken
unfolding choose select filter sort insert is_claimable job_lt claim_limit
takes_urgent = refl

claim_exclusive_example :
    (i : ℕ) × (lookup "job_2"
        (claim (aware 1559) token poll_one (claim (aware 1500) token poll_one two_jobs).1).1.jobs
      ≡ some (reserve "gw_1" (aware 1560) (token i) urgent_job))
unfolding lookup
claim_exclusive_example =
    claim_exclusive two_jobs poll_one poll_one token token 1500 1559 taken "job_2" urgent_job
      (refl, (refl, tt)) takes_urgent refl (omega arith)

choose_priority_example : fresh_job.priority ≤ℤ urgent_job.priority
unfolding lookup is_claimable
choose_priority_example =
    choose_priority (aware 1500) poll_one two_jobs taken "job_2" "job_1" urgent_job fresh_job
      (refl, (refl, tt)) takes_urgent refl refl refl refl

abbrev poll_five : ClaimRequest
poll_five = record poll_one { max_jobs = pos 5 }

abbrev both : Dict String JobRecord
both = ("job_2", urgent_job) ∷ ("job_1", fresh_job) ∷ []

takes_both : choose (aware 1500) poll_five two_jobs.jobs ≡ ok both
unfolding choose select filter sort insert is_claimable job_lt claim_limit
takes_both = refl

claim_complete_example :
    (i : ℕ) × (lookup "job_1" (claim (aware 1500) token poll_five two_jobs).1.jobs
      ≡ some (reserve "gw_1" (aware 1560) (token i) fresh_job))
unfolding lookup is_claimable claim_limit
claim_complete_example =
    claim_complete (aware 1500) token poll_five two_jobs both "job_1" fresh_job (refl, (refl, tt))
      takes_both (omega arith) refl refl

claim_total_example : IsOk (claim (aware 1500) token poll_one two_jobs).0
claim_total_example =
    claim_total 1500 token poll_one two_jobs
      (record { scheduled = refl; until = tt }, (record { scheduled = refl; until = tt }, tt))
