-- ===== src/Jobs/Reissue/Loop.antt =====
-- The loop of `reissue_orphaned` resets orphaned jobs and changes no other; if all comparisons
-- return it resets every orphaned job.
use saas_job_api.Prelude.{
  ℕ, String, ◌≡◌, refl, ◌⊎◌, true, none, some, List, [], ◌∷◌, arith, string_eq,
}
use saas_job_api.Result.{ok}
use saas_job_api.Time.{DateTime}
use saas_job_api.Dict.{Dict, lookup, IsUnique}
use saas_job_api.Jobs.{JobRecord}
use saas_job_api.Jobs.Reissue.{reset_orphans, is_orphaned, reset_job}

module _ (now : DateTime) (unreachable : List String) (sla : ℕ) where
  abbrev reset_in : Dict String JobRecord → Dict String JobRecord
  reset_in d = (reset_orphans now unreachable sla d).1

  pub reset_orphans_none :
      (k : String) (d : Dict String JobRecord) → lookup k d ≡ none → lookup k (reset_in d) ≡ none
  unfolding lookup reset_orphans
  reset_orphans_none k [] h = refl
  reset_orphans_none k ((i, x) ∷ d) h = ground (arith, reset_orphans_none k d)

  pub reset_orphans-IsUnique : (d : Dict String JobRecord) → IsUnique d → IsUnique (reset_in d)
  unfolding lookup reset_orphans
  reset_orphans-IsUnique [] u = tt
  reset_orphans-IsUnique ((i, x) ∷ d) u =
      ground (arith, reset_orphans_none i d u.0, reset_orphans-IsUnique d u.1)

  -- Whether it returns or raises, the loop leaves a record alone, or resets it because it is
  -- orphaned.
  pub reset_orphans_some :
      (k : String) (j : JobRecord) (d : Dict String JobRecord)
      → lookup k d ≡ some j
      → (lookup k (reset_in d) ≡ some j)
        ⊎ ((is_orphaned now unreachable sla j ≡ ok true)
            × (lookup k (reset_in d) ≡ some (reset_job j)))
  unfolding lookup reset_orphans
  reset_orphans_some k j [] h = cc
  reset_orphans_some k j ((i, x) ∷ d) h = ground (arith, reset_orphans_some k j d)
