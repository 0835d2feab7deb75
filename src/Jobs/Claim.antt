-- ===== src/Jobs/Claim.antt =====
-- `MemoryJobStore.claim` (src/saas_job_api/store_memory.py): which jobs a poll takes, in which order.
pub mod Reserved
pub mod Chosen
pub mod Exclusive
pub mod Priority
use Prim.Native.String.{compare}
use Prim.Native.Nat.{Ordering}
use saas_job_api.Prelude.{
  ℕ, suc, ◌+◌, String, Bool, true, false, not, ◌&&◌, Option, none, some, List, [], ◌∷◌, string_eq,
  pair_eq, contains, if◌then◌else◌,
}
use saas_job_api.Prelude.Int.{ℤ, pos_part, ltb_ℤ, beq_ℤ, min_ℤ}
use saas_job_api.Result.{Result, ok, map_ok}
use saas_job_api.Exec.{Exec, pure, lift, gets, modify, ◌>>=◌, ◌>>◌}
use saas_job_api.Time.{DateTime, at_once, is_before, later}
use saas_job_api.Dict.{Dict, put_all, values}
use saas_job_api.Dict.Select.{select}
use saas_job_api.Jobs.{JobRecord, reserved, is_eligible}
use saas_job_api.Jobs.Store.{MemoryJobStore}

-- `None` in a request's list of job types or manifest versions allows all.
abbrev pub allows : Option (List String) → String → Bool
allows none x = true
allows (some xs) x = contains x xs

unfoldable pub is_claimable :
    DateTime → Option (List String) → Option (List String) → JobRecord → Result Bool
unfolding is_eligible contains
is_claimable now job_types versions job =
    map_ok
      (λ eligible.
        eligible && allows job_types job.job_type && allows versions job.manifest_version)
      (is_eligible job now)

unfoldable pub text_lt : String → String → Bool
text_lt a b = elim (compare a b) [ Ordering.lt ↦ true | _ ↦ false ]

-- The order of `key=lambda job: (-job.priority, job.scheduled_at, job.job_id)`: tuples compare by
-- their first unequal parts.
unfoldable pub job_lt : JobRecord → JobRecord → Result Bool
unfolding text_lt is_before
job_lt a b =
    if not (beq_ℤ a.priority b.priority)
    then ok (ltb_ℤ b.priority a.priority)
    else if not (at_once a.scheduled_at b.scheduled_at)
    then is_before a.scheduled_at b.scheduled_at
    else ok (text_lt a.job_id b.job_id)

-- `max(limit, 0)` for `limit = max_jobs if dispatch_slots is None else min(...)`.
unfoldable pub claim_limit : ℤ → Option ℤ → ℕ
unfolding min_ℤ
claim_limit max_jobs none = pos_part max_jobs
claim_limit max_jobs (some slots) = pos_part (min_ℤ max_jobs slots)

-- The body of the loop over the chosen jobs.
unfoldable pub reserve : String → DateTime → String → JobRecord → JobRecord
reserve gateway_id until token job = record job {
  state = reserved;
  reserved_by = some gateway_id;
  reservation_until = some until;
  receipt_token = some token;
  delivery_attempts = job.delivery_attempts + 1;
}

-- The i-th job gets the i-th token that `secrets.token_urlsafe` returns.
unfoldable pub reserve_each :
    String → DateTime → (ℕ → String) → Dict String JobRecord → Dict String JobRecord
unfolding reserve
reserve_each gateway_id until token [] = []
reserve_each gateway_id until token ((k, job) ∷ chosen) =
    (k, reserve gateway_id until (token 0) job)
    ∷ reserve_each gateway_id until (λ i. token (suc i)) chosen

-- The arguments of `claim`.
pub record ClaimRequest : Type 0 where
  pub gateway_id : String
  pub job_types : Option (List String)
  pub manifest_versions : Option (List String)
  pub max_jobs : ℤ
  pub dispatch_slots : Option ℤ

-- `chosen`: the entries that a claim at `now` takes.
unfoldable pub choose :
    DateTime → ClaimRequest → Dict String JobRecord → Result (Dict String JobRecord)
choose now r =
    select (is_claimable now r.job_types r.manifest_versions) job_lt
      (claim_limit r.max_jobs r.dispatch_slots)

unfoldable pub claim : DateTime → (ℕ → String) → ClaimRequest → Exec MemoryJobStore (List JobRecord)
claim now token r = do
  store ← gets (λ s. s)
  chosen ← lift (choose now r store.jobs)
  let until = later now store.reservation_ttl_seconds
  let changed = reserve_each r.gateway_id until token chosen
  modify (λ s. record s { jobs = put_all changed s.jobs })
  pure (values changed)
