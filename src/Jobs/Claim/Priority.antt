-- ===== src/Jobs/Claim/Priority.antt =====
-- How many jobs a claim takes, which ones, and when it returns.
use saas_job_api.Prelude.{
  ℕ, String, ◌≡◌, ◌<◌, true, false, Option, none, some, List, arith, string_eq, length, All,
}
use saas_job_api.Prelude.Int.{ℤ, ◌≤ℤ◌}
use saas_job_api.Result.{ok, IsOk, IsOk-of_no_err}
use saas_job_api.Time.{DateTime, aware, later}
use saas_job_api.Dict.{Dict, lookup, IsUnique, values}
use saas_job_api.Dict.Select.Selected.{select_complete}
use saas_job_api.Dict.Select.Order.{select_first, select_total}
use saas_job_api.Jobs.{JobRecord}
use saas_job_api.Jobs.Store.{MemoryJobStore}
use saas_job_api.Jobs.Claim.{
  ClaimRequest, is_claimable, job_lt, claim_limit, reserve, reserve_each, choose, claim,
}
use saas_job_api.Jobs.Claim.Exclusive.{claim_reserves}

job_lt-priority : (a b : JobRecord) → job_lt a b ≡ ok true → b.priority ≤ℤ a.priority
unfolding job_lt
job_lt-priority a b h = ground arith

not-job_lt-priority : (a b : JobRecord) → job_lt a b ≡ ok false → a.priority ≤ℤ b.priority
unfolding job_lt
not-job_lt-priority a b h = ground arith

≤ℤ_trans : (a b c : ℤ) → b ≤ℤ a → c ≤ℤ b → c ≤ℤ a
≤ℤ_trans a b c h k = omega arith

-- A claim takes the most urgent jobs. If a claim chooses a job and leaves out another that was
-- claimable too, then the job that is left out has no higher priority.
pub choose_priority :
    (now : DateTime) (r : ClaimRequest) (s : MemoryJobStore) (chosen : Dict String JobRecord)
    (k i : String) (taken left : JobRecord)
    → IsUnique s.jobs
    → choose now r s.jobs ≡ ok chosen
    → lookup k chosen ≡ some taken
    → lookup i s.jobs ≡ some left
    → is_claimable now r.job_types r.manifest_versions left ≡ ok true
    → lookup i chosen ≡ none
    → left.priority ≤ℤ taken.priority
unfolding choose
choose_priority now r s chosen k i taken left u c h e p m =
    select_first (is_claimable now r.job_types r.manifest_versions) job_lt
      (λ a b. b.priority ≤ℤ a.priority) (λ a b c. ≤ℤ_trans a.priority b.priority c.priority)
      job_lt-priority not-job_lt-priority (claim_limit r.max_jobs r.dispatch_slots) s.jobs k i u c h
      e p m

-- If a claim chooses fewer jobs than it may, then every claimable job is reserved for the caller
-- until the end of the reservation period, with one of the tokens drawn.
pub claim_complete :
    (now : DateTime) (token : ℕ → String) (r : ClaimRequest) (s : MemoryJobStore)
    (chosen : Dict String JobRecord) (k : String) (j : JobRecord)
    → IsUnique s.jobs
    → choose now r s.jobs ≡ ok chosen
    → length chosen < claim_limit r.max_jobs r.dispatch_slots
    → lookup k s.jobs ≡ some j
    → is_claimable now r.job_types r.manifest_versions j ≡ ok true
    → (i : ℕ) × (lookup k (claim now token r s).1.jobs
        ≡ some (reserve r.gateway_id (later now s.reservation_ttl_seconds) (token i) j))
unfolding choose
claim_complete now token r s chosen k j u c short e p = claim_reserves now token r s u k c (
    select_complete (is_claimable now r.job_types r.manifest_versions) job_lt
      (claim_limit r.max_jobs r.dispatch_slots) s.jobs u k j c short e p)

-- The datetimes of a record that a claim compares are aware of their time zone.
abbrev pub AwareOrNone : Option DateTime → Type 0
AwareOrNone none = Unit
AwareOrNone (some t) = t.is_aware ≡ true

pub record IsTimed (j : JobRecord) : Type 0 where
  pub scheduled : j.scheduled_at.is_aware ≡ true
  pub until : AwareOrNone j.reservation_until

is_claimable_total :
    (t : ℕ) (types versions : Option (List String)) (j : JobRecord)
    → IsTimed j
    → IsOk (is_claimable (aware t) types versions j)
unfolding is_claimable
is_claimable_total t types versions j h =
    IsOk-of_no_err (is_claimable (aware t) types versions j) (λ e f. ground arith)

job_lt_total : (a b : JobRecord) → IsTimed a → IsTimed b → IsOk (job_lt a b)
unfolding job_lt
job_lt_total a b h k = IsOk-of_no_err (job_lt a b) (λ e f. ground arith)

-- A claim returns, at an aware time and if the datetimes that it compares are aware.
pub claim_total :
    (t : ℕ) (token : ℕ → String) (r : ClaimRequest) (s : MemoryJobStore)
    → All (λ entry. IsTimed entry.1) s.jobs
    → IsOk (claim (aware t) token r s).0
unfolding claim choose
claim_total t token r s h =
    let (chosen, c) =
      select_total (is_claimable (aware t) r.job_types r.manifest_versions) job_lt IsTimed
        (is_claimable_total t r.job_types r.manifest_versions) job_lt_total
        (claim_limit r.max_jobs r.dispatch_slots) s.jobs h in
    let until = later (aware t) s.reservation_ttl_seconds in
    (values (reserve_each r.gateway_id until token chosen), rw c)
