-- ===== src/Jobs/Claim/Exclusive.antt =====
-- What a claim does to the store: whom it gives which job, and that nobody else gets it.
use saas_job_api.Prelude.{
  ℕ, String, ◌≡◌, ◌<◌, ◌+◌, refl, inl, inr, false, Option, none, some, List, arith, string_eq,
  Option-cases,
}
use saas_job_api.Result.{ok, Result-cases}
use saas_job_api.Time.{DateTime, aware, later}
use saas_job_api.Dict.{Dict, lookup, IsUnique}
use saas_job_api.Dict.Laws.{lookup-put_all, put_all-IsUnique}
use saas_job_api.Jobs.{JobRecord, reserved}
use saas_job_api.Jobs.Store.{MemoryJobStore}
use saas_job_api.Jobs.Claim.{ClaimRequest, is_claimable, reserve, reserve_each, choose, claim}
use saas_job_api.Jobs.Claim.Chosen.{choose_sound, choose-IsUnique}
use saas_job_api.Jobs.Claim.Reserved.{
  lookup-reserve_each, lookup-reserve_each-none, reserve_each-IsUnique,
}

module _ (now : DateTime) (token : ℕ → String) (r : ClaimRequest) (s : MemoryJobStore)
    (u : IsUnique s.jobs) where
  -- A job that is not chosen is not changed.
  claim_leaves :
      {chosen : Dict String JobRecord} (k : String)
      → choose now r s.jobs ≡ ok chosen
      → lookup k chosen ≡ none
      → lookup k (claim now token r s).1.jobs ≡ lookup k s.jobs
  unfolding claim
  claim_leaves {chosen} k c h =
      let until = later now s.reservation_ttl_seconds in
      let changed = reserve_each r.gateway_id until token chosen in
      let unique : IsUnique changed =
        reserve_each-IsUnique r.gateway_id until token chosen (choose-IsUnique now r s.jobs u c) in
      rw c (
        rw (lookup-put_all changed s.jobs unique k)
          (rw (lookup-reserve_each-none r.gateway_id until token k chosen h)))

  -- A chosen job is reserved for the caller, with one of the tokens drawn.
  pub claim_reserves :
      {chosen : Dict String JobRecord} (k : String) {j : JobRecord}
      → choose now r s.jobs ≡ ok chosen
      → lookup k chosen ≡ some j
      → (i : ℕ) × (lookup k (claim now token r s).1.jobs
          ≡ some (reserve r.gateway_id (later now s.reservation_ttl_seconds) (token i) j))
  unfolding claim
  claim_reserves {chosen} k {j} c h =
      let until = later now s.reservation_ttl_seconds in
      let changed = reserve_each r.gateway_id until token chosen in
      let unique : IsUnique changed =
        reserve_each-IsUnique r.gateway_id until token chosen (choose-IsUnique now r s.jobs u c) in
      let (i, e) = lookup-reserve_each r.gateway_id until token k chosen h in
      (i, rw c (rw (lookup-put_all changed s.jobs unique k) (rw e)))

  -- A job that is not claimable is not changed.
  pub claim_keeps :
      (k : String) (j : JobRecord)
      → lookup k s.jobs ≡ some j
      → is_claimable now r.job_types r.manifest_versions j ≡ ok false
      → lookup k (claim now token r s).1.jobs ≡ some j
  claim_keeps k j e h = elim (Result-cases (choose now r s.jobs)) [
    | inr (x, c) ↦ unfold claim in rw c e
    | inl (chosen, c) ↦ elim (Option-cases (lookup k chosen)) [
      | inl m ↦ rw (claim_leaves k c m) e
      | inr (j', m) ↦ let (old, yes') = choose_sound now r s.jobs u k j' c m in ground arith
    ]
  ]

  claim-IsUnique : IsUnique (claim now token r s).1.jobs
  unfolding claim
  claim-IsUnique = elim (Result-cases (choose now r s.jobs)) [
    | inr (x, c) ↦ rw c u
    | inl (chosen, c) ↦ rw c (put_all-IsUnique _ s.jobs u)
  ]

reserved_not_claimable :
    (j : JobRecord) (t until : ℕ) (types versions : Option (List String))
    → j.state ≡ reserved
    → j.reservation_until ≡ some (aware until)
    → t < until
    → is_claimable (aware t) types versions j ≡ ok false
unfolding is_claimable
reserved_not_claimable j t until types versions e f h = ground arith

-- A reservation is exclusive. If a claim chooses a job, then until the reservation runs out, that
-- is at any time before the time of the claim plus the store's reservation period, another claim,
-- by any gateway and for any job types, leaves the job as the first claim reserved it.
pub claim_exclusive :
    (s : MemoryJobStore) (r₁ r₂ : ClaimRequest) (token₁ token₂ : ℕ → String) (t₁ t₂ : ℕ)
    (chosen : Dict String JobRecord) (k : String) (j : JobRecord)
    → IsUnique s.jobs
    → choose (aware t₁) r₁ s.jobs ≡ ok chosen
    → lookup k chosen ≡ some j
    → t₂ < t₁ + s.reservation_ttl_seconds
    → (i : ℕ) × (lookup k (claim (aware t₂) token₂ r₂ (claim (aware t₁) token₁ r₁ s).1).1.jobs
        ≡ some (reserve r₁.gateway_id (aware (t₁ + s.reservation_ttl_seconds)) (token₁ i) j))
unfolding reserve
claim_exclusive s r₁ r₂ token₁ token₂ t₁ t₂ chosen k j u c h m =
    let (i, e) = claim_reserves (aware t₁) token₁ r₁ s u k c h in
    let u' = claim-IsUnique (aware t₁) token₁ r₁ s u in
    let kept = reserve r₁.gateway_id (aware (t₁ + s.reservation_ttl_seconds)) (token₁ i) j in
    (
      i,
      claim_keeps (aware t₂) token₂ r₂ (claim (aware t₁) token₁ r₁ s).1 u' k kept e (
          reserved_not_claimable kept t₂ (t₁ + s.reservation_ttl_seconds) r₂.job_types
            r₂.manifest_versions refl refl m),
    )
