-- ===== src/Postgres/Jobs/Filters.antt =====
-- What the claim of `PostgresJobStore` (src/saas_job_api/store_postgres.py) leaves out of its
-- query: the job types and manifest versions that the gateway supports.
use mathlib.Core.Path.{ap, ◌∙◌}
use mathlib.Core.Option
use saas_job_api.Prelude.{
  ℕ, suc, String, ◌≡◌, ◌<◌, ◌+◌, refl, true, false, some, none, [], ◌∷◌, arith, string_eq, length,
  ◌==◌, inl, inr, Bool-cases,
}
use saas_job_api.Prelude.Int.{pos}
use saas_job_api.Result.{ok}
use saas_job_api.Time.{aware, is_by}
use saas_job_api.Jobs.{is_eligible}
use saas_job_api.Dict.{Dict, lookup, IsUnique}
use saas_job_api.Dict.Laws.{lookup-put_all}
use saas_job_api.Dict.Select.Selected.{select-IsUnique, select_complete}
use saas_job_api.Jobs.Claim.{ClaimRequest, is_claimable, allows}
use saas_job_api.Jobs.Claim as Claim
use saas_job_api.Jobs.Claim.Exclusive.{claim_keeps}
use saas_job_api.Postgres.{Driver, IsFaithful}
use saas_job_api.Postgres.Image.{lookup-image, image-IsUnique}
use saas_job_api.Postgres.Jobs.{JobRow, PostgresJobStore, row_to_record}
use saas_job_api.Postgres.Jobs.Queries.{
  is_open, limit_of, locked_rows, reserve_row, reserve_rows, claim,
}
use saas_job_api.Postgres.Jobs.Index.{IsFresh, violates_index-IsFresh}
use saas_job_api.Postgres.Jobs.View.{view}

module _ (gateway_id : String) (until : ℕ) where
  lookup-reserve_rows :
      (token : ℕ → String) (k : String) (rows : Dict String JobRow) {row : JobRow}
      → lookup k rows ≡ some row
      → (i : ℕ) × (lookup k (reserve_rows gateway_id until token rows)
          ≡ some (reserve_row gateway_id until (token i) row))
  unfolding lookup reserve_rows
  lookup-reserve_rows token k [] h = cc
  lookup-reserve_rows token k ((c, x) ∷ rows) {row} h = elim (Bool-cases (c == k)) [
    | inl hit ↦ (0, ground arith)
    | inr miss ↦
        let (i, e) = lookup-reserve_rows (λ n. token (suc n)) k rows {row = row} (rw miss at h) in
        (suc i, ground arith)
  ]

  lookup-reserve_rows-none :
      (token : ℕ → String) (k : String) (rows : Dict String JobRow)
      → lookup k rows ≡ none
      → lookup k (reserve_rows gateway_id until token rows) ≡ none
  unfolding lookup reserve_rows
  lookup-reserve_rows-none token k [] h = refl
  lookup-reserve_rows-none token k ((c, x) ∷ rows) h =
      ground (arith, lookup-reserve_rows-none (λ n. token (suc n)) k rows)

  reserve_rows-IsUnique :
      (token : ℕ → String) (rows : Dict String JobRow)
      → IsUnique rows
      → IsUnique (reserve_rows gateway_id until token rows)
  unfolding reserve_rows
  reserve_rows-IsUnique token [] u = tt
  reserve_rows-IsUnique token ((c, x) ∷ rows) u = (
    lookup-reserve_rows-none (λ n. token (suc n)) c rows u.0,
    reserve_rows-IsUnique (λ n. token (suc n)) rows u.1,
  )

unsupported :
    (t : ℕ) (r : ClaimRequest) (row : JobRow)
    → allows r.job_types row.job_type ≡ false
    → is_claimable (aware t) r.job_types r.manifest_versions (row_to_record row) ≡ ok false
unfolding is_claimable row_to_record is_eligible is_by
unsupported t r row h = ground arith

-- A claim of PostgresJobStore takes jobs of types that the gateway does not support, where the
-- memory store leaves them alone. If the job ids are distinct, the claim's limit is n and the
-- query locks fewer than n rows, then a row that is free or whose reservation has ended is
-- reserved for the gateway although its job type is not among the types of the request; the
-- memory store keeps the job as it is. The driver stores an aware datetime as its instant, and the
-- tokens that are drawn differ from each other and from those in the table.
pub claim_takes_unsupported :
    (driver : Driver) (t n : ℕ) (token : ℕ → String) (r : ClaimRequest) (s : PostgresJobStore)
    (k : String) (row : JobRow) (rows : Dict String JobRow)
    → IsFaithful driver
    → IsUnique s.jobs
    → IsFresh token s.jobs
    → limit_of r.max_jobs r.dispatch_slots ≡ pos n
    → locked_rows driver t n s.jobs ≡ ok rows
    → length rows < n
    → lookup k s.jobs ≡ some row
    → is_open t row ≡ true
    → allows r.job_types row.job_type ≡ false
    → ((i : ℕ) × (lookup k (claim driver (aware t) token r s).1.jobs
          ≡ some (reserve_row r.gateway_id (t + s.reservation_ttl_seconds) (token i) row)))
      × (lookup k (Claim.claim (aware t) token r (view s)).1.jobs ≡ some (row_to_record row))
unfolding locked_rows claim
claim_takes_unsupported driver t n token r s k row rows faithful u fresh limit locked short e free
      other =
    let until = t + s.reservation_ttl_seconds in
    let changed = reserve_rows r.gateway_id until token rows in
    let valid = violates_index-IsFresh r.gateway_id until token rows s.jobs fresh in
    let unique =
      reserve_rows-IsUnique r.gateway_id until token rows (select-IsUnique _ _ _ s.jobs u locked) in
    let taken = select_complete _ _ _ s.jobs u k row locked short e (ap ok free) in
    let (i, reserved) = lookup-reserve_rows r.gateway_id until token k rows taken in
    (
      (
        i,
        rw (limit, faithful.instant_aware t, locked, faithful.instant_aware until, valid)
            (lookup-put_all changed s.jobs unique k ∙ rw reserved refl),
      ),
      claim_keeps (aware t) token r (view s) (unfold view in image-IsUnique row_to_record s.jobs u)
          k (row_to_record row)
          (unfold view in lookup-image row_to_record k s.jobs ∙ ap (Option.map row_to_record) e)
          (unsupported t r row other),
    )
