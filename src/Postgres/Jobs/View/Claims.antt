-- ===== src/Postgres/Jobs/View/Claims.antt =====
-- A claim of `PostgresJobStore`, seen in the memory store.
use mathlib.Core.Path.{ap}
use saas_job_api.Prelude.{
  ℕ, suc, ◌+◌, String, ◌≡◌, refl, inl, inr, Option, none, some, [], ◌∷◌, string_eq,
}
use saas_job_api.Prelude.Int.{ℤ, pos, pos_part, min_ℤ}
use saas_job_api.Result.{ok, err, map_ok, Result-cases}
use saas_job_api.Time.{aware}
use saas_job_api.Dict.{Dict, values}
use saas_job_api.Jobs.Claim.{ClaimRequest, choose, claim_limit, claim, reserve, reserve_each}
use saas_job_api.Postgres.{Driver, IsFaithful}
use saas_job_api.Postgres.Image.{image, values-image, image-put_all, image-select}
use saas_job_api.Postgres.Jobs.{JobRow, PostgresJobStore, row_to_record}
use saas_job_api.Postgres.Jobs.Queries.{limit_of, locked_rows, reserve_rows, is_open, row_lt}
use saas_job_api.Postgres.Jobs.Queries as Queries
use saas_job_api.Postgres.Jobs.Index.{IsFresh, violates_index-IsFresh}
use saas_job_api.Postgres.Jobs.View.{view, IsReordered, IsOpenClaim}
use saas_job_api.Postgres.Jobs.View.Rows.{is_open-record, row_lt-record, reserve_row-record}

reserve_rows-records :
    (gateway_id : String) (until : ℕ) (token : ℕ → String) (rows : Dict String JobRow)
    → image row_to_record (reserve_rows gateway_id until token rows)
      ≡ reserve_each gateway_id (aware until) token (image row_to_record rows)
unfolding image reserve_rows reserve_each
reserve_rows-records gateway_id until token [] = refl
reserve_rows-records gateway_id until token ((k, row) ∷ rows) =
    rw (reserve_row-record gateway_id (token 0) until row) (
      ap (λ r. (k, reserve gateway_id (aware until) (token 0) (row_to_record row)) ∷ r)
        (reserve_rows-records gateway_id until (λ i. token (suc i)) rows))

limit_of-claim_limit :
    (max_jobs : ℤ) (slots : Option ℤ) (n : ℕ)
    → limit_of max_jobs slots ≡ pos n
    → claim_limit max_jobs slots ≡ n
unfolding claim_limit min_ℤ limit_of
limit_of-claim_limit max_jobs none n h = ap pos_part h
limit_of-claim_limit max_jobs (some slots) n h = ap pos_part h

module _ (driver : Driver) (faithful : IsFaithful driver) (t : ℕ) (token : ℕ → String)
    (r : ClaimRequest) (s : PostgresJobStore) (common : IsOpenClaim r)
    (fresh : IsFresh token s.jobs) where
  -- The rows that the query locks are those that the memory store chooses.
  locked_rows-choose :
      choose (aware t) r (image row_to_record s.jobs)
      ≡ map_ok (image row_to_record) (locked_rows driver t common.2.0 s.jobs)
  unfolding choose locked_rows
  locked_rows-choose =
      rw
        (common.0, common.1, limit_of-claim_limit r.max_jobs r.dispatch_slots common.2.0 common.2.1)
        (image-select row_to_record _ _ _ _ common.2.0 (is_open-record t)
          (row_lt-record driver faithful) s.jobs)

  -- At an aware time, a claim that names no job types, no manifest versions and no negative
  -- limit answers in PostgresJobStore the same records as in the memory store that the tables
  -- stand for, in the order in which the database gives their rows, and leaves tables that stand
  -- for the memory store that it leaves there. The driver stores an aware datetime as its
  -- instant and the database orders texts by code points. The tokens that are drawn differ from
  -- each other and from those in the table.
  pub claim-view :
      IsReordered driver
        (Queries.claim driver (aware t) token r s).0
        (claim (aware t) token r (view s)).0
      × (view (Queries.claim driver (aware t) token r s).1 ≡ (claim (aware t) token r (view s)).1)
  unfolding Queries.claim claim view
  claim-view = elim (Result-cases (locked_rows driver t common.2.0 s.jobs)) [
    | inr (e, c) ↦
        rw (common.2.1, faithful.instant_aware t, locked_rows-choose, c) ((err e, refl, refl), refl)
    | inl (rows, c) ↦
        let until = t + s.reservation_ttl_seconds in
        let changed = reserve_rows r.gateway_id until token rows in
        let valid = violates_index-IsFresh r.gateway_id until token rows s.jobs fresh in
        let records = reserve_rows-records r.gateway_id until token rows in
        rw
          (
            common.2.1,
            faithful.instant_aware t,
            locked_rows-choose,
            c,
            faithful.instant_aware until,
            valid,
          )
          (rw (← records) (
            (ok (values changed), refl, ap ok (values-image row_to_record changed)),
            ap (λ jobs. record (view s) { jobs = jobs })
                (image-put_all row_to_record changed s.jobs),
          ))
  ]
