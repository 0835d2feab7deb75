-- ===== src/Postgres/Jobs/View/Orphans.antt =====
-- `reissue_orphaned` of `PostgresJobStore` agrees with that of `MemoryJobStore`.
use mathlib.Core.Path.{ap, ◌∙◌}
use saas_job_api.Prelude.{
  ℕ, String, ◌≡◌, refl, inl, inr, true, false, Bool-cases, List, [], ◌∷◌, arith, string_eq, pair_eq,
  map, contains,
}
use saas_job_api.Result.{ok, map_ok}
use saas_job_api.Time.{DateTime, aware}
use saas_job_api.Dict.{Dict}
use saas_job_api.Jobs.{JobRecord}
use saas_job_api.Jobs.Reissue.{reissue_orphaned, reset_orphans, reset_job, is_orphaned}
use saas_job_api.Postgres.{Driver, IsFaithful}
use saas_job_api.Postgres.Image.{image}
use saas_job_api.Postgres.Jobs.{JobRow, PostgresJobStore, row_to_record}
use saas_job_api.Postgres.Jobs.Updates as Updates
use saas_job_api.Postgres.Jobs.View.{view}
use saas_job_api.Postgres.Jobs.View.Rows.{release-record, is_lost-record}

module _ (now : DateTime) (unreachable : List String) (sla : ℕ) (k : String) (job : JobRecord)
    (d : Dict String JobRecord) where
  reset_orphans-lost :
      is_orphaned now unreachable sla job ≡ ok true
      → reset_orphans now unreachable sla ((k, job) ∷ d) ≡ (
        map_ok (λ reissued. reset_job job ∷ reissued) (reset_orphans now unreachable sla d).0,
        (k, reset_job job) ∷ (reset_orphans now unreachable sla d).1,
      )
  unfolding reset_orphans
  reset_orphans-lost h = rw (h, reset_orphans) refl

  reset_orphans-kept :
      is_orphaned now unreachable sla job ≡ ok false
      → reset_orphans now unreachable sla ((k, job) ∷ d) ≡ (
        (reset_orphans now unreachable sla d).0,
        (k, job) ∷ (reset_orphans now unreachable sla d).1,
      )
  unfolding reset_orphans
  reset_orphans-kept h = rw (h, reset_orphans) refl

released-records :
    (t : ℕ) (unreachable : List String) (sla : ℕ) (d : Dict String JobRow)
    → reset_orphans (aware t) unreachable sla (image row_to_record d) ≡ (
      ok (map row_to_record (Updates.released t unreachable sla d).0),
      image row_to_record (Updates.released t unreachable sla d).1,
    )
unfolding image Updates.released
released-records t unreachable sla [] = unfold reset_orphans in refl
released-records t unreachable sla ((k, row) ∷ d) =
    let at = is_lost-record t unreachable sla row in
    let job = row_to_record row in
    let rest = image row_to_record d in
    elim (Bool-cases (Updates.is_lost t unreachable sla row)) [
      | inl lost ↦
          rw
            (
              reset_orphans-lost (aware t) unreachable sla k job rest (at ∙ ap ok lost),
              released-records t unreachable sla d,
              lost,
              ← release-record row,
            )
            refl
      | inr kept ↦
          rw
            (
              reset_orphans-kept (aware t) unreachable sla k job rest (at ∙ ap ok kept),
              released-records t unreachable sla d,
              kept,
            )
            refl
    ]

-- No gateway is unreachable: no job is orphaned.
reset_orphans-empty :
    (t : ℕ) (sla : ℕ) (d : Dict String JobRow)
    → reset_orphans (aware t) [] sla (image row_to_record d) ≡ (ok [], image row_to_record d)
unfolding image
reset_orphans-empty t sla [] = unfold reset_orphans in refl
reset_orphans-empty t sla ((k, row) ∷ d) =
    let kept : is_orphaned (aware t) [] sla (row_to_record row) ≡ ok false =
      (is_lost-record t [] sla row ∙ ap ok (unfold Updates.is_lost contains in ground arith)) in
    rw
      (
        reset_orphans-kept (aware t) [] sla k (row_to_record row) (image row_to_record d) kept,
        reset_orphans-empty t sla d,
      )
      refl

module _ (driver : Driver) (faithful : IsFaithful driver) where
  pub reissue_orphaned-view :
      (t : ℕ) (unreachable : List String) (sla : ℕ) (s : PostgresJobStore)
      → view (Updates.reissue_orphaned driver (aware t) unreachable sla s).1
        ≡ (reissue_orphaned (aware t) unreachable sla (view s)).1
  unfolding Updates.reissue_orphaned reissue_orphaned view
  reissue_orphaned-view t [] sla s = rw (reset_orphans-empty t sla s.jobs) refl
  reissue_orphaned-view t (g ∷ ids) sla s =
      rw (faithful.instant_aware t, released-records t (g ∷ ids) sla s.jobs) refl
