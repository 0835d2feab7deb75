-- ===== src/Postgres/Jobs/View/Rows.antt =====
-- The rows that the updates leave, as records.
use mathlib.Core.Path.{ap}
use saas_job_api.Prelude.{
  ℕ, String, ◌≡◌, refl, none, List, [], ◌∷◌, ◌++◌, arith, string_eq, pair_eq,
}
use saas_job_api.Result.{ok}
use saas_job_api.Time.{DateTime, aware, is_before, elapsed_ge, is_by}
use saas_job_api.Dict.{add}
use saas_job_api.Jobs.{NewJob, new_job, is_eligible}
use saas_job_api.Jobs.Claim.{is_claimable, job_lt, reserve}
use saas_job_api.Jobs.Receipts.{Receipt, acknowledge_record}
use saas_job_api.Jobs.Reissue.{reset_job, is_orphaned}
use saas_job_api.Postgres.{Driver, IsFaithful}
use saas_job_api.Postgres.Jobs.{JobRow, inserted, set_of, row_to_record}
use saas_job_api.Postgres.Jobs.Queries.{is_open, row_lt, reserve_row}
use saas_job_api.Postgres.Jobs.Updates.{acknowledge_row, release, is_lost}
use saas_job_api.Postgres.Jobs.View.{IsAware}

set_of-append :
    (p : String × String) (xs seen : List (String × String))
    → set_of seen (xs ++ (p ∷ [])) ≡ add p (set_of seen xs)
unfolding set_of
set_of-append p [] seen = refl
set_of-append p (x ∷ xs) seen = set_of-append p xs (add x seen)

-- A row that has just been reserved, as a record.
pub reserve_row-record :
    (gateway_id token : String) (until : ℕ) (row : JobRow)
    → row_to_record (reserve_row gateway_id until token row)
      ≡ reserve gateway_id (aware until) token (row_to_record row)
unfolding row_to_record reserve_row reserve
reserve_row-record gateway_id token until row = refl

pub release-record : (row : JobRow) → row_to_record (release row) ≡ reset_job (row_to_record row)
unfolding row_to_record release reset_job
release-record row = refl

module _ (driver : Driver) (faithful : IsFaithful driver) where
  pub instant-IsAware : (t : DateTime) → IsAware t → aware (driver.instant t) ≡ t
  instant-IsAware t (u, e) = rw e (ap aware (faithful.instant_aware u))

  pub inserted-record :
      (n : NewJob) (created_at : DateTime)
      → IsAware n.scheduled_at
      → row_to_record (inserted driver created_at (new_job n)) ≡ new_job n
  unfolding row_to_record inserted new_job set_of
  inserted-record n created_at h = rw (instant-IsAware n.scheduled_at h) refl

  pub acknowledge_row-record :
      (r : Receipt) (row : JobRow)
      → IsAware r.received_at
      → row_to_record (acknowledge_row driver r row) ≡ acknowledge_record r (row_to_record row)
  unfolding row_to_record acknowledge_row acknowledge_record
  acknowledge_row-record r row h =
      rw
        (
          instant-IsAware r.received_at h,
          set_of-append (r.job_id, r.receipt_token) row.acknowledged_receipts [],
        )
        refl

  -- The order of the query is that of the sort key.
  pub row_lt-record :
      (a b : JobRow) → job_lt (row_to_record a) (row_to_record b) ≡ ok (row_lt driver a b)
  unfolding row_to_record job_lt row_lt is_before
  row_lt-record a b = rw (faithful.collate_text a.job_id b.job_id) (ground arith)

-- The WHERE clause is the test of the memory store.
pub is_open-record :
    (t : ℕ) (row : JobRow)
    → is_claimable (aware t) none none (row_to_record row) ≡ ok (is_open t row)
unfolding row_to_record is_claimable is_eligible is_open is_by
is_open-record t row = ground arith

pub is_lost-record :
    (t : ℕ) (unreachable : List String) (sla : ℕ) (row : JobRow)
    → is_orphaned (aware t) unreachable sla (row_to_record row) ≡ ok (is_lost t unreachable sla row)
unfolding row_to_record is_orphaned is_lost elapsed_ge
is_lost-record t unreachable sla row = ground arith
