-- ===== src/Postgres/Jobs/View/Steps.antt =====
-- The operations of `PostgresJobStore` agree with those of `MemoryJobStore`.
use mathlib.Core.Path.{ap, ◌∙◌, sym}
use mathlib.Core.Option
use saas_job_api.Prelude.{
  String, ◌≡◌, refl, inl, inr, true, false, Bool-cases, Option-cases, some, List, [], ◌∷◌, arith,
  string_eq, pair_eq, contains, option_beq, ◌&&◌, ◌||◌,
}
use saas_job_api.Result.{ok, map_ok, Result-cases}
use saas_job_api.Exec.{Exec}
use saas_job_api.Time.{DateTime}
use saas_job_api.Dict.{put, lookup, add}
use saas_job_api.Dict.Laws.{put_same, contains-add}
use saas_job_api.Jobs.{NewJob, JobRecord, new_job, is_acknowledged}
use saas_job_api.Jobs.Store.{MemoryJobStore, seed}
use saas_job_api.Jobs.Receipts.{
  Receipt, acknowledge, acknowledge_record, check_receipt, mark_completed, complete_record,
}
use saas_job_api.Jobs.Reissue.{reissue_one, interrupt, reset_job}
use saas_job_api.Postgres.{Driver, IsFaithful}
use saas_job_api.Postgres.Image.{lookup-image, image-put}
use saas_job_api.Postgres.Jobs.{JobRow, PostgresJobStore, row_to_record, inserted, set_of}
use saas_job_api.Postgres.Jobs.Queries as Queries
use saas_job_api.Postgres.Jobs.Updates as Updates
use saas_job_api.Postgres.Jobs.View.{view, IsAware}
use saas_job_api.Postgres.Jobs.View.Rows.{inserted-record, acknowledge_row-record}

-- From stores that are one the view of the other, the operations give the same answer, and leave
-- stores that are.
abbrev pub IsSimulated :
    {A : Type 0} → Exec PostgresJobStore A → Exec MemoryJobStore A → PostgresJobStore → Type 0
IsSimulated m n s = ((m s).0 ≡ (n (view s)).0) × (view (m s).1 ≡ (n (view s)).1)

-- A change of one row, in the view.
view-put :
    (k : String) (row : JobRow) (job : JobRecord) (s : PostgresJobStore)
    → row_to_record row ≡ job
    → view (record s { jobs = put k row s.jobs })
      ≡ record (view s) { jobs = put k job (view s).jobs }
unfolding view
view-put k row job s same =
    ap (λ jobs. record (view s) { jobs = jobs })
      (rw (← same) (image-put row_to_record k row s.jobs))

lookup-view :
    (k : String) (s : PostgresJobStore)
    → lookup k (view s).jobs ≡ Option.map row_to_record (lookup k s.jobs)
unfolding view
lookup-view k s = lookup-image row_to_record k s.jobs

contains-set_of :
    (p : String × String) (xs seen : List (String × String))
    → contains p (set_of seen xs) ≡ (contains p seen || contains p xs)
unfolding set_of contains
contains-set_of p [] seen = ground arith
contains-set_of p (x ∷ xs) seen =
    rw (contains-set_of p xs (add x seen), contains-add x p seen) (ground arith)

receipts-record :
    (p : String × String) (row : JobRow)
    → contains p (row_to_record row).acknowledged_receipts ≡ contains p row.acknowledged_receipts
unfolding row_to_record contains
receipts-record p row = contains-set_of p row.acknowledged_receipts []

module _ (driver : Driver) (faithful : IsFaithful driver) where
  pub seed-view :
      (n : NewJob) (created_at : DateTime) (s : PostgresJobStore)
      → IsAware n.scheduled_at
      → view (Queries.seed driver created_at (new_job n) s).1 ≡ (seed (new_job n) (view s)).1
  unfolding Queries.seed seed new_job
  seed-view n created_at s h = elim (Option-cases (lookup n.job_id s.jobs)) [
    | inr (row, e) ↦ rw (lookup-view n.job_id s, e) refl
    | inl e ↦
        rw (lookup-view n.job_id s, e)
          (view-put n.job_id (inserted driver created_at (new_job n)) (new_job n) s
            (inserted-record driver faithful n created_at h))
  ]

  check_row-record :
      (r : Receipt) (row : JobRow)
      → IsAware r.received_at
      → check_receipt r (row_to_record row)
        ≡ map_ok (λ checked. (checked.0, row_to_record checked.1)) (Updates.check_row driver r row)
  unfolding check_receipt Updates.check_row row_to_record
  check_row-record r row h =
      let pair : String × String = (r.job_id, r.receipt_token) in
      let seen = receipts-record pair row in
      elim (Bool-cases (contains pair row.acknowledged_receipts)) [
        | inl known ↦ rw (seen, known) refl
        | inr fresh ↦ elim (Bool-cases (option_beq row.receipt_token (some r.receipt_token))) [
          | inr stale ↦ rw (seen, fresh, stale) refl
          | inl current ↦ elim (Bool-cases (option_beq row.reserved_by (some r.gateway_id))) [
            | inr other ↦ rw (seen, fresh, current, other) refl
            | inl own ↦
                rw
                  (
                    seen,
                    fresh,
                    current,
                    own,
                    acknowledge_row-record driver faithful r row h,
                    acknowledge_record,
                    seen,
                    fresh,
                  )
                  refl
          ]
        ]
      ]

  pub acknowledge-view :
      (r : Receipt) (s : PostgresJobStore)
      → IsAware r.received_at
      → IsSimulated (Updates.acknowledge driver r) (acknowledge r) s
  unfolding Updates.acknowledge acknowledge
  acknowledge-view r s h = elim (Option-cases (lookup r.job_id s.jobs)) [
    | inl e ↦ rw (lookup-view r.job_id s, e) (refl, refl)
    | inr (row, e) ↦ elim (Result-cases (Updates.check_row driver r row)) [
      | inr (x, c) ↦ rw (lookup-view r.job_id s, e, check_row-record r row h, c) (refl, refl)
      | inl ((false, new), c) ↦
          rw (lookup-view r.job_id s, e, check_row-record r row h, c) (refl, refl)
      | inl ((true, new), c) ↦
          rw (lookup-view r.job_id s, e, check_row-record r row h, c)
            (refl, view-put r.job_id new (row_to_record new) s refl)
    ]
  ]

-- Storing a record that is stored changes nothing.
unchanged :
    (k : String) (row : JobRow) (s : PostgresJobStore)
    → lookup k s.jobs ≡ some row
    → view s ≡ record (view s) { jobs = put k (row_to_record row) (view s).jobs }
unchanged k row s e =
    ap (λ jobs. record (view s) { jobs = jobs })
      (sym (
        put_same k (row_to_record row) (view s).jobs
          (lookup-view k s ∙ ap (Option.map row_to_record) e)))

complete_row-record :
    (gateway_id : String) (row : JobRow)
    → complete_record gateway_id (row_to_record row)
      ≡ map_ok (λ checked. row_to_record checked.1) (Updates.complete_row gateway_id row)
unfolding complete_record Updates.complete_row row_to_record
complete_row-record gateway_id row = ground arith

complete_row-false :
    (gateway_id : String) (row new : JobRow)
    → Updates.complete_row gateway_id row ≡ ok (false, new)
    → new ≡ row
unfolding Updates.complete_row
complete_row-false gateway_id row new h = ground arith

pub mark_completed-view :
    (job_id gateway_id : String) (s : PostgresJobStore)
    → IsSimulated (Updates.mark_completed job_id gateway_id) (mark_completed job_id gateway_id) s
unfolding Updates.mark_completed mark_completed
mark_completed-view job_id gateway_id s = elim (Option-cases (lookup job_id s.jobs)) [
  | inl e ↦ rw (lookup-view job_id s, e) (refl, refl)
  | inr (row, e) ↦ elim (Result-cases (Updates.complete_row gateway_id row)) [
    | inr (x, c) ↦ rw (lookup-view job_id s, e, complete_row-record gateway_id row, c) (refl, refl)
    | inl ((true, new), c) ↦
        rw (lookup-view job_id s, e, complete_row-record gateway_id row, c)
          (refl, view-put job_id new (row_to_record new) s refl)
    | inl ((false, new), c) ↦
        rw (lookup-view job_id s, e, complete_row-record gateway_id row, c)
          (
            refl,
            unchanged job_id new s (rw e (ap some (sym (complete_row-false gateway_id row new c)))),
          )
  ]
]

pub reissue_one-view :
    (job_id gateway_id attempt_token : String) (s : PostgresJobStore)
    → IsSimulated
        (Updates.reissue_one job_id gateway_id attempt_token)
        (reissue_one job_id gateway_id attempt_token)
        s
unfolding Updates.reissue_one reissue_one Updates.interrupt_row interrupt view row_to_record
    Updates.release reset_job
reissue_one-view job_id gateway_id attempt_token s =
    let attempt : String × (String × String) = (job_id, (gateway_id, attempt_token)) in
    let found = lookup-view job_id s in
    elim (Bool-cases (contains attempt (view s).interrupted_attempts)) [
      | inl old ↦ elim (Option-cases (lookup job_id s.jobs)) [
        | inl e ↦ rw (e, old) (refl, refl)
        | inr (row, e) ↦
            elim (Bool-cases
              (is_acknowledged row.state && option_beq row.ack_gateway_id (some gateway_id))) [
                | inl own ↦ rw (e, old, own) (refl, refl)
                | inr other ↦ rw (e, old, other) (refl, refl)
              ]
      ]
      | inr fresh ↦ elim (Option-cases (lookup job_id s.jobs)) [
        | inl e ↦ rw (fresh, found, e) (refl, refl)
        | inr (row, e) ↦
            elim (Bool-cases
              (is_acknowledged row.state && option_beq row.ack_gateway_id (some gateway_id))) [
                | inl own ↦
                    rw (fresh, found, e, own, fresh)
                      (
                        refl,
                        ap
                            (λ jobs. record (view s) {
                              jobs = jobs;
                              interrupted_attempts = attempt ∷ s.job_interruption_receipts;
                            })
                            (image-put row_to_record job_id (Updates.release row) s.jobs),
                      )
                | inr other ↦ rw (fresh, found, e, other) (refl, refl)
              ]
      ]
    ]
