-- ===== src/Postgres/Inventory/Races.antt =====
-- Submissions of one result at the same time (`submit_result` of
-- src/saas_job_api/inventory_store_postgres.py).
use mathlib.Core.Path.{ap, sym, ◌∙◌}
use saas_job_api.Prelude.{
  ℕ, String, ◌≡◌, refl, inl, inr, none, some, List, [], ◌∷◌, string_eq, pair_eq, length,
  Option-cases, beq_refl,
}
use saas_job_api.Result.{Result, ok, err, database_error, Result-cases}
use saas_job_api.Dict.{lookup}
use saas_job_api.Dict.Laws.{lookup-put}
use saas_job_api.Inventory.{CertificateRecord, SubmitResultOutcome, Submission, build}
use saas_job_api.Inventory.Laws.{build_records}
use saas_job_api.Postgres.{Driver}
use saas_job_api.Postgres.Inventory.{
  PostgresInventoryStore, ResultRow, duplicate, accepted_new, insert_records, insert_result,
  submit_result, marker_row, marked,
}
use saas_job_api.Postgres.Configs.{transaction}

-- A submission that loses the race fails instead of being taken as a duplicate. If it finds no
-- marker of the attempt, and another transaction commits one before its INSERT, then its answer is
-- the database's refusal, and it adds nothing to what the other has left.
lost_race_fails :
    (driver : Driver) (new_id : ℕ → String) (r : Submission)
    (others : PostgresInventoryStore → PostgresInventoryStore) (s : PostgresInventoryStore)
    (row : ResultRow)
    → lookup (r.job_id, r.attempt_token) s.job_results ≡ none
    → lookup (r.job_id, r.attempt_token) (others s).job_results ≡ some row
    → submit_result driver new_id r others s ≡ (err database_error, others s)
unfolding submit_result insert_result
lost_race_fails driver new_id r others s row free lost = rw (free, lost) refl

insert_records-markers :
    (driver : Driver) (cs : List CertificateRecord) (s : PostgresInventoryStore)
    → (insert_records driver cs s).1.job_results ≡ s.job_results
unfolding insert_records
insert_records-markers driver [] s = refl
insert_records-markers driver (c ∷ cs) s =
    elim (Option-cases (lookup c.record_id s.certificate_records)) [
      | inr (row, taken) ↦ rw taken refl
      | inl free ↦ rw free (insert_records-markers driver cs _)
    ]

length-count :
    (new_id : ℕ → String) (r : Submission) (outcome : SubmitResultOutcome)
    → ◌≡◌ {A = Result SubmitResultOutcome}
        (ok (accepted_new (build new_id r r.certificates)))
        (ok outcome)
    → length r.certificates ≡ outcome.record_count
length-count new_id r outcome e =
    let same : accepted_new (build new_id r r.certificates) ≡ outcome = cc in
    sym (build_records new_id r r.certificates).0 ∙ ap (λ o. o.record_count) same

-- What the transaction leaves in its tables, if it returns: the marker with the number of the
-- certificates.
insert_result-marker :
    (driver : Driver) (new_id : ℕ → String) (r : Submission) (s : PostgresInventoryStore)
    (outcome : SubmitResultOutcome)
    → (transaction (insert_result driver new_id r) s).0 ≡ ok outcome
    → (row : ResultRow) × (lookup
          (r.job_id, r.attempt_token)
          (transaction (insert_result driver new_id r) s).1.job_results
        ≡ some row)
      × (row.record_count ≡ outcome.record_count)
unfolding insert_result
insert_result-marker driver new_id r s outcome returned =
    elim (Option-cases (lookup (r.job_id, r.attempt_token) s.job_results)) [
      | inr (row, taken) ↦ cc (rw taken at returned)
      | inl free ↦
          let built = build new_id r r.certificates in
          elim (Result-cases (insert_records driver built (marked driver r s)).0) [
            | inr (e, failed) ↦ cc (rw (free, failed) at returned)
            | inl (done, inserted) ↦ (
              marker_row driver r,
              rw (free, inserted, insert_records-markers driver built (marked driver r s))
                  (lookup-put (r.job_id, r.attempt_token) (r.job_id, r.attempt_token)
                      (marker_row driver r) s.job_results
                    ∙ rw (beq_refl {A = String × String} (r.job_id, r.attempt_token)) refl),
              length-count new_id r outcome (rw (free, inserted) at returned),
            )
          ]
    ]

-- A submission that returned is not done again. If a submission of an attempt has returned, with
-- whatever other transactions committed between its SELECT and its INSERT, then a later
-- submission of the same attempt, with any content and ids, is accepted as a duplicate with the
-- count of the first and changes nothing.
pub resubmission_is_duplicate :
    (driver : Driver) (new_id new_id' : ℕ → String) (r r' : Submission)
    (others others' : PostgresInventoryStore → PostgresInventoryStore) (s : PostgresInventoryStore)
    (outcome : SubmitResultOutcome)
    → (submit_result driver new_id r others s).0 ≡ ok outcome
    → r'.job_id ≡ r.job_id
    → r'.attempt_token ≡ r.attempt_token
    → submit_result driver new_id' r' others' (submit_result driver new_id r others s).1
      ≡ (ok (duplicate outcome.record_count), (submit_result driver new_id r others s).1)
unfolding submit_result
resubmission_is_duplicate driver new_id new_id' r r' others others' s outcome returned job token =
    elim (Option-cases (lookup (r.job_id, r.attempt_token) s.job_results)) [
      | inr (row, found) ↦
          let same : duplicate row.record_count ≡ outcome = cc (rw found at returned) in
          rw (job, token, found, found) (ap (λ o. (ok (duplicate o.record_count), s)) same)
      | inl free ↦
          let (row, found, count) =
            insert_result-marker driver new_id r (others s) outcome (rw free at returned) in
          rw (job, token, free, found, count) refl
    ]

-- Of two submissions of one attempt that both find no marker, one is lost. If r' runs as a whole
-- and returns between the SELECT and the INSERT of r, then r is answered with the database's
-- refusal and adds nothing to what r' has left, and only a second try of r is accepted as a
-- duplicate, with the count of r'.
pub racing_submission_fails :
    (driver : Driver) (new_id new_id' : ℕ → String) (r r' : Submission) (s : PostgresInventoryStore)
    (outcome : SubmitResultOutcome)
    → lookup (r.job_id, r.attempt_token) s.job_results ≡ none
    → (submit_result driver new_id' r' (λ x. x) s).0 ≡ ok outcome
    → r.job_id ≡ r'.job_id
    → r.attempt_token ≡ r'.attempt_token
    → let won = (submit_result driver new_id' r' (λ x. x) s).1 in
      (submit_result driver new_id r (λ x. (submit_result driver new_id' r' (λ y. y) x).1) s
        ≡ (err database_error, won))
      × (submit_result driver new_id r (λ x. x) won ≡ (ok (duplicate outcome.record_count), won))
racing_submission_fails driver new_id new_id' r r' s outcome free returned job token =
    let won = (submit_result driver new_id' r' (λ x. x) s).1 in
    let free' : lookup (r'.job_id, r'.attempt_token) s.job_results ≡ none =
      rw (← job, ← token) free in
    let (row, found, _) =
      insert_result-marker driver new_id' r' s outcome
        (unfold submit_result in rw free' at returned) in
    let marker : lookup (r.job_id, r.attempt_token) won.job_results ≡ some row =
      unfold submit_result in rw (job, token, free') found in
    (
      lost_race_fails driver new_id r (λ x. (submit_result driver new_id' r' (λ y. y) x).1) s row
          free marker,
      resubmission_is_duplicate driver new_id' new_id r' r (λ x. x) (λ x. x) s outcome returned job
          token,
    )
