-- ===== src/Postgres/Jobs/Updates.antt =====
-- `PostgresJobStore` (src/saas_job_api/store_postgres.py): acknowledging, reissuing and completing
-- jobs.
use Prim.Native.String.{◌++◌ as concat}
use saas_job_api.Prelude.{
  ℕ, ◌+◌, String, Bool, true, false, not, ◌&&◌, Option, none, some, List, [], ◌∷◌, ◌++◌, map,
  string_eq, pair_eq, contains, option_beq, leb, if◌then◌else◌,
}
use saas_job_api.Result.{Result, ok, err, conflict, not_found}
use saas_job_api.Exec.{Exec, pure, lift, gets, require, modify, ◌>>=◌, ◌>>◌}
use saas_job_api.Time.{DateTime}
use saas_job_api.Dict.{Dict, lookup, put}
use saas_job_api.Jobs.{JobRecord, available, acknowledged, completed, is_acknowledged, is_completed}
use saas_job_api.Jobs.Receipts.{Receipt}
use saas_job_api.Postgres.{Driver}
use saas_job_api.Postgres.Jobs.{JobRow, PostgresJobStore, row_to_record}

-- The UPDATE of `acknowledge`.
unfoldable pub acknowledge_row : Driver → Receipt → JobRow → JobRow
acknowledge_row driver r row = record row {
  state = acknowledged;
  ack_gateway_id = some r.gateway_id;
  ack_received_at = some (driver.instant r.received_at);
  ack_payload_hash = r.payload_hash;
  ack_local_record_version = r.local_record_version;
  acknowledged_receipts = row.acknowledged_receipts ++ ((r.job_id, r.receipt_token) ∷ []);
}

-- The checks on the row, in their order. The first component tells whether the row changes.
unfoldable pub check_row : Driver → Receipt → JobRow → Result (Bool × JobRow)
unfolding contains acknowledge_row
check_row driver r row =
    if contains (r.job_id, r.receipt_token) row.acknowledged_receipts
    then ok (false, row)
    else if not (option_beq row.receipt_token (some r.receipt_token))
    then err (conflict "stale or invalid receipt token")
    else if not (option_beq row.reserved_by (some r.gateway_id))
    then err (conflict "gateway/job binding mismatch")
    else ok (true, acknowledge_row driver r row)

unfoldable pub acknowledge : Driver → Receipt → Exec PostgresJobStore JobRecord
unfolding check_row row_to_record
acknowledge driver r = do
  found ← gets (λ s. lookup r.job_id s.jobs)
  row ← require (conflict "unknown job") found
  checked ← lift (check_row driver r row)
  if checked.0
      then (do
        modify (λ s. record s { jobs = put r.job_id checked.1 s.jobs })
        pure (row_to_record checked.1))
      else pure (row_to_record checked.1)

-- The UPDATE of both reissues.
unfoldable pub release : JobRow → JobRow
release row = record row {
  state = available;
  reserved_by = none;
  reservation_until = none;
  receipt_token = none;
  ack_gateway_id = none;
  ack_received_at = none;
  ack_payload_hash = none;
  ack_local_record_version = none;
}

-- `ack_gateway_id = ANY($1)` and `ack_received_at <= $2`, which are not true of NULL. The
-- threshold is `now - sla`; the sum on the other side says the same.
abbrev pub is_any : Option String → List String → Bool
is_any none ids = false
is_any (some g) ids = contains g ids

abbrev pub is_past : ℕ → ℕ → Option ℕ → Bool
is_past now sla none = false
is_past now sla (some at) = leb (at + sla) now

unfoldable pub is_lost : ℕ → List String → ℕ → JobRow → Bool
is_lost now unreachable sla row =
    is_acknowledged row.state
    && is_any row.ack_gateway_id unreachable
    && is_past now sla row.ack_received_at

-- The selected rows as they are updated, and the table after the UPDATE.
unfoldable pub released :
    ℕ → List String → ℕ → Dict String JobRow → List JobRow × Dict String JobRow
unfolding is_lost release
released now unreachable sla [] = ([], [])
released now unreachable sla ((k, row) ∷ d) =
    let rest = released now unreachable sla d in
    if is_lost now unreachable sla row
    then (release row ∷ rest.0, (k, release row) ∷ rest.1)
    else (rest.0, (k, row) ∷ rest.1)

unfoldable pub reissue_orphaned :
    Driver → DateTime → List String → ℕ → Exec PostgresJobStore (List JobRecord)
unfolding row_to_record
reissue_orphaned driver now [] sla s = (ok [], s)
reissue_orphaned driver now (g ∷ ids) sla s =
    let ran = released (driver.instant now) (g ∷ ids) sla s.jobs in
    (ok (map row_to_record (driver.unordered ran.0)), record s { jobs = ran.1 })

-- What follows the look-up: the INSERT that does nothing on a conflict, and the UPDATE.
unfoldable pub interrupt_row :
    (job_id gateway_id attempt_token : String)
    → Option JobRow
    → Exec PostgresJobStore (Option JobRecord)
unfolding contains release row_to_record
interrupt_row job_id gateway_id attempt_token none s = (ok none, s)
interrupt_row job_id gateway_id attempt_token (some row) s =
    if not (is_acknowledged row.state && option_beq row.ack_gateway_id (some gateway_id))
    then (ok none, s)
    else if contains (job_id, (gateway_id, attempt_token)) s.job_interruption_receipts
    then (ok none, s)
    else (
      ok (some (row_to_record (release row))),
      record s {
        jobs = put job_id (release row) s.jobs;
        job_interruption_receipts =
            (job_id, (gateway_id, attempt_token)) ∷ s.job_interruption_receipts;
      },
    )

unfoldable pub reissue_one :
    (job_id gateway_id attempt_token : String) → Exec PostgresJobStore (Option JobRecord)
unfolding interrupt_row
reissue_one job_id gateway_id attempt_token = do
  found ← gets (λ s. lookup job_id s.jobs)
  interrupt_row job_id gateway_id attempt_token found

-- The checks of `mark_completed`. The first component tells whether the row changes.
unfoldable pub complete_row : String → JobRow → Result (Bool × JobRow)
complete_row gateway_id row =
    if is_completed row.state
    then ok (false, row)
    else if not (option_beq row.ack_gateway_id (some gateway_id))
    then err (conflict "gateway/job binding mismatch")
    else ok (true, record row { state = completed })

unfoldable pub mark_completed : (job_id gateway_id : String) → Exec PostgresJobStore JobRecord
unfolding complete_row row_to_record
mark_completed job_id gateway_id = do
  found ← gets (λ s. lookup job_id s.jobs)
  row ← require (not_found (concat "unknown job: " job_id)) found
  checked ← lift (complete_row gateway_id row)
  if checked.0
      then (do
        modify (λ s. record s { jobs = put job_id checked.1 s.jobs })
        pure (row_to_record checked.1))
      else pure (row_to_record checked.1)
