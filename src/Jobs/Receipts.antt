-- ===== src/Jobs/Receipts.antt =====
-- `MemoryJobStore.acknowledge` and `mark_completed` (src/saas_job_api/store_memory.py).
pub mod Checks
pub mod Laws
use Prim.Native.String.{◌++◌ as concat}
use saas_job_api.Prelude.{
  String, Bool, true, false, not, Option, some, string_eq, pair_eq, contains, option_beq,
  if◌then◌else◌,
}
use saas_job_api.Prelude.Int.{ℤ}
use saas_job_api.Result.{Result, ok, err, conflict, not_found}
use saas_job_api.Exec.{Exec, pure, lift, gets, require, modify, ◌>>=◌, ◌>>◌}
use saas_job_api.Time.{DateTime}
use saas_job_api.Dict.{lookup, put, add}
use saas_job_api.Jobs.{JobRecord, acknowledged, completed, is_completed}
use saas_job_api.Jobs.Store.{MemoryJobStore}

-- The arguments of `acknowledge`.
pub record Receipt : Type 0 where
  pub job_id : String
  pub gateway_id : String
  pub receipt_token : String
  pub received_at : DateTime
  pub payload_hash : Option String
  pub local_record_version : Option ℤ

unfoldable pub acknowledge_record : Receipt → JobRecord → JobRecord
unfolding add
acknowledge_record r job = record job {
  state = acknowledged;
  acknowledged_receipts = add (r.job_id, r.receipt_token) job.acknowledged_receipts;
  ack_gateway_id = some r.gateway_id;
  ack_received_at = some r.received_at;
  ack_payload_hash = r.payload_hash;
  ack_local_record_version = r.local_record_version;
}

-- The checks after the look-up, in their order: the job that is stored, or the refusal. The
-- first component tells whether the record changes.
unfoldable pub check_receipt : Receipt → JobRecord → Result (Bool × JobRecord)
unfolding contains acknowledge_record
check_receipt r job =
    if contains (r.job_id, r.receipt_token) job.acknowledged_receipts
    then ok (false, job)
    else if not (option_beq job.receipt_token (some r.receipt_token))
    then err (conflict "stale or invalid receipt token")
    else if not (option_beq job.reserved_by (some r.gateway_id))
    then err (conflict "gateway/job binding mismatch")
    else ok (true, acknowledge_record r job)

unfoldable pub acknowledge : Receipt → Exec MemoryJobStore JobRecord
acknowledge r = do
  found ← gets (λ s. lookup r.job_id s.jobs)
  job ← require (conflict "unknown job") found
  checked ← lift (check_receipt r job)
  if checked.0
      then (do modify (λ s. record s { jobs = put r.job_id checked.1 s.jobs }); pure checked.1)
      else pure checked.1

-- The checks of `mark_completed`, in their order.
unfoldable pub complete_record : String → JobRecord → Result JobRecord
complete_record gateway_id job =
    if is_completed job.state
    then ok job
    else if not (option_beq job.ack_gateway_id (some gateway_id))
    then err (conflict "gateway/job binding mismatch")
    else ok (record job { state = completed })

unfoldable pub mark_completed : (job_id gateway_id : String) → Exec MemoryJobStore JobRecord
mark_completed job_id gateway_id = do
  found ← gets (λ s. lookup job_id s.jobs)
  job ← require (not_found (concat "unknown job: " job_id)) found
  done ← lift (complete_record gateway_id job)
  modify (λ s. record s { jobs = put job_id done s.jobs })
  pure done
