-- ===== src/Jobs/Receipts/Checks.antt =====
-- Which receipts `acknowledge` accepts, and which jobs `mark_completed` completes.
use saas_job_api.Prelude.{
  String, ◌≡◌, ◌⊎◌, inl, inr, Bool, true, false, some, arith, contains, string_eq, pair_eq,
  option_beq_iff, Bool-cases,
}
use saas_job_api.Result.{ok}
use saas_job_api.Jobs.{JobRecord, is_completed, completed}
use saas_job_api.Jobs.Receipts.{Receipt, check_receipt, acknowledge_record, complete_record}

pub check_receipt_inv :
    (r : Receipt) (j : JobRecord) {changed : Bool} {j' : JobRecord}
    → check_receipt r j ≡ ok (changed, j')
    → ((changed ≡ false)
        × (j' ≡ j)
        × (contains (r.job_id, r.receipt_token) j.acknowledged_receipts ≡ true))
      ⊎ ((changed ≡ true)
          × (j' ≡ acknowledge_record r j)
          × (contains (r.job_id, r.receipt_token) j.acknowledged_receipts ≡ false)
          × (j.receipt_token ≡ some r.receipt_token)
          × (j.reserved_by ≡ some r.gateway_id))
unfolding check_receipt
check_receipt_inv r j h =
    elim (Bool-cases (contains (r.job_id, r.receipt_token) j.acknowledged_receipts)) [
      | inl known ↦ inl (cc (rw known at h), cc (rw known at h), known)
      | inr fresh ↦ inr (
          ground (
            arith,
            option_beq_iff j.receipt_token (some r.receipt_token),
            option_beq_iff j.reserved_by (some r.gateway_id),
          ))
    ]

pub complete_record_inv :
    (gateway_id : String) (j : JobRecord) {j' : JobRecord}
    → complete_record gateway_id j ≡ ok j'
    → ((is_completed j.state ≡ true) × (j' ≡ j))
      ⊎ ((j.ack_gateway_id ≡ some gateway_id) × (j' ≡ record j { state = completed }))
unfolding complete_record
complete_record_inv gateway_id j h =
    ground (arith, option_beq_iff j.ack_gateway_id (some gateway_id))
