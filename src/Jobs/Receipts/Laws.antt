-- ===== src/Jobs/Receipts/Laws.antt =====
-- Receipts and completions: what an acknowledgement records, its replay, and refusals.
use mathlib.Core.Path.{subst, ap}
use saas_job_api.Prelude.{
  String, ◌≡◌, ◌≢◌, ◌⊎◌, inl, inr, Bool, true, false, some, arith, contains, string_eq, pair_eq,
  option_beq, option_beq_iff, Bool-cases, Option-cases, beq_refl,
}
use saas_job_api.Result.{ok, err, conflict, Result-cases}
use saas_job_api.Dict.{lookup}
use saas_job_api.Dict.Laws.{lookup-put, put_same, contains-add}
use saas_job_api.Jobs.{JobRecord, completed}
use saas_job_api.Jobs.Store.{MemoryJobStore}
use saas_job_api.Jobs.Receipts.{
  Receipt, check_receipt, acknowledge_record, acknowledge, complete_record, mark_completed,
}
use saas_job_api.Jobs.Receipts.Checks.{check_receipt_inv}

-- The record that an acknowledgement returns has recorded its receipt.
recorded :
    (r : Receipt) (j : JobRecord) (changed : Bool) (j' : JobRecord)
    → check_receipt r j ≡ ok (changed, j')
    → contains (r.job_id, r.receipt_token) j'.acknowledged_receipts ≡ true
recorded r j changed j' h = elim (check_receipt_inv r j h) [
  | inl (_, e, known) ↦ rw e known
  | inr (_, e, _, _, _) ↦ rw e (unfold acknowledge_record in rw contains-add (rw beq_refl))
]

-- A recorded receipt is answered with the stored job, and changes nothing.
pub replay :
    (r : Receipt) (s : MemoryJobStore) (j : JobRecord)
    → lookup r.job_id s.jobs ≡ some j
    → contains (r.job_id, r.receipt_token) j.acknowledged_receipts ≡ true
    → acknowledge r s ≡ (ok j, s)
unfolding acknowledge check_receipt
replay r s j e h = rw (e, h)

pub acknowledge_stores :
    (r : Receipt) (s : MemoryJobStore) (j : JobRecord)
    → (acknowledge r s).0 ≡ ok j
    → (lookup r.job_id (acknowledge r s).1.jobs ≡ some j)
      × (contains (r.job_id, r.receipt_token) j.acknowledged_receipts ≡ true)
unfolding acknowledge
acknowledge_stores r s j h = elim (Option-cases (lookup r.job_id s.jobs)) [
  | inl e ↦ cc (rw e at h)
  | inr (i, e) ↦ elim (Result-cases (check_receipt r i)) [
    | inr (x, c) ↦ cc (rw (e, c) at h)
    | inl ((false, i'), c) ↦
        let same : i' ≡ j = cc (rw (e, c) at h) in
        elim (check_receipt_inv r i c) [
          | inl (_, z, known) ↦ (
            rw (e, c) (cc),
            subst (λ x. contains (r.job_id, r.receipt_token) x.acknowledged_receipts ≡ true) same
                (recorded r i false i' c),
          )
          | inr (z, _, _, _, _) ↦ cc
        ]
    | inl ((true, i'), c) ↦
        let same : i' ≡ j = cc (rw (e, c) at h) in
        (
          rw (e, c) (rw lookup-put (rw (beq_refl r.job_id) (ap some same))),
          subst (λ x. contains (r.job_id, r.receipt_token) x.acknowledged_receipts ≡ true) same
              (recorded r i true i' c),
        )
  ]
]

-- An acknowledgement whose receipt is not recorded is refused with a conflict, and the store is
-- left as it was, if its token is not the one of the current reservation or if another gateway
-- holds the job.
pub acknowledge_refused :
    (r : Receipt) (s : MemoryJobStore) (j : JobRecord)
    → lookup r.job_id s.jobs ≡ some j
    → contains (r.job_id, r.receipt_token) j.acknowledged_receipts ≡ false
    → (j.receipt_token ≢ some r.receipt_token) ⊎ (j.reserved_by ≢ some r.gateway_id)
    → (why : String) × (acknowledge r s ≡ (err (conflict why), s))
unfolding acknowledge check_receipt
acknowledge_refused r s j e fresh wrong =
    elim (Bool-cases (option_beq j.receipt_token (some r.receipt_token))) [
      | inr stale ↦ ("stale or invalid receipt token", rw (e, fresh, stale))
      | inl current ↦ elim (Bool-cases (option_beq j.reserved_by (some r.gateway_id))) [
        | inr other ↦ ("gateway/job binding mismatch", rw (e, fresh, current, other))
        | inl holder ↦ absurd (
            ground (
              arith,
              option_beq_iff j.receipt_token (some r.receipt_token),
              option_beq_iff j.reserved_by (some r.gateway_id),
            ))
      ]
    ]

complete_record_done :
    (gateway_id : String) (j : JobRecord)
    → j.state ≡ completed
    → complete_record gateway_id j ≡ ok j
unfolding complete_record
complete_record_done gateway_id j c = ground arith

-- Completing a completed job is accepted from every gateway, also from one that did not
-- acknowledge the job, and changes nothing.
pub mark_completed_any_gateway :
    (s : MemoryJobStore) (job_id gateway_id : String) (j : JobRecord)
    → lookup job_id s.jobs ≡ some j
    → j.state ≡ completed
    → mark_completed job_id gateway_id s ≡ (ok j, s)
unfolding mark_completed
mark_completed_any_gateway s job_id gateway_id j e c =
    rw (e, complete_record_done gateway_id j c)
      (ap (λ d. (ok j, record s { jobs = d })) (put_same job_id j s.jobs e))

-- A job that is not completed can be completed only by the gateway that acknowledged it. From any
-- other the request is refused with a conflict and changes nothing.
pub mark_completed_refused :
    (s : MemoryJobStore) (job_id gateway_id : String) (j : JobRecord)
    → lookup job_id s.jobs ≡ some j
    → j.state ≢ completed
    → j.ack_gateway_id ≢ some gateway_id
    → mark_completed job_id gateway_id s ≡ (err (conflict "gateway/job binding mismatch"), s)
unfolding mark_completed complete_record
mark_completed_refused s job_id gateway_id j e open_ other =
    rw e (ground (arith, option_beq_iff j.ack_gateway_id (some gateway_id)))
