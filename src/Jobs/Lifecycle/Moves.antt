-- ===== src/Jobs/Lifecycle/Moves.antt =====
-- Each change of one record keeps it consistent and follows the diagram.
use saas_job_api.Prelude.{
  String, ◌≡◌, inl, inr, Bool, true, false, Option, some, List, arith, contains, string_eq, pair_eq,
  beq_refl, option_beq_iff,
}
use saas_job_api.Result.{ok}
use saas_job_api.Time.{DateTime}
use saas_job_api.Dict.Laws.{contains-add}
use saas_job_api.Jobs.{JobRecord, NewJob, reserved, new_job, is_acknowledged}
use saas_job_api.Jobs.Claim
use saas_job_api.Jobs.Claim.{is_claimable}
use saas_job_api.Jobs.Receipts.{Receipt, check_receipt, acknowledge_record, complete_record}
use saas_job_api.Jobs.Reissue.{reset_job}
use saas_job_api.Jobs.Receipts.Checks.{check_receipt_inv}
use saas_job_api.Jobs.Lifecycle.{
  is_owned, IsConsistent, ◌⟶◌, reserve, redeliver, confirm, reissue, complete, stay, HasReceipt,
  Remembers,
}

pub new_job-IsConsistent : (n : NewJob) → IsConsistent n.job_id (new_job n)
unfolding new_job
new_job-IsConsistent n = ground arith

module _ (k : String) (j : JobRecord) (c : IsConsistent k j) where
  abbrev pub Moves : JobRecord → Type 0
  Moves j' = IsConsistent k j' × (j.state ⟶ j'.state) × Remembers j j'

  pub stay-Moves : Moves j
  stay-Moves = (c, stay, λ p h. h)

  pub reserve-Moves :
      (gateway_id token : String) (until now : DateTime) (types versions : Option (List String))
      → is_claimable now types versions j ≡ ok true
      → Moves (Claim.reserve gateway_id until token j)
  unfolding Claim.reserve is_claimable
  reserve-Moves gateway_id token until now types versions h =
      (ground arith, grind (arith, reserve, redeliver), λ p known. known)

  pub reset_job-Moves : is_acknowledged j.state ≡ true → Moves (reset_job j)
  unfolding reset_job
  reset_job-Moves h = (ground arith, grind (arith, reissue), λ p known. known)

  -- A receipt that is accepted anew comes for a reserved job: an available one has no token, and
  -- an acknowledged or completed one has recorded its token.
  fresh_receipt_reserved :
      (token : String)
      → j.receipt_token ≡ some token
      → contains (k, token) j.acknowledged_receipts ≡ false
      → j.state ≡ reserved
  fresh_receipt_reserved token t h =
      let known : HasReceipt k (some token) j.acknowledged_receipts → ⊥ = λ e. cc in
      ground (arith, λ (owned : is_owned j.state ≡ true). known (rw t at (c.receipt owned)))

  acknowledge_record-Moves :
      (r : Receipt)
      → r.job_id ≡ k
      → j.receipt_token ≡ some r.receipt_token
      → j.state ≡ reserved
      → Moves (acknowledge_record r j)
  unfolding acknowledge_record
  acknowledge_record-Moves r same t h =
      let recorded : HasReceipt k j.receipt_token (acknowledge_record r j).acknowledged_receipts =
        rw (t, ← same) (rw contains-add (rw beq_refl)) in
      (
        ground (arith, recorded),
        grind (arith, confirm),
        λ p known. rw contains-add (rw known (ground arith)),
      )

  pub check_receipt-Moves :
      (r : Receipt) (changed : Bool) (j' : JobRecord)
      → r.job_id ≡ k
      → check_receipt r j ≡ ok (changed, j')
      → Moves j'
  unfolding check_receipt
  check_receipt-Moves r changed j' same h = elim (check_receipt_inv r j h) [
    | inl (_, e, _) ↦ rw e stay-Moves
    | inr (_, e, fresh, t, _) ↦ rw e (
        acknowledge_record-Moves r same t
          (fresh_receipt_reserved r.receipt_token t (rw same at fresh)))
  ]

  pub complete_record-Moves :
      (gateway_id : String) (j' : JobRecord) → complete_record gateway_id j ≡ ok j' → Moves j'
  unfolding complete_record
  complete_record-Moves gateway_id j' h = (
    ground (arith, option_beq_iff j.ack_gateway_id (some gateway_id)),
    grind (arith, complete, stay),
    ground arith,
  )
