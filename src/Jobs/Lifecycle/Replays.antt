-- ===== src/Jobs/Lifecycle/Replays.antt =====
-- An acknowledgement that is sent again, whatever happens in between.
use saas_job_api.Prelude.{◌≡◌, List, All, string_eq, some}
use saas_job_api.Result.{ok}
use saas_job_api.Dict.{lookup}
use saas_job_api.Jobs.{JobRecord}
use saas_job_api.Jobs.Store.{MemoryJobStore}
use saas_job_api.Jobs.Receipts.{Receipt, acknowledge}
use saas_job_api.Jobs.Receipts.Laws.{replay, acknowledge_stores}
use saas_job_api.Jobs.Lifecycle.{Operation, acknowledges, Keeps, Inv, step, run}
use saas_job_api.Jobs.Lifecycle.History.{step-Inv, run-Remembers}

-- Acknowledging is idempotent for good. In a consistent store, if an acknowledgement is accepted,
-- then after any operations without a reset, also if the job was reissued, reserved by another
-- gateway or completed in between, the same acknowledgement is accepted again: it returns the job
-- as it stands and changes nothing.
pub acknowledge_replayed :
    (r : Receipt) (s : MemoryJobStore) (j : JobRecord) (ops : List Operation)
    → Inv s
    → (acknowledge r s).0 ≡ ok j
    → All Keeps ops
    → let s' = run (acknowledge r s).1 ops in
      (j' : JobRecord) × (lookup r.job_id s'.jobs ≡ some j') × (acknowledge r s' ≡ (ok j', s'))
acknowledge_replayed r s j ops v h kept =
    let after = (acknowledge r s).1 in
    let (e, known) = acknowledge_stores r s j h in
    let consistent : Inv after = unfold step in step-Inv s (acknowledges r) v in
    let (j', e', remembers) = run-Remembers after ops r.job_id j consistent kept e in
    (j', e', replay r (run after ops) j' e' (remembers (r.job_id, r.receipt_token) known))
