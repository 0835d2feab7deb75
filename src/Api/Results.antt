-- ===== src/Api/Results.antt =====
-- src/saas_job_api/routers/results.py: a gateway hands in a result, or reports an interruption.
pub mod Laws
pub mod Resent
use Prim.Native.String.{◌++◌ as concat}
use saas_job_api.Prelude.{
  ℕ, String, Bool, true, false, Option, none, some, List, string_eq, is_none, if◌then◌else◌,
}
use saas_job_api.Result.{not_found}
use saas_job_api.Exec.{Exec, pure, lift, require, ◌>>=◌, ◌>>◌}
use saas_job_api.Time.{DateTime}
use saas_job_api.Dict.{lookup}
use saas_job_api.Jobs.{JobRecord, PayloadValue, payload_text}
use saas_job_api.Jobs.Store.{get}
use saas_job_api.Jobs.Receipts.{mark_completed}
use saas_job_api.Jobs.Reissue.{reissue_one}
use saas_job_api.Inventory.{Certificate, Submission, SubmitResultOutcome}
use saas_job_api.Inventory.{submit_result as store_result}
use saas_job_api.Audit.{Detail, empty, result}
use saas_job_api.Api.{App, on_jobs, on_inventory, check_job_id, record_audit_event}

pub record SubmitResultRequest : Type 0 where
  pub job_id : Option String
  pub attempt_token : String
  pub plugin_id : String
  pub plugin_version : String
  pub certificates : List Certificate

pub record SubmitResultResponse : Type 0 where
  pub accepted : Bool
  pub dedupe : Bool
  pub record_count : ℕ

-- The reading of the clock and the ids that a request draws.
pub record Draws : Type 0 where
  pub now : DateTime
  pub record_id : ℕ → String
  pub event_id : String

-- What is stored of a request for a job.
unfoldable pub submission : String → SubmitResultRequest → DateTime → JobRecord → Submission
unfolding lookup
submission job_id body now job = record {
  job_id = job_id;
  attempt_token = body.attempt_token;
  tenant_id = payload_text (lookup "tenantId" job.payload);
  target_id = payload_text (lookup "targetId" job.payload);
  plugin_id = body.plugin_id;
  plugin_version = body.plugin_version;
  certificates = body.certificates;
  received_at = now;
}

abbrev answer : SubmitResultOutcome → SubmitResultResponse
answer outcome = record {
  accepted = outcome.accepted;
  dedupe = outcome.dedupe;
  record_count = outcome.record_count;
}

-- The part after the job is completed.
unfoldable pub record_result :
    String → SubmitResultRequest → String → Draws → JobRecord → Exec App SubmitResultResponse
unfolding submission store_result record_audit_event
record_result job_id body gateway_id draws job = do
  outcome ← on_inventory (store_result draws.record_id (submission job_id body draws.now job))
  if outcome.dedupe then pure (answer outcome) else (do
    record_audit_event draws.event_id "RESULT_SUBMITTED" gateway_id draws.now
        (payload_text (lookup "tenantId" job.payload)) (some "job") (some job_id)
        (result outcome.record_count body.plugin_id)
    pure (answer outcome))

unfoldable pub submit_result :
    String → SubmitResultRequest → (gateway_id : String) → Draws → Exec App SubmitResultResponse
unfolding check_job_id get mark_completed record_result
submit_result job_id body gateway_id draws = do
  lift (check_job_id job_id body.job_id)
  found ← on_jobs (get job_id)
  job ← require (not_found (concat "unknown job: " job_id)) found
  on_jobs (mark_completed job_id gateway_id)
  record_result job_id body gateway_id draws job

pub record ReportInterruptedRequest : Type 0 where
  pub job_id : Option String
  pub attempt_token : String

-- `True` stands for the answer "reissued", `False` for "noop".
unfoldable pub report_interrupted :
    String → ReportInterruptedRequest → (gateway_id : String) → Draws → Exec App Bool
unfolding check_job_id reissue_one record_audit_event
report_interrupted job_id body gateway_id draws = do
  lift (check_job_id job_id body.job_id)
  reissued ← on_jobs (reissue_one job_id gateway_id body.attempt_token)
  if is_none reissued then pure false else (do
    record_audit_event draws.event_id "JOB_INTERRUPTED_REPORTED" gateway_id draws.now none
        (some "job") (some job_id) empty
    pure true)
