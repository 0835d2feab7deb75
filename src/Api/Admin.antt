-- ===== src/Api/Admin.antt =====
-- src/saas_job_api/routers/admin.py: the endpoints for tests, behind the admin token.
use saas_job_api.Prelude.{
  ℕ, String, Option, none, some, List, not, string_eq, option_beq, if◌then◌else◌,
}
use saas_job_api.Prelude.Int.{ℤ}
use saas_job_api.Result.{Result, ok, err, unauthorized}
use saas_job_api.Exec.{Exec, pure, lift, ◌>>◌}
use saas_job_api.Time.{DateTime}
use saas_job_api.Dict.{Dict}
use saas_job_api.Jobs.{JobState, JobRecord, PayloadValue, new_job}
use saas_job_api.Jobs.Store.{seed, list_all, reset, set_fault}
use saas_job_api.Api.{App, on_jobs, or_new}

-- `require_admin_token` (src/saas_job_api/auth.py)
unfoldable pub require_admin_token : (admin_token : String) → Option String → Result (Unit {0})
require_admin_token admin_token x_admin_token =
    if not (option_beq x_admin_token (some admin_token)) then err unauthorized else ok tt

pub record AdminCreateJobRequest : Type 0 where
  pub job_id : Option String
  pub job_type : String
  pub manifest_version : String
  pub priority : ℤ
  pub scheduled_at : Option DateTime
  pub correlation_id : Option String
  pub payload : Dict String PayloadValue
  pub max_attempts : ℤ
  pub trace_id : Option String

pub record CreateDraws : Type 0 where
  pub now : DateTime
  pub new_job_id : String
  pub new_correlation_id : String

abbrev or_now : Option DateTime → DateTime → DateTime
or_now none now = now
or_now (some t) now = t

unfoldable pub job_of : AdminCreateJobRequest → CreateDraws → JobRecord
unfolding new_job
job_of body draws = new_job (record {
  job_id = or_new body.job_id draws.new_job_id;
  job_type = body.job_type;
  manifest_version = body.manifest_version;
  priority = body.priority;
  scheduled_at = or_now body.scheduled_at draws.now;
  correlation_id = or_new body.correlation_id draws.new_correlation_id;
  payload = body.payload;
  max_attempts = body.max_attempts;
  trace_id = body.trace_id;
})

module _ (admin_token : String) (x_admin_token : Option String) where
  unfoldable pub create_job : AdminCreateJobRequest → CreateDraws → Exec App (String × JobState)
  unfolding require_admin_token job_of seed
  create_job body draws = do
    lift (require_admin_token admin_token x_admin_token)
    let job = job_of body draws
    on_jobs (seed job)
    pure (job.job_id, job.state)

  unfoldable pub list_jobs : Exec App (List JobRecord)
  unfolding require_admin_token list_all
  list_jobs = do lift (require_admin_token admin_token x_admin_token); on_jobs list_all

  unfoldable pub reset_jobs : Exec App (Unit {0})
  unfolding require_admin_token reset
  reset_jobs = do lift (require_admin_token admin_token x_admin_token); on_jobs reset

  unfoldable pub arm_fault : ℕ → Option ℕ → Exec App (Unit {0})
  unfolding require_admin_token set_fault
  arm_fault next_poll_status retry_after = do
    lift (require_admin_token admin_token x_admin_token)
    on_jobs (set_fault next_poll_status retry_after)
