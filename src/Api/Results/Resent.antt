-- ===== src/Api/Results/Resent.antt =====
-- A result that is handed in again, whatever happens in between.
use saas_job_api.Prelude.{ℕ, String, ◌≡◌, some, List, [], ◌∷◌, string_eq, pair_eq}
use saas_job_api.Dict.{lookup}
use saas_job_api.Jobs.{JobRecord, completed}
use saas_job_api.Jobs.Store.{MemoryJobStore}
use saas_job_api.Jobs.Lifecycle.{Operation, Keeps, Inv, step}
use saas_job_api.Inventory.{MemoryInventoryStore}
use saas_job_api.Inventory.Laws as Inventory
use saas_job_api.Api.{App}
use saas_job_api.Api.Results.{SubmitResultRequest, Draws, submit_result}

-- What happens between two requests: submissions, and operations of the job store.
pub data Event : Type 0 where
  submits : String → SubmitResultRequest → (gateway_id : String) → Draws → Event
  operates : Operation → Event

unfoldable pub app_step : App → Event → App
unfolding submit_result step
app_step s (submits job_id body gateway_id draws) = (submit_result job_id body gateway_id draws s).1
app_step s (operates op) = record s { jobs = step s.jobs op }

unfoldable pub app_run : App → List Event → App
app_run s [] = s
app_run s (event ∷ events) = app_run (app_step s event) events

-- The event is no reset of the job store.
abbrev pub KeepsJobs : Event → Type 0
KeepsJobs (submits job_id body gateway_id draws) = Unit
KeepsJobs (operates op) = Keeps op

module _ (job_id attempt_token : String) (n : ℕ) where
  -- The job is completed, and its result is stored with n certificates.
  abbrev IsSettledIn : MemoryJobStore → MemoryInventoryStore → Type 0
  IsSettledIn jobs inventory =
      Inv jobs
      × ((j : JobRecord) × (lookup job_id jobs.jobs ≡ some j) × (j.state ≡ completed))
      × (lookup (job_id, attempt_token) inventory.markers ≡ some n)

  abbrev IsSettled : App → Type 0
  IsSettled s = IsSettledIn s.jobs s.inventory
