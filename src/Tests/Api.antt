-- ===== src/Tests/Api.antt =====
-- The theorems on the routers and the scheduler at concrete requests.
use saas_job_api.Prelude.{
  ◌≡◌, ◌⊎◌, List, refl, true, false, none, some, [], ◌∷◌, string_eq, pair_eq,
}
use saas_job_api.Prelude.Int.{pos}
use saas_job_api.Result.{Error, ok, err, not_found}
use saas_job_api.Time.{aware}
use saas_job_api.Dict.{lookup}
use saas_job_api.Scheduler.{Ids, SchedulerStores, reissue_orphaned_jobs}
use saas_job_api.Scheduler.Laws.{naive_heartbeat_stops_reissue}
use saas_job_api.Api.{App, Settings, bind_gateway_id}
use saas_job_api.Rbac.{tenant_admin}
use saas_job_api.Api.Access.{TokenClaims}
use saas_job_api.Api.Targets as Targets
use saas_job_api.Api.Targets.{
  TargetCreateRequest, list_targets, get_target, create_target, delete_target,
}
use saas_job_api.Api.Heartbeat.{HeartbeatRequest}
use saas_job_api.Api.Polling.{PollRequest, PollDraws, poll_jobs}
use saas_job_api.Api.Polling.Laws.{IsServed, poll_jobs_gated}
use saas_job_api.Api.Results.{SubmitResultRequest, SubmitResultResponse, Draws, submit_result}
use saas_job_api.Api.Results.Laws.{submit_result_refused}
use saas_job_api.Api.Results.Resent.{Event, submits, operates}
use saas_job_api.Jobs.Lifecycle.{orphans, claims}
use saas_job_api.Tests.Data.{poll_one, token, acked_job, holding, thresholds, naive_status, config}

abbrev pub settings : Settings
settings = record {
  thresholds = thresholds;
  default_poll_after_ms = 5000;
  default_gateway_heartbeat_interval_ms = 60000;
  enrollment_token_ttl_seconds = 86400;
}

abbrev pub app : App
app = record {
  jobs = holding acked_job;
  health = [];
  inventory = record { markers = []; records = [] };
  audit = [];
  configs = [];
  targets = [];
  schedules = [];
  tenants = [];
  registration = record { tokens_by_hash = []; identities = [] };
  principals = [];
}

abbrev pub poll : PollRequest
poll = record {
  request_id = none;
  gateway_id = some "gw_1";
  max_jobs = pos 5;
  supported_job_types = none;
  supported_manifest_versions = none;
  available_dispatch_slots = none;
}

abbrev pub poll_draws : PollDraws
poll_draws = record {
  now = aware 2000;
  claimed_at = aware 2000;
  token = token;
  request_id = "request";
}

abbrev disabled_app : App
disabled_app = record app { configs = ("gw_1", config) ∷ [] }

poll_jobs_gated_example :
    ((poll_jobs settings poll "gw_1" poll_draws disabled_app).1.jobs.jobs ≡ disabled_app.jobs.jobs)
    ⊎ ((bind_gateway_id poll.gateway_id "gw_1" ≡ ok "gw_1")
        × (disabled_app.jobs.pending_fault ≡ none)
        × IsServed settings poll "gw_1" poll_draws disabled_app)
poll_jobs_gated_example = poll_jobs_gated settings poll "gw_1" poll_draws disabled_app

abbrev naive_app : App
naive_app = record app { health = ("gw_1", naive_status) ∷ [] }

abbrev submission : SubmitResultRequest
submission = record {
  job_id = none;
  attempt_token = "attempt";
  plugin_id = "tls";
  plugin_version = "1";
  certificates = [];
}

abbrev draws : Draws
draws = record { now = aware 2500; record_id = token; event_id = "event" }

abbrev accepted : SubmitResultResponse
accepted = record { accepted = true; dedupe = false; record_count = 0 }

-- The gateway is taken for lost, and another one polls and sends a result of its own.
abbrev events : List Event
events =
    operates (orphans (aware 9000) ("gw_1" ∷ []) 600)
    ∷ operates (claims (aware 9000) token (record poll_one { gateway_id = "gw_2" }))
    ∷ submits "job_1" (record submission { attempt_token = "other" }) "gw_2" draws
    ∷ []

submit_result_refused_example : (submit_result "job_9" submission "gw_1" draws app).1 ≡ app
unfolding submit_result lookup
submit_result_refused_example =
    submit_result_refused "job_9" submission "gw_1" draws app (not_found "unknown job: job_9") refl

abbrev heartbeat : HeartbeatRequest
heartbeat = record {
  gateway_id = none;
  status = "HEALTHY";
  container_runtime = "running";
  timestamp = aware 1900;
  gateway_version = none;
}

abbrev viewer : TokenClaims
viewer = record { subject = "user"; role = tenant_admin; tenant_id = some "tenant_1" }

abbrev stores : SchedulerStores
stores = record {
  schedules = [];
  targets = [];
  jobs = holding acked_job;
  health = ("gw_1", naive_status) ∷ [];
}

abbrev ids : Ids
ids = record { job = token; correlation = token }

naive_heartbeat_stops_reissue_example :
    (e : Error) × (reissue_orphaned_jobs thresholds 600 (aware 3000) stores ≡ (err e, stores))
unfolding lookup
naive_heartbeat_stops_reissue_example =
    naive_heartbeat_stops_reissue thresholds 600 3000 1000 "gw_1" naive_status stores refl refl refl

abbrev scanner : TargetCreateRequest
scanner = record {
  target_id = none;
  name = "host";
  host = "host.test";
  port = pos 443;
  plugin_ref = "tls";
  plugin_version = "1";
  credential_ref = none;
}

abbrev target_draws : Targets.Draws
target_draws = record { now = aware 2500; new_id = "target_1"; event_id = "event" }
