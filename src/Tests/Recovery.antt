-- ===== src/Tests/Recovery.antt =====
-- What a poll offers, and an abandoned job that gets to another gateway, at concrete stores.
use saas_job_api.Prelude.{
  ℕ, String, ◌≡◌, ◌≤◌, refl, none, some, [], ◌∷◌, arith, string_eq, pair_eq, contains, All, length,
}
use saas_job_api.Prelude.Int.{pos, pos_part}
use saas_job_api.Result.{ok, IsOk}
use saas_job_api.Sorting.{filter, sort, insert}
use saas_job_api.Time.{aware, later, elapsed_lt}
use saas_job_api.Dict.{Dict, lookup}
use saas_job_api.Dict.Select.{select}
use saas_job_api.Jobs.{JobRecord}
use saas_job_api.Jobs.Claim.{
  ClaimRequest, claim, choose, claim_limit, is_claimable, job_lt, reserve, reserve_each,
}
use saas_job_api.Jobs.Store.{take_fault}
use saas_job_api.Jobs.Lifecycle.{Inv}
use saas_job_api.Jobs.Claim.Chosen.{IsWithinSlots}
use saas_job_api.Jobs.Reissue.{reset_job, reissue_orphaned, reset_orphans, is_orphaned}
use saas_job_api.Health.{GatewayStatus, unreachable, derive_current_status}
use saas_job_api.Health as Health
use saas_job_api.Scheduler.{SchedulerStores, reissue_orphaned_jobs, unreachable_ids}
use saas_job_api.Scheduler.Recovery.{IsAbandoned, abandoned_job_redelivered}
use saas_job_api.Api.{App, bind_gateway_id}
use saas_job_api.Api.Polling.{
  poll_jobs, offered, PollResponse, serve, offer, messages, earliest, holds,
}
use saas_job_api.Api.Polling.Offers.{TellsOf, poll_jobs_offers}
use saas_job_api.Tests.Data.{status, thresholds, acked_job, fresh_job, holding, token, poll_one}
use saas_job_api.Tests.Jobs.{holding-Inv}
use saas_job_api.Tests.Api.{app, settings, poll, poll_draws}

abbrev silent_stores : SchedulerStores
silent_stores = record {
  schedules = [];
  targets = [];
  jobs = holding acked_job;
  health = ("gw_1", status) ∷ [];
}

silent :
    IsAbandoned thresholds 100 2500 2000 silent_stores "gw_1" "job_1" status unreachable acked_job
unfolding lookup derive_current_status elapsed_lt
silent = record {
  heartbeats = (refl, tt);
  receipts = (refl, tt);
  silent = refl;
  own = refl;
  derived = refl;
  held = refl;
  stored = refl;
  acked = refl;
  owner = refl;
  since = refl;
  waited = omega arith;
}

abbrev rescue : ClaimRequest
rescue = record poll_one { gateway_id = "gw_2"; max_jobs = pos 5 }

abbrev rescued : Dict String JobRecord
unfolding reset_job
rescued = ("job_1", reset_job acked_job) ∷ []

rescues :
    choose
      (aware 3000)
      rescue
      (reissue_orphaned_jobs thresholds 100 (aware 2500) silent_stores).1.jobs.jobs
    ≡ ok rescued
unfolding reissue_orphaned_jobs reissue_orphaned reset_orphans is_orphaned unreachable_ids
    derive_current_status choose select filter sort insert is_claimable job_lt claim_limit contains
    Health.list_all elapsed_lt reset_job
rescues = refl

abandoned_job_redelivered_example :
    IsOk (reissue_orphaned_jobs thresholds 100 (aware 2500) silent_stores).0
    × ((i : ℕ) × (lookup "job_1"
            (claim
              (aware 3000)
              token
              rescue
              (reissue_orphaned_jobs thresholds 100 (aware 2500) silent_stores).1.jobs).1.jobs
          ≡ some (
              reserve "gw_2"
                (later
                  (aware 3000)
                  (reissue_orphaned_jobs thresholds 100
                    (aware 2500)
                    silent_stores).1.jobs.reservation_ttl_seconds)
                (token i)
                (reset_job acked_job))))
unfolding lookup contains claim_limit rescued
abandoned_job_redelivered_example =
    abandoned_job_redelivered thresholds 100 2500 2000 silent_stores "gw_1" "job_1" status
      unreachable acked_job (aware 3000) token rescue rescued silent (refl, tt) refl refl rescues
      (omega arith)

abbrev fresh_app : App
fresh_app = record app { jobs = holding fresh_job }

abbrev offer_one : PollResponse
offer_one = record {
  request_id = "request";
  server_time = aware 2000;
  received_at = aware 2000;
  poll_after_ms = 5000;
  reservation_until = some (aware 2060);
  jobs =
      record {
        job_id = "job_1";
        job_type = fresh_job.job_type;
        manifest_version = fresh_job.manifest_version;
        priority = fresh_job.priority;
        scheduled_at = fresh_job.scheduled_at;
        receipt_token = "token";
        correlation_id = fresh_job.correlation_id;
        payload = fresh_job.payload;
        max_attempts = fresh_job.max_attempts;
        trace_id = none;
      }
      ∷ [];
}

polls : (poll_jobs settings poll "gw_1" poll_draws fresh_app).0 ≡ ok (offered offer_one)
unfolding poll_jobs bind_gateway_id serve lookup holds claim choose select filter sort insert
    is_claimable job_lt claim_limit reserve_each reserve offer messages earliest Health.get
    take_fault
polls = refl

fresh-Inv : Inv (holding fresh_job)
unfolding contains
fresh-Inv = holding-Inv fresh_job (ground arith)

poll_jobs_offers_example :
    All
      (TellsOf "gw_1"
        (later (aware 2000) 60)
        (poll_jobs settings poll "gw_1" poll_draws fresh_app).1.jobs.jobs)
      offer_one.jobs
    × (length offer_one.jobs ≤ pos_part poll.max_jobs)
    × IsWithinSlots (length offer_one.jobs) poll.available_dispatch_slots
poll_jobs_offers_example =
    poll_jobs_offers settings poll "gw_1" poll_draws fresh_app offer_one fresh-Inv polls
