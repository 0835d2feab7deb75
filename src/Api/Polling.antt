-- ===== src/Api/Polling.antt =====
-- src/saas_job_api/routers/gateway.py: a gateway polls for jobs and acknowledges them.
pub mod Laws
pub mod Offers
use saas_job_api.Prelude.{
  ℕ, String, Bool, true, false, not, Option, none, some, List, [], ◌∷◌, string_eq, ◌==◌, is_none,
  if◌then◌else◌,
}
use saas_job_api.Prelude.Int.{ℤ}
use saas_job_api.Result.{Result, ok, err, bad_request, type_error, value_error}
use saas_job_api.Exec.{Exec, pure, raise, lift, gets, require, ◌>>=◌, ◌>>◌}
use saas_job_api.Time.{DateTime, is_before}
use saas_job_api.Dict.{Dict, lookup}
use saas_job_api.Jobs.{JobRecord, PayloadValue}
use saas_job_api.Jobs.Store.{PendingFault, take_fault}
use saas_job_api.Jobs.Claim.{ClaimRequest, claim}
use saas_job_api.Jobs.Receipts.{Receipt, acknowledge}
use saas_job_api.Health.{HealthState, GatewayStatus, derive_current_status, is_held}
use saas_job_api.Health as Health
use saas_job_api.GatewayConfig.{GatewayOperationalConfig}
use saas_job_api.Api.{App, Settings, on_jobs, on_health, bind_gateway_id, or_new}

pub record PollRequest : Type 0 where
  pub request_id : Option String
  pub gateway_id : Option String
  pub max_jobs : ℤ
  pub supported_job_types : Option (List String)
  pub supported_manifest_versions : Option (List String)
  pub available_dispatch_slots : Option ℤ

-- models/poll.py: `Job`. The payload hash is never set.
pub record JobMessage : Type 0 where
  pub job_id : String
  pub job_type : String
  pub manifest_version : String
  pub priority : ℤ
  pub scheduled_at : DateTime
  pub receipt_token : String
  pub correlation_id : String
  pub payload : Dict String PayloadValue
  pub max_attempts : ℤ
  pub trace_id : Option String

pub record PollResponse : Type 0 where
  pub request_id : String
  pub server_time : DateTime
  pub received_at : DateTime
  pub poll_after_ms : ℕ
  pub reservation_until : Option DateTime
  pub jobs : List JobMessage

-- The responses of a poll: an injected fault with its status code and `Retry-After`, a 204, or
-- jobs.
pub data PollReply : Type 0 where
  fault : ℕ → Option ℕ → PollReply
  no_content : PollReply
  offered : PollResponse → PollReply

-- The readings of the clock, by the handler and by the store, and what is drawn at random.
pub record PollDraws : Type 0 where
  pub now : DateTime
  pub claimed_at : DateTime
  pub token : ℕ → String
  pub request_id : String

abbrev pub message_with : JobRecord → Option String → Result JobMessage
message_with job none = err (value_error "receiptToken")
message_with job (some token) = ok (record {
  job_id = job.job_id;
  job_type = job.job_type;
  manifest_version = job.manifest_version;
  priority = job.priority;
  scheduled_at = job.scheduled_at;
  receipt_token = token;
  correlation_id = job.correlation_id;
  payload = job.payload;
  max_attempts = job.max_attempts;
  trace_id = job.trace_id;
})

-- The validation of `Job` refuses a job without a receipt token.
unfoldable pub messages : List JobRecord → Result (List JobMessage)
messages [] = ok []
messages (job ∷ jobs) =
    let rest = messages jobs in
    elim (message_with job job.receipt_token) [
      | err e ↦ err e
      | ok m ↦ elim rest [ err e ↦ err e | ok ms ↦ ok (m ∷ ms) ]
    ]

-- `a < b` where either may be `None`.
abbrev optional_before : Option DateTime → Option DateTime → Result Bool
optional_before (some a) (some b) = is_before a b
optional_before none b = err type_error
optional_before (some a) none = err type_error

abbrev keep : Result Bool → Option DateTime → Option DateTime → Option DateTime
keep (ok true) best new = new
keep (ok false) best new = best
keep (err e) best new = best

-- `min(job.reservation_until for job in ...)` over the first time and those of the other jobs.
unfoldable pub earliest : Option DateTime → List JobRecord → Result (Option DateTime)
unfolding is_before
earliest best [] = ok best
earliest best (job ∷ jobs) =
    let sooner = optional_before job.reservation_until best in
    let rest = earliest (keep sooner best job.reservation_until) jobs in
    elim sooner [ err e ↦ err e | ok b ↦ rest ]

abbrev poll_after : Option GatewayOperationalConfig → Settings → ℕ
poll_after none settings = settings.default_poll_after_ms
poll_after (some config) settings = config.poll_interval_ms

-- The answer for the jobs that were claimed.
unfoldable pub offer :
    Settings
    → PollRequest
    → PollDraws
    → Option GatewayOperationalConfig
    → List JobRecord
    → Result PollReply
unfolding messages earliest
offer settings body draws config [] = ok no_content
offer settings body draws config (job ∷ jobs) = elim (messages (job ∷ jobs)) [
  | err e ↦ err e
  | ok ms ↦ elim (earliest job.reservation_until jobs) [
    | err e ↦ err e
    | ok until ↦ ok (
        offered (record {
          request_id = or_new body.request_id draws.request_id;
          server_time = draws.now;
          received_at = draws.now;
          poll_after_ms = poll_after config settings;
          reservation_until = until;
          jobs = ms;
        }))
  ]
]

abbrev pub is_disabled : Option GatewayOperationalConfig → Bool
is_disabled none = false
is_disabled (some config) = not config.accept_new_jobs

-- Whether the health of the gateway holds its jobs back; without a heartbeat it does not.
unfoldable pub holds : Settings → DateTime → Option GatewayStatus → Result Bool
unfolding derive_current_status
holds settings now none = ok false
holds settings now (some status) = elim (derive_current_status settings.thresholds now status) [
  | err e ↦ err e
  | ok h ↦ ok (is_held h)
]

abbrev pub claim_request : String → PollRequest → ClaimRequest
claim_request gateway_id body = record {
  gateway_id = gateway_id;
  job_types = body.supported_job_types;
  manifest_versions = body.supported_manifest_versions;
  max_jobs = body.max_jobs;
  dispatch_slots = body.available_dispatch_slots;
}

-- The part of a poll after an injected fault, if there was none.
unfoldable pub serve :
    Settings → PollRequest → (gateway_id : String) → PollDraws → Exec App PollReply
unfolding holds claim offer Health.get
serve settings body gateway_id draws = do
  config ← gets (λ s. lookup gateway_id s.configs)
  if is_disabled config then pure no_content else (do
    status ← on_health (Health.get gateway_id)
    held ← lift (holds settings draws.now status)
    if held then pure no_content else (do
      chosen ← on_jobs (claim draws.claimed_at draws.token (claim_request gateway_id body))
      lift (offer settings body draws config chosen)))

abbrev answer_fault :
    Settings → PollRequest → String → PollDraws → Option PendingFault → Exec App PollReply
answer_fault settings body gateway_id draws none = serve settings body gateway_id draws
answer_fault settings body gateway_id draws (some f) =
    pure (fault f.status_code f.retry_after_seconds)

unfoldable pub poll_jobs :
    Settings → PollRequest → (gateway_id : String) → PollDraws → Exec App PollReply
unfolding bind_gateway_id take_fault serve
poll_jobs settings body gateway_id draws = do
  lift (bind_gateway_id body.gateway_id gateway_id)
  pending ← on_jobs take_fault
  answer_fault settings body gateway_id draws pending

pub record ReceivedRequest : Type 0 where
  pub job_id : Option String
  pub gateway_id : Option String
  pub receipt_token : String
  pub received_at : DateTime
  pub payload_hash : Option String
  pub local_record_version : Option ℤ

-- `_acknowledge` and `acknowledge_received`: the answer names the job.
unfoldable pub acknowledge_received :
    String → ReceivedRequest → (gateway_id : String) → Exec App String
unfolding bind_gateway_id acknowledge
acknowledge_received job_id body gateway_id = do
  lift (bind_gateway_id body.gateway_id gateway_id)
  job ← on_jobs (
      acknowledge (record {
        job_id = job_id;
        gateway_id = gateway_id;
        receipt_token = body.receipt_token;
        received_at = body.received_at;
        payload_hash = body.payload_hash;
        local_record_version = body.local_record_version;
      }))
  pure job.job_id

unfoldable pub acknowledge_received_legacy_alias :
    ReceivedRequest → (gateway_id : String) → Exec App String
unfolding acknowledge_received
acknowledge_received_legacy_alias body gateway_id = do
  job_id ←
      require (bad_request "jobId is required in the request body for the legacy alias route")
        body.job_id
  acknowledge_received job_id body gateway_id
