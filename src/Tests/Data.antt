-- ===== src/Tests/Data.antt =====
-- Concrete jobs, gateways and stores.
use saas_job_api.Prelude.{ℕ, String, false, none, some, [], ◌∷◌}
use saas_job_api.Prelude.Int.{pos}
use saas_job_api.Time.{aware, naive}
use saas_job_api.Health.{GatewayStatus, Thresholds, healthy}
use saas_job_api.GatewayConfig.{GatewayOperationalConfig}
use saas_job_api.Jobs.{JobRecord, NewJob, text, available, reserved, acknowledged, completed}
use saas_job_api.Jobs.Store.{MemoryJobStore}
use saas_job_api.Jobs.Claim.{ClaimRequest}
use saas_job_api.Jobs.Receipts.{Receipt}

abbrev pub scan : NewJob
scan = record {
  job_id = "job_1";
  job_type = "TLS_SCAN";
  manifest_version = "1.0";
  priority = pos 50;
  scheduled_at = aware 1000;
  correlation_id = "corr_1";
  payload = ("tenantId", text "tenant_1") ∷ ("targetId", text "target_1") ∷ [];
  max_attempts = pos 8;
  trace_id = none;
}

abbrev pub urgent : NewJob
urgent = record scan { job_id = "job_2"; priority = pos 90 }

abbrev pub empty : MemoryJobStore
empty = record {
  reservation_ttl_seconds = 60;
  jobs = [];
  pending_fault = none;
  interrupted_attempts = [];
}

abbrev pub poll_one : ClaimRequest
poll_one = record {
  gateway_id = "gw_1";
  job_types = none;
  manifest_versions = some ("1.0" ∷ []);
  max_jobs = pos 1;
  dispatch_slots = none;
}

abbrev pub token : ℕ → String
token i = "token"

abbrev pub receipt : Receipt
receipt = record {
  job_id = "job_1";
  gateway_id = "gw_1";
  receipt_token = "token";
  received_at = aware 2000;
  payload_hash = none;
  local_record_version = none;
}

-- `scan` in each of its states.
abbrev pub fresh_job : JobRecord
fresh_job = record {
  job_id = "job_1";
  job_type = "TLS_SCAN";
  manifest_version = "1.0";
  priority = pos 50;
  scheduled_at = aware 1000;
  correlation_id = "corr_1";
  payload = ("tenantId", text "tenant_1") ∷ ("targetId", text "target_1") ∷ [];
  max_attempts = pos 8;
  trace_id = none;
  state = available;
  receipt_token = none;
  reserved_by = none;
  reservation_until = none;
  delivery_attempts = 0;
  acknowledged_receipts = [];
  ack_gateway_id = none;
  ack_received_at = none;
  ack_payload_hash = none;
  ack_local_record_version = none;
}

abbrev pub held_job : JobRecord
held_job = record fresh_job {
  state = reserved;
  receipt_token = some "token";
  reserved_by = some "gw_1";
  reservation_until = some (aware 1560);
  delivery_attempts = 1;
}

abbrev pub acked_job : JobRecord
acked_job = record held_job {
  state = acknowledged;
  acknowledged_receipts = ("job_1", "token") ∷ [];
  ack_gateway_id = some "gw_1";
  ack_received_at = some (aware 2000);
}

abbrev pub done_job : JobRecord
done_job = record acked_job { state = completed }

-- A gateway that sent a naive time.
abbrev pub naive_job : JobRecord
naive_job = record acked_job { ack_received_at = some (naive 2000) }

abbrev pub holding : JobRecord → MemoryJobStore
holding j = record empty { jobs = ("job_1", j) ∷ [] }

-- A second, more urgent job beside `scan`.
abbrev pub urgent_job : JobRecord
urgent_job = record fresh_job { job_id = "job_2"; priority = pos 90 }

abbrev pub two_jobs : MemoryJobStore
two_jobs = record empty { jobs = ("job_1", fresh_job) ∷ ("job_2", urgent_job) ∷ [] }

abbrev pub thresholds : Thresholds
thresholds = record { degraded_after = 90; unreachable_after = 300; failed_after = 1800 }

abbrev pub status : GatewayStatus
status = record {
  gateway_id = "gw_1";
  tenant_id = none;
  last_heartbeat_at = aware 1000;
  gateway_version = none;
  container_runtime_status = none;
  last_successful_job_at = none;
  last_error = none;
  last_reported_status = some healthy;
}

abbrev pub naive_status : GatewayStatus
naive_status = record status { last_heartbeat_at = naive 1000 }

abbrev pub config : GatewayOperationalConfig
config = record {
  gateway_id = "gw_1";
  tenant_id = "tenant_1";
  poll_interval_ms = 1000;
  heartbeat_interval_ms = 60000;
  accept_new_jobs = false;
  config_version = 3;
  updated_at = aware 900;
}
