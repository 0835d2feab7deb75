-- ===== src/Tests/Stores.antt =====
-- The theorems on health, schedules, certificates, events and configurations at concrete stores.
use saas_job_api.Prelude.{
  ℕ, String, ◌≡◌, pair_eq, refl, true, none, some, [], ◌∷◌, arith, string_eq,
}
use saas_job_api.Result.{err, conflict}
use saas_job_api.Sorting.{filter, sort}
use saas_job_api.Time.{aware}
use saas_job_api.Dict.{lookup, put_all}
use saas_job_api.Dict.Select.{select}
use saas_job_api.Tenancy.{Schedule}
use saas_job_api.Tenancy.Schedules.{due_schedules, claim_due, is_due, advance_each}
use saas_job_api.Tenancy.Schedules.Laws.{claims_due, claim_due_once}
use saas_job_api.Inventory.{Certificate, certificate_record, Submission, MemoryInventoryStore}
use saas_job_api.Audit.{AuditEvent, empty}
use saas_job_api.GatewayConfig.{AuditSink, Saving}

abbrev hourly : Schedule
hourly = record {
  schedule_id = "schedule_1";
  tenant_id = "tenant_1";
  target_id = "target_1";
  job_type = "TLS_SCAN";
  manifest_version = "1.0";
  interval_seconds = 3600;
  next_run_at = aware 500;
  created_at = aware 100;
  enabled = true;
  last_run_at = none;
}

claim_due_once_example : lookup {K = String} {V = Schedule} "schedule_1" [] ≡ none
unfolding due_schedules claim_due claims_due lookup select filter is_due sort put_all advance_each
claim_due_once_example =
    claim_due_once 1000 1200 10 10 (("schedule_1", hourly) ∷ []) (("schedule_1", hourly) ∷ []) []
      "schedule_1" hourly ((1100, 5) ∷ (1150, 5) ∷ []) (refl, tt) refl refl
      (omega arith, (omega arith, tt)) refl (omega arith)

abbrev certificate : Certificate
certificate = record {
  subject = "CN=host";
  issuer = "CN=ca";
  serial_number = "01";
  valid_from = aware 0;
  valid_to = aware 9000;
  fingerprint = "ab";
}

abbrev pub found : Submission
found = record {
  job_id = "job_1";
  attempt_token = "attempt";
  tenant_id = some "tenant_1";
  target_id = some "target_1";
  plugin_id = "tls";
  plugin_version = "1";
  certificates = certificate ∷ [];
  received_at = aware 2000;
}

abbrev inventory : MemoryInventoryStore
inventory = record { markers = []; records = [] }

abbrev record_id : ℕ → String
record_id i = "record"

abbrev one_certificate : MemoryInventoryStore
unfolding certificate_record
one_certificate = record {
  markers = [];
  records = ("record", certificate_record "record" found certificate) ∷ [];
}

abbrev pub event : AuditEvent
event = record {
  event_id = "event_1";
  event_type = "RESULT_SUBMITTED";
  actor = "gw_1";
  tenant_id = some "tenant_1";
  resource_type = some "job";
  resource_id = some "job_1";
  detail = empty;
  occurred_at = aware 2000;
}

abbrev pub saving : Saving
saving = record {
  gateway_id = "gw_1";
  tenant_id = "tenant_1";
  poll_interval_ms = 2000;
  heartbeat_interval_ms = 60000;
  accept_new_jobs = true;
  updated_at = aware 1000;
}

-- A log that cannot be written.
abbrev pub broken : AuditSink ℕ
broken = record { append = λ e log. (err (conflict "log"), log); event = λ previous current. event }
