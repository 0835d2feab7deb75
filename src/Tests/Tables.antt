-- ===== src/Tests/Tables.antt =====
-- The theorems on the other stores over PostgreSQL, at concrete tables.
use saas_job_api.Prelude.{
  ℕ, String, ◌<◌, ◌≤◌, ◌≡◌, refl, inl, inr, Bool, true, none, some, List, [], ◌∷◌, arith, string_eq,
  pair_eq, ◌==◌, if◌then◌else◌, Bool-cases,
}
use saas_job_api.Result.{ok, err, database_error}
use saas_job_api.Time.{aware}
use saas_job_api.Dict.{lookup}
use saas_job_api.Dict.Select.{select}
use saas_job_api.Sorting.{filter, sort, insert}
use saas_job_api.Tenancy.Schedules as MemorySchedules
use saas_job_api.GatewayConfig.{Saving, AuditSink, GatewayOperationalConfig}
use saas_job_api.GatewayConfig as MemoryConfigs
use saas_job_api.Registration.{GatewayIdentity}
use saas_job_api.Registration as MemoryRegistration
use saas_job_api.Inventory.{SubmitResultOutcome, build, certificate_record}
use saas_job_api.Audit.{empty}
use saas_job_api.Postgres.{IsReordering}
use saas_job_api.Postgres.Schedules.{
  ScheduleRow, PostgresScheduleStore, unlocked, due_rows, advance_row, claim_due,
}
use saas_job_api.Postgres.Schedules.View.{schedules_of}
use saas_job_api.Postgres.Schedules.Claims.{claim_due-view}
use saas_job_api.Postgres.Schedules.Locks.{
  Claiming, Event, selects, commits, cluster_step, cluster_run,
}
use saas_job_api.Postgres.Schedules.Locks.Exclusive.{claimed_once}
use saas_job_api.Postgres.Image.{image}
use saas_job_api.Postgres.Configs.{ConfigRow, ConfigTable, row_to_config}
use saas_job_api.Postgres.Configs as Configs
use saas_job_api.Postgres.Configs.View as ConfigsView
use saas_job_api.Postgres.Registration.{IdentityRow, PostgresRegistrationStore}
use saas_job_api.Postgres.Registration as Registration
use saas_job_api.Postgres.Registration.View as RegistrationView
use saas_job_api.Postgres.Inventory.{PostgresInventoryStore, ResultRow}
use saas_job_api.Postgres.Inventory as Inventory
use saas_job_api.Postgres.Inventory.Races.{racing_submission_fails, resubmission_is_duplicate}
use saas_job_api.Postgres.Audit.{
  EventRow, PostgresAuditLogStore, purge_expired, expired_rows, rows_without,
}
use saas_job_api.Postgres.Audit.Purge.{purge_expired_oldest}
use saas_job_api.Tests.Stores.{saving, broken, found}
use saas_job_api.Tests.Postgres.{driver, driver-IsFaithful}

driver-IsReordering : IsReordering driver
driver-IsReordering = record { keeps_keys = λ d u. u; keeps_rows = λ d u k. refl }

abbrev hourly : ScheduleRow
hourly = record {
  schedule_id = "s1";
  tenant_id = "tenant_1";
  target_id = "target_1";
  job_type = "TLS_SCAN";
  manifest_version = "1.0";
  interval_seconds = 3600;
  next_run_at = 1000;
  created_at = 1;
  enabled = true;
  last_run_at = none;
}

abbrev daily : ScheduleRow
daily = record hourly { schedule_id = "s2"; interval_seconds = 86400; next_run_at = 1500 }

abbrev two : PostgresScheduleStore
two = ("s1", hourly) ∷ ("s2", daily) ∷ []

abbrev first_held : String → Bool
first_held k = k == "s1"

claim_due-view_example :
    ((claim_due driver first_held (aware 2000) 5 two).0
      ≡ (MemorySchedules.claim_due (aware 2000) 5 (schedules_of (unlocked first_held two))).0)
    × ((k : String)
        → lookup k (schedules_of (claim_due driver first_held (aware 2000) 5 two).1) ≡ (
            if first_held k
            then lookup k (schedules_of two)
            else lookup k
                (MemorySchedules.claim_due
                  (aware 2000)
                  5
                  (schedules_of (unlocked first_held two))).1))
unfolding lookup
claim_due-view_example =
    claim_due-view driver driver-IsFaithful first_held 2000 5 two driver-IsReordering
      (refl, (refl, tt))

abbrev two_claims : List Event
two_claims = selects 2000 1 ∷ selects 2001 1 ∷ []

abbrev claim_of : ℕ → String → ScheduleRow → Claiming
claim_of now k row = record { now = now; rows = (k, row) ∷ [] }

claimed_once_example :
    (lookup "s2" (claim_of 2000 "s1" hourly).rows ≡ none)
    × (lookup "s2" (cluster_run driver (record { table = two; claims = [] }) two_claims).table
        ≡ some daily)
    × (lookup "s2"
          (cluster_step driver
            (cluster_run driver (record { table = two; claims = [] }) two_claims)
            (commits 0)).table
        ≡ some (advance_row driver (aware 2001) daily))
unfolding lookup cluster_run cluster_step due_rows select filter sort insert unlocked
claimed_once_example =
    claimed_once driver driver-IsReordering two two_claims 0 0 (claim_of 2001 "s2" daily)
      (claim_of 2000 "s1" hourly) "s2" daily (refl, (refl, tt)) refl refl refl

abbrev config_row : ConfigRow
config_row = record {
  gateway_id = "gw_1";
  tenant_id = "tenant_1";
  poll_interval_ms = 1000;
  heartbeat_interval_ms = 60000;
  accept_new_jobs = true;
  config_version = 3;
  updated_at = 10;
}

abbrev config_table : ConfigTable
config_table = ("gw_1", config_row) ∷ []

config_table-IsKeyed : ConfigsView.IsKeyed config_table
unfolding lookup
config_table-IsKeyed k row h = elim (Bool-cases ("gw_1" == k)) [
  | inl same ↦ cc ((string_eq.eqb_iff "gw_1" k).0 same, rw same at h)
  | inr other ↦ cc (rw other at h)
]

-- The audit log cannot be written, and the change is rolled back.
save_with_previous-view_example :
    ConfigsView.IsAlike
      (Configs.save_with_previous driver (some broken) saving (config_table, 0))
      (MemoryConfigs.save_with_previous (some broken) saving (image row_to_config config_table, 0))
save_with_previous-view_example =
    ConfigsView.save_with_previous-view driver (some broken) saving config_table 0 driver-IsFaithful
      1000 refl config_table-IsKeyed (λ event log e h. refl)

abbrev bound_row : IdentityRow
bound_row = record {
  gateway_id = "gw_1";
  tenant_id = some "tenant_1";
  public_key_fingerprint = "key";
  certificate_pem = "pem";
  certificate_serial = "1";
  certificate_not_after = 5000;
  registered_at = 100;
  last_rotated_at = 100;
}

abbrev registrations : PostgresRegistrationStore
registrations = record { enrollment_tokens = []; gateway_identities = ("gw_1", bound_row) ∷ [] }

abbrev renewed : GatewayIdentity
renewed = record {
  gateway_id = "gw_1";
  public_key_fingerprint = "key_2";
  certificate_pem = "pem_2";
  certificate_serial = "2";
  certificate_not_after = aware 9000;
  registered_at = aware 200;
  last_rotated_at = aware 200;
  tenant_id = some "tenant_1";
}

registrations-IsKeyed : RegistrationView.IsKeyed registrations.gateway_identities
unfolding lookup
registrations-IsKeyed k row h = elim (Bool-cases ("gw_1" == k)) [
  | inl same ↦ cc ((string_eq.eqb_iff "gw_1" k).0 same, rw same at h)
  | inr other ↦ cc (rw other at h)
]

upsert_gateway_identity-view_example :
    ((Registration.upsert_gateway_identity driver renewed registrations).0
      ≡ (MemoryRegistration.upsert_gateway_identity
          (record renewed { registered_at = aware 100 })
          (RegistrationView.registrations_of registrations)).0)
    × (RegistrationView.registrations_of
          (Registration.upsert_gateway_identity driver renewed registrations).1
        ≡ (MemoryRegistration.upsert_gateway_identity
            (record renewed { registered_at = aware 100 })
            (RegistrationView.registrations_of registrations)).1)
unfolding lookup
upsert_gateway_identity-view_example =
    RegistrationView.upsert_gateway_identity-view driver driver-IsFaithful renewed
      (9000, 200, 200, refl, refl, refl) registrations registrations-IsKeyed

abbrev results : PostgresInventoryStore
results = record { job_results = []; certificate_records = [] }

abbrev record_id : ℕ → String
record_id i = "record"

abbrev marker : ResultRow
marker = record { received_at = 1999; record_count = 1 }

-- Another instance stores the result of the same attempt.
abbrev other_instance : PostgresInventoryStore → PostgresInventoryStore
other_instance s = record s { job_results = (("job_1", "attempt"), marker) ∷ [] }

abbrev first_outcome : SubmitResultOutcome
unfolding build certificate_record
first_outcome = Inventory.accepted_new (build record_id found found.certificates)

resubmission_is_duplicate_example :
    Inventory.submit_result driver record_id found other_instance
      (Inventory.submit_result driver record_id found (λ s. s) results).1
    ≡ (
      ok (Inventory.duplicate 1),
      (Inventory.submit_result driver record_id found (λ s. s) results).1,
    )
unfolding lookup Inventory.submit_result Inventory.insert_result Inventory.insert_records build
resubmission_is_duplicate_example =
    resubmission_is_duplicate driver record_id record_id found found (λ s. s) other_instance results
      first_outcome refl refl refl

abbrev old_event : EventRow
old_event = record {
  event_id = "e1";
  event_type = "RESULT_SUBMITTED";
  actor = "gw_1";
  tenant_id = some "tenant_1";
  resource_type = none;
  resource_id = none;
  detail = empty;
  occurred_at = 10;
}

abbrev less_old : EventRow
less_old = record old_event { event_id = "e2"; occurred_at = 20 }

abbrev events : PostgresAuditLogStore
events = ("e2", less_old) ∷ ("e1", old_event) ∷ []

purge_expired_oldest_example :
    (◌≡◌ {A = ℕ} 1 1)
    × (old_event.occurred_at < 50)
    × (old_event.occurred_at ≤ less_old.occurred_at)
unfolding lookup purge_expired expired_rows rows_without select filter sort insert
purge_expired_oldest_example =
    purge_expired_oldest driver driver-IsFaithful driver-IsReordering 50 1 events (refl, (refl, tt))
      1 "e1" "e2" old_event less_old refl refl refl refl (omega arith)

racing_submission_fails_example :
    let won = (Inventory.submit_result driver record_id found (λ x. x) results).1 in
    (Inventory.submit_result driver record_id found
        (λ x. (Inventory.submit_result driver record_id found (λ y. y) x).1)
        results
      ≡ (err database_error, won))
    × (Inventory.submit_result driver record_id found (λ x. x) won
        ≡ (ok (Inventory.duplicate 1), won))
unfolding lookup Inventory.submit_result Inventory.insert_result Inventory.insert_records build
racing_submission_fails_example =
    racing_submission_fails driver record_id record_id found found results first_outcome refl refl
      refl refl
