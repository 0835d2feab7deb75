-- ===== src/Postgres/Inventory.antt =====
-- src/saas_job_api/inventory_store_postgres.py: `PostgresInventoryStore`, the tables `job_results`
-- and `certificate_records` by their primary keys.
pub mod View
pub mod Races
use saas_job_api.Prelude.{
  ℕ, String, Bool, true, false, Option, none, some, List, [], ◌∷◌, map, string_eq, pair_eq, length,
  take, ltb, is_none, option_beq, if◌then◌else◌,
}
use saas_job_api.Prelude.Int.{ℤ}
use saas_job_api.Result.{Result, ok, err, database_error, type_error}
use saas_job_api.Exec.{Exec, pure, require, lift, gets, modify, ◌>>=◌, ◌>>◌}
use saas_job_api.Time.{aware}
use saas_job_api.Dict.{Dict, lookup, put, values}
use saas_job_api.Sorting.{filter, sort}
use saas_job_api.Inventory.{CertificateRecord, SubmitResultOutcome, Submission, build}
use saas_job_api.Postgres.{Driver}
use saas_job_api.Postgres.Jobs.Queries.{limit_rows}
use saas_job_api.Postgres.Configs.{rolled_back, transaction}

pub record ResultRow : Type 0 where
  pub received_at : ℕ
  pub record_count : ℕ

pub record CertificateRow : Type 0 where
  pub record_id : String
  pub job_id : String
  pub attempt_token : String
  pub tenant_id : Option String
  pub target_id : Option String
  pub plugin_id : String
  pub plugin_version : String
  pub subject : String
  pub issuer : String
  pub serial_number : String
  pub valid_from : ℕ
  pub valid_to : ℕ
  pub fingerprint : String
  pub received_at : ℕ

pub record PostgresInventoryStore : Type 0 where
  pub job_results : Dict (String × String) ResultRow
  pub certificate_records : Dict String CertificateRow

unfoldable pub certificate_row : Driver → CertificateRecord → CertificateRow
certificate_row driver c = record {
  record_id = c.record_id;
  job_id = c.job_id;
  attempt_token = c.attempt_token;
  tenant_id = c.tenant_id;
  target_id = c.target_id;
  plugin_id = c.plugin_id;
  plugin_version = c.plugin_version;
  subject = c.subject;
  issuer = c.issuer;
  serial_number = c.serial_number;
  valid_from = driver.instant c.valid_from;
  valid_to = driver.instant c.valid_to;
  fingerprint = c.fingerprint;
  received_at = driver.instant c.received_at;
}

unfoldable pub row_to_certificate : CertificateRow → CertificateRecord
row_to_certificate row = record {
  record_id = row.record_id;
  job_id = row.job_id;
  attempt_token = row.attempt_token;
  tenant_id = row.tenant_id;
  target_id = row.target_id;
  plugin_id = row.plugin_id;
  plugin_version = row.plugin_version;
  certificate = record {
    subject = row.subject;
    issuer = row.issuer;
    serial_number = row.serial_number;
    valid_from = aware row.valid_from;
    valid_to = aware row.valid_to;
    fingerprint = row.fingerprint;
  };
  received_at = aware row.received_at;
}

abbrev pub duplicate : ℕ → SubmitResultOutcome
duplicate n = record { accepted = true; dedupe = true; record_count = n; records = [] }

abbrev pub accepted_new : List CertificateRecord → SubmitResultOutcome
accepted_new built = record {
  accepted = true;
  dedupe = false;
  record_count = length built;
  records = built;
}

-- The INSERTs of the loop. A new id that is taken violates the primary key.
unfoldable pub insert_records :
    Driver → List CertificateRecord → Exec PostgresInventoryStore (Unit {0})
unfolding certificate_row
insert_records driver [] s = (ok tt, s)
insert_records driver (c ∷ cs) s =
    let rest = insert_records driver cs (record s {
      certificate_records = put c.record_id (certificate_row driver c) s.certificate_records;
    }) in
    if is_none (lookup c.record_id s.certificate_records) then rest else (err database_error, s)

-- The INSERT of the marker.
abbrev pub marker_row : Driver → Submission → ResultRow
marker_row driver r = record {
  received_at = driver.instant r.received_at;
  record_count = length r.certificates;
}

abbrev pub marked : Driver → Submission → PostgresInventoryStore → PostgresInventoryStore
marked driver r s = record s {
  job_results = put (r.job_id, r.attempt_token) (marker_row driver r) s.job_results;
}

-- A statement of a transaction in which another has failed: PostgreSQL refuses it until the end of
-- the transaction.
abbrev pub aborted : {A : Type 0} → Exec PostgresInventoryStore A → Exec PostgresInventoryStore A
aborted statement s = (err database_error, s)

-- The SELECT of a marker.
abbrev pub marker_of : Submission → Exec PostgresInventoryStore (Option ResultRow)
marker_of r = gets (λ s. lookup (r.job_id, r.attempt_token) s.job_results)

-- The INSERT of the marker, the loop and the answer. The `except` branch comes after the INSERT has
-- failed, in the same transaction.
unfoldable pub insert_result :
    Driver → (ℕ → String) → Submission → Exec PostgresInventoryStore SubmitResultOutcome
unfolding insert_records build
insert_result driver new_id r = do
  marker ← marker_of r
  if is_none marker
      then (do
        modify (marked driver r)
        insert_records driver (build new_id r r.certificates)
        pure (accepted_new (build new_id r r.certificates)))
      else (do
        found ← aborted (marker_of r)
        existing ← require type_error found
        pure (duplicate existing.record_count))

-- The transaction, for the marker that its SELECT has found. In between, others commit.
abbrev pub submit_marked :
    Driver
    → (ℕ → String)
    → Submission
    → (PostgresInventoryStore → PostgresInventoryStore)
    → Option ResultRow
    → Exec PostgresInventoryStore SubmitResultOutcome
submit_marked driver new_id r others (some row) s = (ok (duplicate row.record_count), s)
submit_marked driver new_id r others none s = transaction (insert_result driver new_id r) (others s)

unfoldable pub submit_result :
    Driver
    → (ℕ → String)
    → Submission
    → (PostgresInventoryStore → PostgresInventoryStore)
    → Exec PostgresInventoryStore SubmitResultOutcome
unfolding insert_result
submit_result driver new_id r others s =
    submit_marked driver new_id r others (lookup (r.job_id, r.attempt_token) s.job_results) s

-- `WHERE tenant_id = $1 ORDER BY received_at DESC LIMIT $2`
unfoldable pub list_by_tenant :
    Driver → String → ℤ → Exec PostgresInventoryStore (List CertificateRecord)
unfolding row_to_certificate
list_by_tenant driver tenant_id limit s =
    (do
      count ← lift (limit_rows limit)
      matches ← lift (
          filter (λ row. ok (option_beq row.tenant_id (some tenant_id)))
            (driver.unordered (values s.certificate_records)))
      sorted ← lift (sort (λ a b. ok (ltb b.received_at a.received_at)) matches)
      pure (map row_to_certificate (take count sorted)))
      s
