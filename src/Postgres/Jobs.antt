-- ===== src/Postgres/Jobs.antt =====
-- src/saas_job_api/store_postgres.py: `PostgresJobStore`. A transaction is one step. What it reads
-- from the clocks and draws as tokens are arguments. A row has its columns in the table `jobs` of
-- the migrations; `updated_at` is left out, since no query reads it, and so are the limits on the
-- length of a text and the size of an integer. A payload comes back from its JSON as it went in.
pub mod Queries
pub mod Updates
pub mod Index
pub mod View
pub mod Filters
use saas_job_api.Prelude.{
  ℕ, String, Bool, true, false, Option, none, some, List, [], ◌∷◌, foldl, string_eq, pair_eq,
  contains, if◌then◌else◌,
}
use mathlib.Core.Option
use saas_job_api.Prelude.Int.{ℤ}
use saas_job_api.Time.{DateTime, aware}
use saas_job_api.Dict.{Dict, add}
use saas_job_api.Jobs.{JobState, JobRecord, PayloadValue}
use saas_job_api.Jobs.Store.{PendingFault}
use saas_job_api.Postgres.{Driver}

pub record JobRow : Type 0 where
  pub job_id : String
  pub job_type : String
  pub manifest_version : String
  pub priority : ℤ
  pub payload : Dict String PayloadValue
  pub max_attempts : ℤ
  pub state : JobState
  pub correlation_id : String
  pub trace_id : Option String
  pub scheduled_at : ℕ
  pub receipt_token : Option String
  pub reserved_by : Option String
  pub reservation_until : Option ℕ
  pub delivery_attempts : ℕ
  pub ack_gateway_id : Option String
  pub ack_received_at : Option ℕ
  pub ack_payload_hash : Option String
  pub ack_local_record_version : Option ℤ
  pub acknowledged_receipts : List (String × String)
  pub created_at : ℕ

-- The table `jobs` by its primary key, the table `job_interruption_receipts`, and the fault, which
-- is kept in memory.
pub record PostgresJobStore : Type 0 where
  pub reservation_ttl_seconds : ℕ
  pub jobs : Dict String JobRow
  pub pending_fault : Option PendingFault
  pub job_interruption_receipts : List (String × (String × String))

-- The columns of the INSERT; the others get the defaults of the table.
unfoldable pub inserted : Driver → DateTime → JobRecord → JobRow
inserted driver now job = record {
  job_id = job.job_id;
  job_type = job.job_type;
  manifest_version = job.manifest_version;
  priority = job.priority;
  payload = job.payload;
  max_attempts = job.max_attempts;
  state = job.state;
  correlation_id = job.correlation_id;
  trace_id = job.trace_id;
  scheduled_at = driver.instant job.scheduled_at;
  receipt_token = none;
  reserved_by = none;
  reservation_until = none;
  delivery_attempts = 0;
  ack_gateway_id = none;
  ack_received_at = none;
  ack_payload_hash = none;
  ack_local_record_version = none;
  acknowledged_receipts = [];
  created_at = driver.instant now;
}

-- `set(tuple(pair) for pair in ...)`
unfoldable pub set_of : List (String × String) → List (String × String) → List (String × String)
unfolding add
set_of seen [] = seen
set_of seen (pair ∷ pairs) = set_of (add pair seen) pairs

-- A `timestamptz` comes back as an aware datetime.
unfoldable pub row_to_record : JobRow → JobRecord
unfolding set_of
row_to_record row = record {
  job_id = row.job_id;
  job_type = row.job_type;
  manifest_version = row.manifest_version;
  priority = row.priority;
  scheduled_at = aware row.scheduled_at;
  correlation_id = row.correlation_id;
  payload = row.payload;
  max_attempts = row.max_attempts;
  trace_id = row.trace_id;
  state = row.state;
  receipt_token = row.receipt_token;
  reserved_by = row.reserved_by;
  reservation_until = Option.map aware row.reservation_until;
  delivery_attempts = row.delivery_attempts;
  acknowledged_receipts = set_of [] row.acknowledged_receipts;
  ack_gateway_id = row.ack_gateway_id;
  ack_received_at = Option.map aware row.ack_received_at;
  ack_payload_hash = row.ack_payload_hash;
  ack_local_record_version = row.ack_local_record_version;
}
