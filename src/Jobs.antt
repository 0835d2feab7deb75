-- ===== src/Jobs.antt =====
-- src/saas_job_api/domain.py: the record of a job.
pub mod Store
pub mod Claim
pub mod Receipts
pub mod Reissue
pub mod Lifecycle
use saas_job_api.Prelude.{ℕ, String, Bool, true, false, Option, none, some, List, [], ◌∷◌}
use saas_job_api.Prelude.Int.{ℤ}
use saas_job_api.Result.{Result, ok}
use saas_job_api.Time.{DateTime, is_by}
use saas_job_api.Dict.{Dict}

pub data JobState : Type 0 where
  available reserved acknowledged completed : JobState

-- The values that the program puts into payloads: null, a text, and the text `{host}:{port}`.
pub data PayloadValue : Type 0 where
  null : PayloadValue
  text : String → PayloadValue
  endpoint : String → ℤ → PayloadValue

pub record JobRecord : Type 0 where
  pub job_id : String
  pub job_type : String
  pub manifest_version : String
  pub priority : ℤ
  pub scheduled_at : DateTime
  pub correlation_id : String
  pub payload : Dict String PayloadValue
  pub max_attempts : ℤ
  pub trace_id : Option String
  pub state : JobState
  pub receipt_token : Option String
  pub reserved_by : Option String
  pub reservation_until : Option DateTime
  pub delivery_attempts : ℕ
  pub acknowledged_receipts : List (String × String)
  pub ack_gateway_id : Option String
  pub ack_received_at : Option DateTime
  pub ack_payload_hash : Option String
  pub ack_local_record_version : Option ℤ

abbrev pub is_acknowledged : JobState → Bool
is_acknowledged acknowledged = true
is_acknowledged _ = false

abbrev pub is_completed : JobState → Bool
is_completed completed = true
is_completed _ = false

-- `reservation_until is not None and reservation_until <= now`
abbrev is_expired : Option DateTime → DateTime → Result Bool
is_expired none now = ok false
is_expired (some until) now = is_by until now

abbrev is_eligible_in : JobState → Option DateTime → DateTime → Result Bool
is_eligible_in available until now = ok true
is_eligible_in reserved until now = is_expired until now
is_eligible_in acknowledged until now = ok false
is_eligible_in completed until now = ok false

unfoldable pub is_eligible : JobRecord → DateTime → Result Bool
unfolding is_by
is_eligible job now = is_eligible_in job.state job.reservation_until now

-- The fields that a caller gives to a new record.
pub record NewJob : Type 0 where
  pub job_id : String
  pub job_type : String
  pub manifest_version : String
  pub priority : ℤ
  pub scheduled_at : DateTime
  pub correlation_id : String
  pub payload : Dict String PayloadValue
  pub max_attempts : ℤ
  pub trace_id : Option String

-- `JobRecord(...)`: all other fields have the defaults of the dataclass.
unfoldable pub new_job : NewJob → JobRecord
new_job n = record {
  job_id = n.job_id;
  job_type = n.job_type;
  manifest_version = n.manifest_version;
  priority = n.priority;
  scheduled_at = n.scheduled_at;
  correlation_id = n.correlation_id;
  payload = n.payload;
  max_attempts = n.max_attempts;
  trace_id = n.trace_id;
  state = available;
  receipt_token = none;
  reserved_by = none;
  reservation_until = none;
  delivery_attempts = 0;
  acknowledged_receipts = [];
  ack_gateway_id = none;
  ack_received_at = none;
  ack_payload_hash = none;
  ack_local_record_version = none;
}

-- `payload.get(key)` for a key whose values are ids; an endpoint is never under such a key.
abbrev pub payload_text : Option PayloadValue → Option String
payload_text none = none
payload_text (some null) = none
payload_text (some (text t)) = some t
payload_text (some (endpoint host port)) = none
