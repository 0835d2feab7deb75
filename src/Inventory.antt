-- ===== src/Inventory.antt =====
-- src/saas_job_api/inventory.py and inventory_store_memory.py: the certificates that jobs found.
pub mod Laws
use saas_job_api.Prelude.{
  ℕ, zero, suc, String, Bool, true, false, Option, none, some, List, [], ◌∷◌, string_eq, pair_eq,
  option_beq, length, take, if◌then◌else◌,
}
use saas_job_api.Prelude.Int.{ℤ, pos_part}
use saas_job_api.Result.{Result, ok, ◌>>=◌}
use saas_job_api.Exec.{Exec}
use saas_job_api.Time.{DateTime, is_before}
use saas_job_api.Dict.{Dict, lookup, put, values}
use saas_job_api.Sorting.{filter, sort}

-- models/results.py: `CertificateRecordRequest`.
pub record Certificate : Type 0 where
  pub subject : String
  pub issuer : String
  pub serial_number : String
  pub valid_from : DateTime
  pub valid_to : DateTime
  pub fingerprint : String

pub record CertificateRecord : Type 0 where
  pub record_id : String
  pub job_id : String
  pub attempt_token : String
  pub tenant_id : Option String
  pub target_id : Option String
  pub plugin_id : String
  pub plugin_version : String
  pub certificate : Certificate
  pub open certificate use *
  pub received_at : DateTime

pub record SubmitResultOutcome : Type 0 where
  pub accepted : Bool
  pub dedupe : Bool
  pub record_count : ℕ
  pub records : List CertificateRecord

pub record MemoryInventoryStore : Type 0 where
  pub markers : Dict (String × String) ℕ
  pub records : Dict String CertificateRecord

-- The arguments of `submit_result`.
pub record Submission : Type 0 where
  pub job_id : String
  pub attempt_token : String
  pub tenant_id : Option String
  pub target_id : Option String
  pub plugin_id : String
  pub plugin_version : String
  pub certificates : List Certificate
  pub received_at : DateTime

unfoldable pub certificate_record : String → Submission → Certificate → CertificateRecord
certificate_record record_id r raw = record {
  record_id = record_id;
  job_id = r.job_id;
  attempt_token = r.attempt_token;
  tenant_id = r.tenant_id;
  target_id = r.target_id;
  plugin_id = r.plugin_id;
  plugin_version = r.plugin_version;
  certificate = raw;
  received_at = r.received_at;
}

-- The loop over the certificates. The i-th record gets the i-th new id.
unfoldable pub build : (ℕ → String) → Submission → List Certificate → List CertificateRecord
unfolding certificate_record
build new_id r [] = []
build new_id r (raw ∷ rest) =
    certificate_record (new_id 0) r raw ∷ build (λ i. new_id (suc i)) r rest

unfoldable pub store_all :
    List CertificateRecord → Dict String CertificateRecord → Dict String CertificateRecord
unfolding put
store_all [] d = d
store_all (c ∷ cs) d = store_all cs (put c.record_id c d)

abbrev pub submitted :
    (ℕ → String)
    → Submission
    → MemoryInventoryStore
    → Option ℕ
    → Result SubmitResultOutcome × MemoryInventoryStore
submitted new_id r s (some n) =
    (ok (record { accepted = true; dedupe = true; record_count = n; records = [] }), s)
submitted new_id r s none =
    let built = build new_id r r.certificates in
    (
      ok (record { accepted = true; dedupe = false; record_count = length built; records = built }),
      record {
        markers = put (r.job_id, r.attempt_token) (length built) s.markers;
        records = store_all built s.records;
      },
    )

unfoldable pub submit_result :
    (ℕ → String) → Submission → Exec MemoryInventoryStore SubmitResultOutcome
unfolding build store_all
submit_result new_id r s = submitted new_id r s (lookup (r.job_id, r.attempt_token) s.markers)

unfoldable pub newest_first : CertificateRecord → CertificateRecord → Result Bool
unfolding is_before
newest_first a b = is_before b.received_at a.received_at

unfoldable pub list_by_tenant : String → ℤ → Exec MemoryInventoryStore (List CertificateRecord)
unfolding newest_first
list_by_tenant tenant_id limit s = (
  (do
    matches ← filter (λ c. ok (option_beq c.tenant_id (some tenant_id))) (values s.records)
    sorted ← sort newest_first matches
    ok (take (pos_part limit) sorted)),
  s,
)
