-- ===== src/Postgres.antt =====
-- The stores over PostgreSQL (src/saas_job_api/*_store_postgres.py and store_postgres.py). A table is a dict from the
-- primary key to the row, and a query is a function of it. What the database and its driver
-- decide is a parameter.
pub mod Image
pub mod Jobs
pub mod Schedules
pub mod Configs
pub mod Registration
pub mod Inventory
pub mod Audit
pub mod Health
pub mod Principals
pub mod Tenants
pub mod Targets
use saas_job_api.Prelude.{ℕ, String, Bool, List, ◌≡◌, refl, string_eq, Option, none, some}
use mathlib.Core.Option
use saas_job_api.Dict.{Dict, lookup, IsUnique}
use saas_job_api.Time.{DateTime, aware}
use saas_job_api.Jobs.Claim.{text_lt}

pub record Driver : Type 1 where
  -- The instant that a `timestamptz` column holds for a datetime.
  pub instant : DateTime → ℕ
  -- The order of texts in `ORDER BY`.
  pub collate_lt : String → String → Bool
  -- The order of the rows that a query without `ORDER BY` gives.
  pub unordered : {A : Type 0} → List A → List A

-- A datetime that is aware of its time zone is stored as its instant, and the database compares
-- texts by code points (the collation "C").
pub record IsFaithful (driver : Driver) : Type 0 where
  pub instant_aware : (t : ℕ) → driver.instant (aware t) ≡ t
  pub collate_text : (a b : String) → driver.collate_lt a b ≡ text_lt a b

-- The order that the database chooses is an order of all the rows and of nothing else.
pub record IsReordering (driver : Driver) : Type 1 where
  pub keeps_keys : {V : Type 0} (d : Dict String V) → IsUnique d → IsUnique (driver.unordered d)
  pub keeps_rows :
      {V : Type 0} (d : Dict String V)
      → IsUnique d
      → (k : String) → lookup k (driver.unordered d) ≡ lookup k d

-- An aware datetime that may be absent comes back as it was stored.
pub times_back :
    (driver : Driver)
    → IsFaithful driver
    → (time : Option ℕ)
    → Option.map aware (Option.map driver.instant (Option.map aware time)) ≡ Option.map aware time
times_back driver faithful none = refl
times_back driver faithful (some t) = rw (faithful.instant_aware t) refl
