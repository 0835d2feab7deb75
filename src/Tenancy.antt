-- ===== src/Tenancy.antt =====
-- src/saas_job_api/tenancy.py, tenant_store_memory.py and target_store_memory.py.
pub mod Tenants
pub mod Targets
pub mod Schedules
use saas_job_api.Prelude.{ℕ, String, Bool, Option}
use saas_job_api.Prelude.Int.{ℤ}
use saas_job_api.Time.{DateTime}

pub record Tenant : Type 0 where
  pub tenant_id : String
  pub name : String
  pub created_at : DateTime
  pub is_active : Bool

pub record Target : Type 0 where
  pub target_id : String
  pub tenant_id : String
  pub name : String
  pub host : String
  pub port : ℤ
  pub plugin_ref : String
  pub plugin_version : String
  pub created_at : DateTime
  pub credential_ref : Option String

-- The interval of a stored schedule is positive (see `create_schedule`), so it is a number.
pub record Schedule : Type 0 where
  pub schedule_id : String
  pub tenant_id : String
  pub target_id : String
  pub job_type : String
  pub manifest_version : String
  pub interval_seconds : ℕ
  pub next_run_at : DateTime
  pub created_at : DateTime
  pub enabled : Bool
  pub last_run_at : Option DateTime
