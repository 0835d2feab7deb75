-- ===== src/Postgres/Tenants.antt =====
-- src/saas_job_api/tenant_store_postgres.py: `PostgresTenantStore`, the table `tenants` by its
-- primary key.
pub mod View
use Prim.Native.String.{◌++◌ as concat}
use mathlib.Core.Option
use saas_job_api.Prelude.{
  ℕ, String, Bool, Option, List, map, string_eq, is_none, ltb, if◌then◌else◌,
}
use saas_job_api.Result.{ok, value_error, not_found}
use saas_job_api.Exec.{Exec, pure, raise, lift, gets, modify, ◌>>=◌, ◌>>◌}
use saas_job_api.Time.{aware}
use saas_job_api.Dict.{Dict, lookup, put, remove, values}
use saas_job_api.Sorting.{sort}
use saas_job_api.Tenancy.{Tenant}
use saas_job_api.Postgres.{Driver}

pub record TenantRow : Type 0 where
  pub tenant_id : String
  pub name : String
  pub created_at : ℕ
  pub is_active : Bool

abbrev pub PostgresTenantStore : Type 0
PostgresTenantStore = Dict String TenantRow

unfoldable pub tenant_row : Driver → Tenant → TenantRow
tenant_row driver tenant = record {
  tenant_id = tenant.tenant_id;
  name = tenant.name;
  created_at = driver.instant tenant.created_at;
  is_active = tenant.is_active;
}

unfoldable pub row_to_tenant : TenantRow → Tenant
row_to_tenant row = record {
  tenant_id = row.tenant_id;
  name = row.name;
  created_at = aware row.created_at;
  is_active = row.is_active;
}

unfoldable pub create : Driver → Tenant → Exec PostgresTenantStore Tenant
unfolding tenant_row
create driver tenant = do
  found ← gets (lookup tenant.tenant_id)
  if is_none found
      then (do modify (put tenant.tenant_id (tenant_row driver tenant)); pure tenant)
      else raise (value_error (concat "tenant_id already exists: " tenant.tenant_id))

unfoldable pub get : String → Exec PostgresTenantStore (Option Tenant)
unfolding row_to_tenant
get tenant_id = gets (λ s. Option.map row_to_tenant (lookup tenant_id s))

-- `ORDER BY created_at`
unfoldable pub list_all : Driver → Exec PostgresTenantStore (List Tenant)
unfolding row_to_tenant
list_all driver = do
  table ← gets (λ s. s)
  rows ← lift (sort (λ a b. ok (ltb a.created_at b.created_at)) (driver.unordered (values table)))
  pure (map row_to_tenant rows)

unfoldable pub delete : String → Exec PostgresTenantStore (Unit {0})
delete tenant_id = do
  found ← gets (lookup tenant_id)
  if is_none found
      then raise (not_found (concat "tenant not found: " tenant_id))
      else modify (remove tenant_id)
