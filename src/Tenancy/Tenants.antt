-- ===== src/Tenancy/Tenants.antt =====
-- src/saas_job_api/tenant_store_memory.py
use Prim.Native.String.{◌++◌ as concat}
use saas_job_api.Prelude.{String, Option, List, string_eq, is_none, if◌then◌else◌}
use saas_job_api.Result.{value_error, not_found}
use saas_job_api.Exec.{Exec, pure, raise, gets, modify, ◌>>=◌, ◌>>◌}
use saas_job_api.Dict.{Dict, lookup, put, remove, values}
use saas_job_api.Tenancy.{Tenant}

abbrev pub MemoryTenantStore : Type 0
MemoryTenantStore = Dict String Tenant

unfoldable pub create : Tenant → Exec MemoryTenantStore Tenant
create tenant = do
  found ← gets (lookup tenant.tenant_id)
  if is_none found
      then (do modify (put tenant.tenant_id tenant); pure tenant)
      else raise (value_error (concat "tenant_id already exists: " tenant.tenant_id))

unfoldable pub get : String → Exec MemoryTenantStore (Option Tenant)
get tenant_id = gets (lookup tenant_id)

unfoldable pub list_all : Exec MemoryTenantStore (List Tenant)
list_all = gets values

unfoldable pub delete : String → Exec MemoryTenantStore (Unit {0})
delete tenant_id = do
  found ← gets (lookup tenant_id)
  if is_none found
      then raise (not_found (concat "tenant not found: " tenant_id))
      else modify (remove tenant_id)
