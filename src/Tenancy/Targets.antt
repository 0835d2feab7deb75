-- ===== src/Tenancy/Targets.antt =====
-- src/saas_job_api/target_store_memory.py
use Prim.Native.String.{◌++◌ as concat}
use saas_job_api.Prelude.{
  String, Option, none, some, List, [], ◌∷◌, string_eq, ◌==◌, is_none, if◌then◌else◌,
}
use saas_job_api.Result.{value_error, not_found}
use saas_job_api.Exec.{Exec, pure, raise, gets, modify, ◌>>=◌, ◌>>◌}
use saas_job_api.Dict.{Dict, lookup, put, remove, values}
use saas_job_api.Tenancy.{Target}

abbrev pub MemoryTargetStore : Type 0
MemoryTargetStore = Dict String Target

unfoldable pub create : Target → Exec MemoryTargetStore Target
create target = do
  found ← gets (lookup target.target_id)
  if is_none found
      then (do modify (put target.target_id target); pure target)
      else raise (value_error (concat "target_id already exists: " target.target_id))

-- A record of another tenant is not shown.
abbrev pub of_tenant : String → Option Target → Option Target
of_tenant tenant_id none = none
of_tenant tenant_id (some target) = if target.tenant_id == tenant_id then some target else none

unfoldable pub get : (tenant_id target_id : String) → Exec MemoryTargetStore (Option Target)
get tenant_id target_id = gets (λ s. of_tenant tenant_id (lookup target_id s))

-- `[t for t in targets if t.tenant_id == tenant_id]`
unfoldable pub owned_by : String → List Target → List Target
owned_by tenant_id [] = []
owned_by tenant_id (t ∷ ts) =
    let rest = owned_by tenant_id ts in if t.tenant_id == tenant_id then t ∷ rest else rest

unfoldable pub list_by_tenant : String → Exec MemoryTargetStore (List Target)
unfolding owned_by
list_by_tenant tenant_id = gets (λ s. owned_by tenant_id (values s))

unfoldable pub delete : (tenant_id target_id : String) → Exec MemoryTargetStore (Unit {0})
delete tenant_id target_id = do
  found ← gets (λ s. of_tenant tenant_id (lookup target_id s))
  if is_none found
      then raise (not_found (concat "target not found: " target_id))
      else modify (remove target_id)
