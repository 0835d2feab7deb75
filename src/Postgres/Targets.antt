-- ===== src/Postgres/Targets.antt =====
-- src/saas_job_api/target_store_postgres.py: `PostgresTargetStore`, the table `targets` by its
-- primary key.
pub mod View
use Prim.Native.String.{◌++◌ as concat}
use mathlib.Core.Option
use saas_job_api.Prelude.{
  ℕ, String, Bool, Option, none, some, List, [], ◌∷◌, map, string_eq, ◌==◌, is_none, ltb,
  if◌then◌else◌,
}
use saas_job_api.Prelude.Int.{ℤ}
use saas_job_api.Result.{ok, value_error, not_found}
use saas_job_api.Exec.{Exec, pure, raise, lift, gets, modify, ◌>>=◌, ◌>>◌}
use saas_job_api.Time.{aware}
use saas_job_api.Dict.{Dict, lookup, put, remove, values}
use saas_job_api.Sorting.{sort}
use saas_job_api.Tenancy.{Target}
use saas_job_api.Postgres.{Driver}

pub record TargetRow : Type 0 where
  pub target_id : String
  pub tenant_id : String
  pub name : String
  pub host : String
  pub port : ℤ
  pub plugin_ref : String
  pub plugin_version : String
  pub credential_ref : Option String
  pub created_at : ℕ

abbrev pub PostgresTargetStore : Type 0
PostgresTargetStore = Dict String TargetRow

unfoldable pub target_row : Driver → Target → TargetRow
target_row driver target = record {
  target_id = target.target_id;
  tenant_id = target.tenant_id;
  name = target.name;
  host = target.host;
  port = target.port;
  plugin_ref = target.plugin_ref;
  plugin_version = target.plugin_version;
  credential_ref = target.credential_ref;
  created_at = driver.instant target.created_at;
}

unfoldable pub row_to_target : TargetRow → Target
row_to_target row = record {
  target_id = row.target_id;
  tenant_id = row.tenant_id;
  name = row.name;
  host = row.host;
  port = row.port;
  plugin_ref = row.plugin_ref;
  plugin_version = row.plugin_version;
  credential_ref = row.credential_ref;
  created_at = aware row.created_at;
}

unfoldable pub create : Driver → Target → Exec PostgresTargetStore Target
unfolding target_row
create driver target = do
  found ← gets (lookup target.target_id)
  if is_none found
      then (do modify (put target.target_id (target_row driver target)); pure target)
      else raise (value_error (concat "target_id already exists: " target.target_id))

-- `WHERE target_id = $1 AND tenant_id = $2`, for the row with the id.
abbrev pub row_of_tenant : String → Option TargetRow → Option TargetRow
row_of_tenant tenant_id none = none
row_of_tenant tenant_id (some row) = if row.tenant_id == tenant_id then some row else none

unfoldable pub get : (tenant_id target_id : String) → Exec PostgresTargetStore (Option Target)
unfolding row_to_target
get tenant_id target_id =
    gets (λ s. Option.map row_to_target (row_of_tenant tenant_id (lookup target_id s)))

-- `WHERE tenant_id = $1`
unfoldable pub rows_of_tenant : String → List TargetRow → List TargetRow
rows_of_tenant tenant_id [] = []
rows_of_tenant tenant_id (row ∷ rows) =
    let rest = rows_of_tenant tenant_id rows in
    if row.tenant_id == tenant_id then row ∷ rest else rest

-- `ORDER BY created_at`
unfoldable pub list_by_tenant : Driver → String → Exec PostgresTargetStore (List Target)
unfolding rows_of_tenant row_to_target
list_by_tenant driver tenant_id = do
  table ← gets (λ s. s)
  rows ← lift (
      sort (λ a b. ok (ltb a.created_at b.created_at))
        (driver.unordered (rows_of_tenant tenant_id (values table))))
  pure (map row_to_target rows)

unfoldable pub delete : (tenant_id target_id : String) → Exec PostgresTargetStore (Unit {0})
delete tenant_id target_id = do
  found ← gets (λ s. row_of_tenant tenant_id (lookup target_id s))
  if is_none found
      then raise (not_found (concat "target not found: " target_id))
      else modify (remove target_id)
