-- ===== src/Rbac.antt =====
-- src/saas_job_api/identity.py and rbac_store_memory.py: the administrators.
use Prim.Native.String.{◌++◌ as concat}
use saas_job_api.Prelude.{String, Option, string_eq, is_none, if◌then◌else◌}
use saas_job_api.Result.{value_error}
use saas_job_api.Exec.{Exec, pure, raise, gets, modify, ◌>>=◌, ◌>>◌}
use saas_job_api.Time.{DateTime}
use saas_job_api.Dict.{Dict, lookup, put}

pub data AdminRole : Type 0 where
  platform_admin tenant_admin tenant_viewer : AdminRole

pub record AdminPrincipal : Type 0 where
  pub principal_id : String
  pub username : String
  pub password_hash : String
  pub role : AdminRole
  pub created_at : DateTime
  pub tenant_id : Option String

abbrev pub MemoryRbacStore : Type 0
MemoryRbacStore = Dict String AdminPrincipal

unfoldable pub create_principal : AdminPrincipal → Exec MemoryRbacStore AdminPrincipal
create_principal principal = do
  found ← gets (lookup principal.username)
  if is_none found
      then (do modify (put principal.username principal); pure principal)
      else raise (value_error (concat "username already exists: " principal.username))

unfoldable pub get_by_username : String → Exec MemoryRbacStore (Option AdminPrincipal)
get_by_username username = gets (lookup username)
