-- ===== src/Postgres/Principals/View.antt =====
-- A memory store of administrators (src/saas_job_api/rbac_store_memory.py) stored as the table of
-- `PostgresRbacStore` (src/saas_job_api/rbac_store_postgres.py).
use mathlib.Core.Path.{sym}
use saas_job_api.Prelude.{◌≡◌, refl, inl, inr, some, false, string_eq, Option-cases}
use saas_job_api.Result.{ok}
use saas_job_api.Dict.{lookup}
use saas_job_api.Rbac.{
  AdminPrincipal, AdminRole, MemoryRbacStore, platform_admin, tenant_admin, tenant_viewer,
}
use saas_job_api.Rbac as Memory
use saas_job_api.Postgres.{Driver, IsFaithful}
use saas_job_api.Postgres.Image.{image, lookup-image, image-put}
use saas_job_api.Postgres.Principals.{
  PrincipalRow, PostgresRbacStore, role_value, admin_role, principal_row, row_to_principal,
  has_principal_id,
}
use saas_job_api.Postgres.Principals as Principals
use saas_job_api.Postgres.Jobs.View.{IsAware}

admin_role-role_value : (role : AdminRole) → admin_role (role_value role) ≡ ok role
unfolding admin_role role_value
admin_role-role_value platform_admin = refl
admin_role-role_value tenant_admin = refl
admin_role-role_value tenant_viewer = refl

principal_row-back :
    (driver : Driver) (principal : AdminPrincipal)
    → IsFaithful driver
    → IsAware principal.created_at
    → row_to_principal (principal_row driver principal) ≡ ok principal
unfolding row_to_principal principal_row
principal_row-back driver principal faithful (t, at_t) =
    rw (admin_role-role_value principal.role, at_t, faithful.instant_aware t) refl

-- If the table has the rows of the administrators of a memory store and the id of a new one is
-- not taken, then both stores answer its creation alike, errors included, and the table has the
-- rows of what the memory store has then. Both find the same administrator by a username, if its
-- time of creation is aware. The driver stores an aware datetime as its instant.
pub rbac_store-view :
    (driver : Driver) (s : MemoryRbacStore) (new principal : AdminPrincipal)
    → IsFaithful driver
    → has_principal_id new.principal_id (image (principal_row driver) s) ≡ false
    → IsAware principal.created_at
    → lookup principal.username s ≡ some principal
    → ((Principals.create_principal driver new (image (principal_row driver) s)).0
        ≡ (Memory.create_principal new s).0)
      × ((Principals.create_principal driver new (image (principal_row driver) s)).1
          ≡ image (principal_row driver) (Memory.create_principal new s).1)
      × ((Principals.get_by_username principal.username (image (principal_row driver) s)).0
          ≡ (Memory.get_by_username principal.username s).0)
unfolding Principals.create_principal Memory.create_principal Principals.get_by_username
    Memory.get_by_username
rbac_store-view driver s new principal faithful fresh at_t found =
    let seen = lookup-image (principal_row driver) new.username s in
    let read : (Principals.get_by_username principal.username (image (principal_row driver) s)).0
        ≡ (Memory.get_by_username principal.username s).0 =
      rw
        (
          lookup-image (principal_row driver) principal.username s,
          found,
          principal_row-back driver principal faithful at_t,
        )
        refl in
    elim (Option-cases (lookup new.username s)) [
      | inr (row, taken) ↦ rw (seen, taken) (refl, refl, read)
      | inl free ↦
          rw (seen, free, fresh)
            (refl, sym (image-put (principal_row driver) new.username new s), read)
    ]
