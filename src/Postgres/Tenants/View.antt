-- ===== src/Postgres/Tenants/View.antt =====
-- The table of `PostgresTenantStore` (src/saas_job_api/tenant_store_postgres.py) seen as a
-- `MemoryTenantStore`.
use mathlib.Core.Path.{◌∙◌}
use saas_job_api.Prelude.{String, ◌≡◌, refl, inl, inr, string_eq, Option-cases}
use saas_job_api.Dict.{lookup}
use saas_job_api.Tenancy.{Tenant}
use saas_job_api.Tenancy.Tenants as Memory
use saas_job_api.Postgres.{Driver, IsFaithful}
use saas_job_api.Postgres.Image.{image, lookup-image, image-put, image-remove, IsRefined}
use saas_job_api.Postgres.Tenants.{PostgresTenantStore, tenant_row, row_to_tenant}
use saas_job_api.Postgres.Tenants as Tenants
use saas_job_api.Postgres.Jobs.View.{IsAware}

tenant_row-back :
    (driver : Driver) (tenant : Tenant)
    → IsFaithful driver
    → IsAware tenant.created_at
    → row_to_tenant (tenant_row driver tenant) ≡ tenant
unfolding row_to_tenant tenant_row
tenant_row-back driver tenant faithful (t, at_t) = rw (at_t, faithful.instant_aware t) refl

-- PostgresTenantStore creates, gets and deletes a tenant as the memory store does that has the
-- tenants of the rows, errors included. The new tenant has an aware time, and the driver stores an
-- aware datetime as its instant.
pub tenant_store-view :
    (driver : Driver) (s : PostgresTenantStore) (tenant : Tenant) (id : String)
    → IsFaithful driver
    → IsAware tenant.created_at
    → IsRefined
        (image row_to_tenant)
        (Tenants.create driver tenant s)
        (Memory.create tenant (image row_to_tenant s))
      × IsRefined (image row_to_tenant) (Tenants.get id s) (Memory.get id (image row_to_tenant s))
      × IsRefined
          (image row_to_tenant)
          (Tenants.delete id s)
          (Memory.delete id (image row_to_tenant s))
unfolding Tenants.create Memory.create Tenants.get Memory.get Tenants.delete Memory.delete
tenant_store-view driver s tenant id faithful at_t = (
  elim (Option-cases (lookup tenant.tenant_id s)) [
    | inr (row, taken) ↦ rw (lookup-image row_to_tenant tenant.tenant_id s, taken) (refl, refl)
    | inl free ↦
        rw (lookup-image row_to_tenant tenant.tenant_id s, free)
          (
            refl,
            image-put row_to_tenant tenant.tenant_id (tenant_row driver tenant) s
                ∙ rw (tenant_row-back driver tenant faithful at_t) refl,
          )
  ],
  rw (lookup-image row_to_tenant id s) (refl, refl),
  elim (Option-cases (lookup id s)) [
    | inl missing ↦ rw (lookup-image row_to_tenant id s, missing) (refl, refl)
    | inr (row, found) ↦
        rw (lookup-image row_to_tenant id s, found) (refl, image-remove row_to_tenant id s)
  ],
)
