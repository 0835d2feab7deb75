-- ===== src/Postgres/Targets/View.antt =====
-- The table of `PostgresTargetStore` (src/saas_job_api/target_store_postgres.py) seen as a
-- `MemoryTargetStore`.
use mathlib.Core.Path.{◌∙◌}
use mathlib.Core.Option
use saas_job_api.Prelude.{
  String, ◌≡◌, refl, inl, inr, Option, none, some, string_eq, ◌==◌, Bool-cases, Option-cases,
}
use saas_job_api.Dict.{lookup}
use saas_job_api.Tenancy.{Target}
use saas_job_api.Tenancy.Targets as Memory
use saas_job_api.Postgres.{Driver, IsFaithful}
use saas_job_api.Postgres.Image.{image, lookup-image, image-put, image-remove, IsRefined}
use saas_job_api.Postgres.Targets.{
  PostgresTargetStore, TargetRow, target_row, row_to_target, row_of_tenant,
}
use saas_job_api.Postgres.Targets as Targets
use saas_job_api.Postgres.Jobs.View.{IsAware}

target_row-back :
    (driver : Driver) (target : Target)
    → IsFaithful driver
    → IsAware target.created_at
    → row_to_target (target_row driver target) ≡ target
unfolding row_to_target target_row
target_row-back driver target faithful (t, at_t) = rw (at_t, faithful.instant_aware t) refl

row_of_tenant-target :
    (tenant_id : String) (row : Option TargetRow)
    → Memory.of_tenant tenant_id (Option.map row_to_target row)
      ≡ Option.map row_to_target (row_of_tenant tenant_id row)
unfolding row_to_target
row_of_tenant-target tenant_id none = refl
row_of_tenant-target tenant_id (some row) = elim (Bool-cases (row.tenant_id == tenant_id)) [
  | inl own ↦ rw own refl
  | inr other ↦ rw other refl
]

-- PostgresTargetStore creates a target, and gets and deletes one for a tenant, as the memory store
-- does that has the targets of the rows, errors included. The new target has an aware time, and
-- the driver stores an aware datetime as its instant.
pub target_store-view :
    (driver : Driver) (s : PostgresTargetStore) (target : Target) (tenant_id id : String)
    → IsFaithful driver
    → IsAware target.created_at
    → IsRefined
        (image row_to_target)
        (Targets.create driver target s)
        (Memory.create target (image row_to_target s))
      × IsRefined
          (image row_to_target)
          (Targets.get tenant_id id s)
          (Memory.get tenant_id id (image row_to_target s))
      × IsRefined
          (image row_to_target)
          (Targets.delete tenant_id id s)
          (Memory.delete tenant_id id (image row_to_target s))
unfolding Targets.create Memory.create Targets.get Memory.get Targets.delete Memory.delete
target_store-view driver s target tenant_id id faithful at_t =
    let seen = lookup-image row_to_target id s in
    let owned = row_of_tenant-target tenant_id (lookup id s) in
    (
      elim (Option-cases (lookup target.target_id s)) [
        | inr (row, taken) ↦ rw (lookup-image row_to_target target.target_id s, taken) (refl, refl)
        | inl free ↦
            rw (lookup-image row_to_target target.target_id s, free)
              (
                refl,
                image-put row_to_target target.target_id (target_row driver target) s
                    ∙ rw (target_row-back driver target faithful at_t) refl,
              )
      ],
      rw (seen, owned) (refl, refl),
      elim (Option-cases (row_of_tenant tenant_id (lookup id s))) [
        | inl missing ↦ rw (seen, owned, missing) (refl, refl)
        | inr (row, found) ↦ rw (seen, owned, found) (refl, image-remove row_to_target id s)
      ],
    )
