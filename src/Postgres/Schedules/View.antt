-- ===== src/Postgres/Schedules/View.antt =====
-- The table of `PostgresScheduleStore` (src/saas_job_api/schedule_store_postgres.py) seen as a
-- `MemoryScheduleStore`.
use mathlib.Core.Path.{ap, sym, ◌∙◌}
use mathlib.Core.Option
use saas_job_api.Prelude.{
  ℕ, String, ◌≡◌, refl, inl, inr, Option, none, some, string_eq, ◌==◌, Bool-cases, Option-cases,
}
use saas_job_api.Result.{ok}
use saas_job_api.Time.{aware}
use saas_job_api.Dict.{Dict, lookup}
use saas_job_api.Tenancy.{Schedule}
use saas_job_api.Tenancy.Schedules as Memory
use saas_job_api.Postgres.{Driver, IsFaithful, times_back}
use saas_job_api.Postgres.Image.{image, lookup-image, image-put, image-remove}
use saas_job_api.Postgres.Schedules.{
  ScheduleRow, PostgresScheduleStore, schedule_row, row_to_schedule, row_of_tenant, is_due,
  due_rows, advance_row, advance_rows, claimed_schedule, unlocked,
}
use saas_job_api.Postgres.Schedules as Schedules

abbrev pub schedules_of : PostgresScheduleStore → Dict String Schedule
schedules_of table = image row_to_schedule table

-- The datetimes of the schedule are aware.
abbrev pub IsAwareSchedule : Schedule → Type 0
IsAwareSchedule schedule =
    (next created : ℕ) × (last : Option ℕ) × (schedule.next_run_at ≡ aware next)
    × (schedule.created_at ≡ aware created)
    × (schedule.last_run_at ≡ Option.map aware last)

row_of_tenant-schedule :
    (tenant_id : String) (row : Option ScheduleRow)
    → Memory.of_tenant tenant_id (Option.map row_to_schedule row)
      ≡ Option.map row_to_schedule (row_of_tenant tenant_id row)
unfolding row_to_schedule
row_of_tenant-schedule tenant_id none = refl
row_of_tenant-schedule tenant_id (some row) = elim (Bool-cases (row.tenant_id == tenant_id)) [
  | inl own ↦ rw own refl
  | inr other ↦ rw other refl
]

schedule_row-back :
    (driver : Driver)
    → IsFaithful driver
    → (schedule : Schedule) → IsAwareSchedule schedule
    → row_to_schedule (schedule_row driver schedule) ≡ schedule
unfolding row_to_schedule schedule_row
schedule_row-back driver faithful schedule (next, created, last, n, c, l) =
    rw
      (
        n,
        c,
        l,
        faithful.instant_aware next,
        faithful.instant_aware created,
        times_back driver faithful last,
      )
      refl

-- The datetime is read back as it was stored, and a row is found by its id.
pub create-view :
    (driver : Driver) (schedule : Schedule) (s : PostgresScheduleStore)
    → IsFaithful driver
    → IsAwareSchedule schedule
    → ((Schedules.create driver schedule s).0 ≡ (Memory.create schedule (schedules_of s)).0)
      × (schedules_of (Schedules.create driver schedule s).1
          ≡ (Memory.create schedule (schedules_of s)).1)
unfolding Schedules.create Memory.create
create-view driver schedule s faithful h = elim (Option-cases (lookup schedule.schedule_id s)) [
  | inl free ↦
      rw (lookup-image row_to_schedule schedule.schedule_id s, free)
        (
          refl,
          image-put row_to_schedule schedule.schedule_id (schedule_row driver schedule) s
              ∙ rw (schedule_row-back driver faithful schedule h) refl,
        )
  | inr (row, taken) ↦ rw (lookup-image row_to_schedule schedule.schedule_id s, taken) (refl, refl)
]

pub get-view :
    (tenant_id schedule_id : String) (s : PostgresScheduleStore)
    → (Schedules.get tenant_id schedule_id s).0
      ≡ (Memory.get tenant_id schedule_id (schedules_of s)).0
unfolding Schedules.get Memory.get
get-view tenant_id schedule_id s =
    rw (lookup-image row_to_schedule schedule_id s)
      (ap ok (sym (row_of_tenant-schedule tenant_id (lookup schedule_id s))))

pub delete-view :
    (tenant_id schedule_id : String) (s : PostgresScheduleStore)
    → ((Schedules.delete tenant_id schedule_id s).0
        ≡ (Memory.delete tenant_id schedule_id (schedules_of s)).0)
      × (schedules_of (Schedules.delete tenant_id schedule_id s).1
          ≡ (Memory.delete tenant_id schedule_id (schedules_of s)).1)
unfolding Schedules.delete Memory.delete
delete-view tenant_id schedule_id s =
    elim (Option-cases (row_of_tenant tenant_id (lookup schedule_id s))) [
      | inl missing ↦
          rw
            (
              lookup-image row_to_schedule schedule_id s,
              row_of_tenant-schedule tenant_id (lookup schedule_id s),
              missing,
            )
            (refl, refl)
      | inr (row, found) ↦
          rw
            (
              lookup-image row_to_schedule schedule_id s,
              row_of_tenant-schedule tenant_id (lookup schedule_id s),
              found,
            )
            (refl, image-remove row_to_schedule schedule_id s)
    ]
