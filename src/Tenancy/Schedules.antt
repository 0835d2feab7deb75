-- ===== src/Tenancy/Schedules.antt =====
-- src/saas_job_api/schedule_store_memory.py
pub mod Laws
use Prim.Native.String.{◌++◌ as concat}
use saas_job_api.Prelude.{
  ℕ, String, Bool, true, false, Option, none, some, List, [], ◌∷◌, string_eq, ◌==◌, is_none,
  if◌then◌else◌,
}
use saas_job_api.Result.{Result, ok, value_error, not_found}
use saas_job_api.Time.{DateTime, is_by, is_before, later}
use saas_job_api.Dict.Select.{select}
use saas_job_api.Exec.{Exec, pure, raise, gets, lift, modify, ◌>>=◌, ◌>>◌}
use saas_job_api.Dict.{Dict, lookup, put, put_all, remove, values}
use saas_job_api.Tenancy.{Schedule}

abbrev pub MemoryScheduleStore : Type 0
MemoryScheduleStore = Dict String Schedule

unfoldable pub create : Schedule → Exec MemoryScheduleStore Schedule
create schedule = do
  found ← gets (lookup schedule.schedule_id)
  if is_none found
      then (do modify (put schedule.schedule_id schedule); pure schedule)
      else raise (value_error (concat "schedule_id already exists: " schedule.schedule_id))

-- A record of another tenant is not shown.
abbrev pub of_tenant : String → Option Schedule → Option Schedule
of_tenant tenant_id none = none
of_tenant tenant_id (some schedule) =
    if schedule.tenant_id == tenant_id then some schedule else none

unfoldable pub get : (tenant_id schedule_id : String) → Exec MemoryScheduleStore (Option Schedule)
get tenant_id schedule_id = gets (λ s. of_tenant tenant_id (lookup schedule_id s))

-- `[s for s in schedules if s.tenant_id == tenant_id]`
unfoldable pub owned_by : String → List Schedule → List Schedule
owned_by tenant_id [] = []
owned_by tenant_id (s ∷ ss) =
    let rest = owned_by tenant_id ss in if s.tenant_id == tenant_id then s ∷ rest else rest

unfoldable pub list_by_tenant : String → Exec MemoryScheduleStore (List Schedule)
unfolding owned_by
list_by_tenant tenant_id = gets (λ s. owned_by tenant_id (values s))

unfoldable pub delete : (tenant_id schedule_id : String) → Exec MemoryScheduleStore (Unit {0})
delete tenant_id schedule_id = do
  found ← gets (λ s. of_tenant tenant_id (lookup schedule_id s))
  if is_none found
      then raise (not_found (concat "schedule not found: " schedule_id))
      else modify (remove schedule_id)

-- `s.enabled and s.next_run_at <= now`
unfoldable pub is_due : DateTime → Schedule → Result Bool
unfolding is_by
is_due now schedule = if schedule.enabled then is_by schedule.next_run_at now else ok false

-- `key=lambda s: s.next_run_at`
unfoldable pub runs_before : Schedule → Schedule → Result Bool
unfolding is_before
runs_before a b = is_before a.next_run_at b.next_run_at

-- The body of the loop over the claimed schedules.
unfoldable pub advance : DateTime → Schedule → Schedule
advance now schedule = record schedule {
  last_run_at = some now;
  next_run_at = later now schedule.interval_seconds;
}

unfoldable pub advance_each : DateTime → Dict String Schedule → Dict String Schedule
unfolding advance
advance_each now [] = []
advance_each now ((k, s) ∷ due) = (k, advance now s) ∷ advance_each now due

-- `claimed`: the entries that `claim_due` takes.
unfoldable pub due_schedules : DateTime → ℕ → MemoryScheduleStore → Result MemoryScheduleStore
due_schedules now limit = select (is_due now) runs_before limit

unfoldable pub claim_due : DateTime → ℕ → Exec MemoryScheduleStore (List Schedule)
claim_due now limit = do
  schedules ← gets (λ s. s)
  claimed ← lift (due_schedules now limit schedules)
  let changed = advance_each now claimed
  modify (put_all changed)
  pure (values changed)
