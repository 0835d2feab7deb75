-- ===== src/Postgres/Schedules/Claims.antt =====
-- What `claim_due` of `PostgresScheduleStore` (src/saas_job_api/schedule_store_postgres.py) claims,
-- seen in the memory store.
use mathlib.Core.Path.{ap, sym, ◌∙◌}
use saas_job_api.Prelude.{
  ℕ, String, ◌≡◌, refl, inl, inr, Bool, true, ◌+◌, ltb, arith, if◌then◌else◌, none, [], ◌∷◌, map,
  string_eq, Bool-cases, Option-cases,
}
use saas_job_api.Result.{ok, map_ok, Result-cases}
use saas_job_api.Time.{aware, is_by, is_before}
use saas_job_api.Dict.{Dict, lookup, put_all, values, IsUnique}
use saas_job_api.Dict.Laws.{lookup-put_all}
use saas_job_api.Tenancy.{Schedule}
use saas_job_api.Tenancy.Schedules as Memory
use saas_job_api.Postgres.{Driver, IsFaithful, IsReordering}
use saas_job_api.Postgres.Image.{image, lookup-image, image-put_all, image-select}
use saas_job_api.Postgres.Schedules.{
  ScheduleRow, PostgresScheduleStore, schedule_row, row_to_schedule, row_of_tenant, is_due,
  due_rows, advance_row, advance_rows, claimed_schedule, unlocked,
}
use saas_job_api.Postgres.Schedules as Schedules
use saas_job_api.Postgres.Schedules.View.{schedules_of}
use saas_job_api.Postgres.Image.{image-IsUnique}
use saas_job_api.Postgres.Schedules.Rows.{due_rows-IsUnique, due_rows_sound, lookup-free_rows}

is_due-schedule :
    (t : ℕ) (row : ScheduleRow) → Memory.is_due (aware t) (row_to_schedule row) ≡ ok (is_due t row)
unfolding Memory.is_due is_due row_to_schedule is_by
is_due-schedule t row = ground arith

runs_before-schedule :
    (a b : ScheduleRow)
    → Memory.runs_before (row_to_schedule a) (row_to_schedule b)
      ≡ ok (ltb a.next_run_at b.next_run_at)
unfolding Memory.runs_before row_to_schedule is_before
runs_before-schedule a b = refl

module _ (driver : Driver) (faithful : IsFaithful driver) (t : ℕ) where
  advance_row-schedule :
      (row : ScheduleRow)
      → row_to_schedule (advance_row driver (aware t) row)
        ≡ Memory.advance (aware t) (row_to_schedule row)
  unfolding row_to_schedule advance_row Memory.advance
  advance_row-schedule row =
      rw (faithful.instant_aware t, faithful.instant_aware (t + row.interval_seconds)) refl

  advance_rows-schedules :
      (rows : PostgresScheduleStore)
      → schedules_of (advance_rows driver (aware t) rows)
        ≡ Memory.advance_each (aware t) (schedules_of rows)
  unfolding image Memory.advance_each
  advance_rows-schedules [] = refl
  advance_rows-schedules ((k, row) ∷ rows) = rw (advance_row-schedule row) (
      ap (λ r. (k, Memory.advance (aware t) (row_to_schedule row)) ∷ r)
        (advance_rows-schedules rows))

  answer-schedules :
      (rows : PostgresScheduleStore)
      → map (claimed_schedule (aware t)) (values rows)
        ≡ values (Memory.advance_each (aware t) (schedules_of rows))
  unfolding image claimed_schedule row_to_schedule Memory.advance_each Memory.advance
  answer-schedules [] = refl
  answer-schedules ((k, row) ∷ rows) =
      ap (λ r. claimed_schedule (aware t) row ∷ r) (answer-schedules rows)

module _ (driver : Driver) (faithful : IsFaithful driver) (is_locked : String → Bool) (t n : ℕ)
    (table : PostgresScheduleStore) where
  -- The rows that the query locks are the schedules that the memory store would claim of those
  -- that are not locked.
  due_rows-schedules :
      Memory.due_schedules (aware t) n (schedules_of (unlocked is_locked (driver.unordered table)))
      ≡ map_ok schedules_of (due_rows driver is_locked t n table)
  unfolding due_rows Memory.due_schedules
  due_rows-schedules =
      image-select row_to_schedule _ _ _ _ n (is_due-schedule t) runs_before-schedule
        (unlocked is_locked (driver.unordered table))

  module _ (reorders : IsReordering driver) (u : IsUnique table) where
    lookup-free_schedules :
        (k : String)
        → lookup k (schedules_of (unlocked is_locked (driver.unordered table)))
          ≡ (if is_locked k then none else lookup k (schedules_of table))
    lookup-free_schedules k = elim (Bool-cases (is_locked k)) [
      | inl held ↦
          rw
            (
              lookup-image row_to_schedule k (unlocked is_locked (driver.unordered table)),
              lookup-free_rows driver reorders is_locked table u k,
              held,
            )
            refl
      | inr free ↦
          rw
            (
              lookup-image row_to_schedule k (unlocked is_locked (driver.unordered table)),
              lookup-image row_to_schedule k table,
              lookup-free_rows driver reorders is_locked table u k,
              free,
            )
            refl
    ]

    module _ {rows : PostgresScheduleStore}
        (c : due_rows driver is_locked t n table ≡ ok rows) where
      held_row : (k : String) → is_locked k ≡ true → lookup k rows ≡ none
      held_row k held = elim (Option-cases (lookup k rows)) [
        | inl missing ↦ missing
        | inr (row, found) ↦
            cc ((due_rows_sound driver reorders is_locked table u t n c k row found).0)
      ]

      -- The changes of a claim, in the table and in the memory store.
      abbrev changes : Dict String Schedule
      changes = schedules_of (advance_rows driver (aware t) rows)

      changes-IsUnique : IsUnique changes
      changes-IsUnique = image-IsUnique row_to_schedule (advance_rows driver (aware t) rows) (
          image-IsUnique (advance_row driver (aware t)) rows
            (due_rows-IsUnique driver reorders is_locked table u t n c))

      held_change : (k : String) → is_locked k ≡ true → lookup k changes ≡ none
      held_change k held =
          rw
            (
              lookup-image row_to_schedule k (advance_rows driver (aware t) rows),
              lookup-image (advance_row driver (aware t)) k rows,
              held_row k held,
            )
            refl

      lookup-changed :
          (k : String)
          → lookup k (put_all changes (schedules_of table)) ≡ (
              if is_locked k
              then lookup k (schedules_of table)
              else lookup k
                  (put_all changes (schedules_of (unlocked is_locked (driver.unordered table)))))
      lookup-changed k =
          rw
            (
              lookup-put_all changes (schedules_of table) changes-IsUnique k,
              lookup-put_all changes (schedules_of (unlocked is_locked (driver.unordered table)))
                  changes-IsUnique k,
              lookup-free_schedules k,
            )
            (elim (Bool-cases (is_locked k)) [
              | inl held ↦ rw (held, held_change k held) refl
              | inr free ↦ rw free refl
            ])

    -- At an aware time, claim_due of PostgresScheduleStore answers what the memory store answers
    -- that has the schedules of the rows that no other transaction has locked, in the order in
    -- which the database reads them. Afterwards a locked schedule stands as it stood, and any
    -- other stands as in that memory store. The driver stores an aware datetime as its instant
    -- and the database reads every row once, and the table has one row for each id.
    pub claim_due-view :
        ((Schedules.claim_due driver is_locked (aware t) n table).0
          ≡ (Memory.claim_due
              (aware t)
              n
              (schedules_of (unlocked is_locked (driver.unordered table)))).0)
        × ((k : String)
            → lookup k (schedules_of (Schedules.claim_due driver is_locked (aware t) n table).1) ≡ (
                if is_locked k
                then lookup k (schedules_of table)
                else lookup k
                    (Memory.claim_due
                      (aware t)
                      n
                      (schedules_of (unlocked is_locked (driver.unordered table)))).1))
    unfolding Schedules.claim_due Memory.claim_due
    claim_due-view = elim (Result-cases (due_rows driver is_locked t n table)) [
      | inr (e, c) ↦
          rw (faithful.instant_aware t, due_rows-schedules, c)
            (
              refl,
              λ k. rw (lookup-free_schedules k) (elim (Bool-cases (is_locked k)) [
                | inl held ↦ rw held refl
                | inr free ↦ rw free refl
              ]),
            )
      | inl (rows, c) ↦
          rw
            (
              faithful.instant_aware t,
              due_rows-schedules,
              c,
              image-put_all row_to_schedule (advance_rows driver (aware t) rows) table,
              ← advance_rows-schedules driver faithful t rows,
            )
            (
              ap ok (
                  answer-schedules driver faithful t rows
                  ∙ ap values (sym (advance_rows-schedules driver faithful t rows))),
              lookup-changed c,
            )
    ]
