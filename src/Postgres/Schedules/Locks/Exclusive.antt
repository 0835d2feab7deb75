-- ===== src/Postgres/Schedules/Locks/Exclusive.antt =====
-- No two claims of `PostgresScheduleStore` (src/saas_job_api/schedule_store_postgres.py) that run
-- at once have a schedule in common, and none loses an update.
use saas_job_api.Prelude.{
  ℕ, String, ◌≡◌, refl, inl, inr, none, some, List, [], ◌∷◌, string_eq, Bool-cases, Option-cases,
  erase_idx, get_elem?, All-erase_idx, All-get_elem?, All-both,
}
use saas_job_api.Sorting.Order.{Pairwise-erase_idx, Pairwise-others, All-weaken}
use saas_job_api.Result.{Result-cases}
use saas_job_api.Time.{aware}
use saas_job_api.Dict.{lookup, IsUnique}
use saas_job_api.Dict.Laws.{put-IsUnique, remove-IsUnique, lookup-put_all, put_all-IsUnique}
use saas_job_api.Postgres.{Driver, IsReordering}
use saas_job_api.Postgres.Image.{lookup-image, image-IsUnique}
use saas_job_api.Postgres.Schedules.{
  ScheduleRow, PostgresScheduleStore, due_rows, advance_row, advance_rows, create, delete,
  row_of_tenant, schedule_row,
}
use saas_job_api.Tenancy.{Schedule}
use saas_job_api.Postgres.Schedules.Rows.{due_rows-IsUnique, due_rows_sound}
use saas_job_api.Postgres.Schedules.Locks.{
  Claiming, Cluster, is_held, Event, selects, commits, rolls_back, creates, deletes, cluster_step,
  cluster_run, committed,
}
use saas_job_api.Postgres.Schedules.Locks.Current.{
  IsApart, IsCurrent, IsConsistent, IsApart-sym, free_of_All, IsApart-of_free,
  IsCurrent-after_claim, IsCurrent-after_create, IsCurrent-after_delete,
}

module _ (driver : Driver) (reorders : IsReordering driver) where
  selects-IsConsistent :
      (s : Cluster) (now limit : ℕ)
      → IsConsistent s
      → IsConsistent (cluster_step driver s (selects now limit))
  unfolding cluster_step
  selects-IsConsistent s now limit (u, apart, current) =
      elim (Result-cases (due_rows driver (is_held s.claims) now limit s.table)) [
        | inr (e, c) ↦ rw c (u, apart, current)
        | inl (rows, c) ↦
            let is_locked = is_held s.claims in
            let x : Claiming = record { now = now; rows = rows } in
            let sound = due_rows_sound driver reorders is_locked s.table u now limit c in
            rw c (
              u,
              (
                IsApart-of_free x s.claims (λ k row h. free_of_All k s.claims (sound k row h).0),
                apart,
              ),
              (
                (
                  due_rows-IsUnique driver reorders is_locked s.table u now limit c,
                  λ k row h. (sound k row h).1,
                ),
                current,
              ),
            )
      ]

  commits-IsConsistent :
      (s : Cluster) (i : ℕ) → IsConsistent s → IsConsistent (cluster_step driver s (commits i))
  unfolding cluster_step
  commits-IsConsistent s i (u, apart, current) = elim (Option-cases (get_elem? s.claims i)) [
    | inl e ↦ rw e (u, apart, current)
    | inr (x, e) ↦ rw e (
      put_all-IsUnique (advance_rows driver (aware x.now) x.rows) s.table u,
      Pairwise-erase_idx IsApart s.claims i apart,
      All-weaken _ (IsCurrent (committed driver i s (some x)).table)
          (λ y (apart_y, current_y).
            IsCurrent-after_claim driver s.table x y
              (All-get_elem? (IsCurrent s.table) s.claims i current e).0 apart_y current_y)
          (erase_idx s.claims i)
          (All-both (IsApart x) (IsCurrent s.table) (erase_idx s.claims i)
            (Pairwise-others IsApart IsApart-sym s.claims i apart e)
            (All-erase_idx (IsCurrent s.table) s.claims i current)),
    )
  ]

  creates-IsConsistent :
      (s : Cluster) (schedule : Schedule)
      → IsConsistent s
      → IsConsistent (cluster_step driver s (creates schedule))
  unfolding cluster_step create
  creates-IsConsistent s schedule (u, apart, current) =
      elim (Option-cases (lookup schedule.schedule_id s.table)) [
        | inr (row, taken) ↦ rw taken (u, apart, current)
        | inl free ↦ rw free (
          put-IsUnique schedule.schedule_id (schedule_row driver schedule) s.table u,
          apart,
          All-weaken (IsCurrent s.table) (IsCurrent _)
              (λ y.
                IsCurrent-after_create s.table schedule.schedule_id (schedule_row driver schedule) y
                  free)
              s.claims current,
        )
      ]

  deletes-IsConsistent :
      (s : Cluster) (tenant_id schedule_id : String)
      → IsConsistent s
      → IsConsistent (cluster_step driver s (deletes tenant_id schedule_id))
  unfolding cluster_step delete
  deletes-IsConsistent s tenant_id schedule_id (u, apart, current) =
      elim (Bool-cases (is_held s.claims schedule_id)) [
        | inl held ↦ rw held (u, apart, current)
        | inr free ↦ elim (Option-cases (row_of_tenant tenant_id (lookup schedule_id s.table))) [
          | inl missing ↦ rw (free, missing) (u, apart, current)
          | inr (row, found) ↦
              rw (free, found)
                (
                  remove-IsUnique schedule_id s.table u,
                  apart,
                  All-weaken _ (IsCurrent _)
                      (λ y (free_y, current_y).
                        IsCurrent-after_delete s.table schedule_id y u free_y current_y)
                      s.claims
                      (All-both (λ y. lookup schedule_id y.rows ≡ none) (IsCurrent s.table) s.claims
                        (free_of_All schedule_id s.claims free) current),
                )
        ]
      ]

  step-IsConsistent :
      (s : Cluster) (event : Event) → IsConsistent s → IsConsistent (cluster_step driver s event)
  unfolding cluster_step
  step-IsConsistent s (selects now limit) h = selects-IsConsistent s now limit h
  step-IsConsistent s (commits i) h = commits-IsConsistent s i h
  step-IsConsistent s (rolls_back i) (u, apart, current) = (
    u,
    Pairwise-erase_idx IsApart s.claims i apart,
    All-erase_idx (IsCurrent s.table) s.claims i current,
  )
  step-IsConsistent s (creates schedule) h = creates-IsConsistent s schedule h
  step-IsConsistent s (deletes tenant_id schedule_id) h =
      deletes-IsConsistent s tenant_id schedule_id h

  -- The invariant holds after every sequence of events.
  pub cluster_run-IsConsistent :
      (s : Cluster) (events : List Event)
      → IsConsistent s
      → IsConsistent (cluster_run driver s events)
  unfolding cluster_run
  cluster_run-IsConsistent s [] h = h
  cluster_run-IsConsistent s (event ∷ events) h =
      cluster_run-IsConsistent (cluster_step driver s event) events (step-IsConsistent s event h)

  -- Several scheduler instances claim due schedules at the same time, in any order of their SELECTs
  -- and ends, while schedules are created and deleted; the start has no claim and one row for each
  -- id, and the database reads every row once. Let two claims stand at different places among
  -- those that have not ended, and let the first have taken a row. Then the second has not taken
  -- the schedule, the table still has the row as the first claim read it, and the commit of the
  -- first leaves it there advanced by its interval.
  pub claimed_once :
      (table : PostgresScheduleStore) (events : List Event) (i j : ℕ) (x y : Claiming) (k : String)
      (row : ScheduleRow)
      → IsUnique table
      → get_elem? (cluster_run driver (record { table = table; claims = [] }) events).claims i
        ≡ some x
      → get_elem?
          (erase_idx (cluster_run driver (record { table = table; claims = [] }) events).claims i)
          j
        ≡ some y
      → lookup k x.rows ≡ some row
      → (lookup k y.rows ≡ none)
        × (lookup k (cluster_run driver (record { table = table; claims = [] }) events).table
            ≡ some row)
        × (lookup k
              (cluster_step driver
                (cluster_run driver (record { table = table; claims = [] }) events)
                (commits i)).table
            ≡ some (advance_row driver (aware x.now) row))
  unfolding cluster_step
  claimed_once table events i j x y k row unique at_i at_j h =
      let s = cluster_run driver (record { table = table; claims = [] }) events in
      let (u, apart, current) =
        cluster_run-IsConsistent (record { table = table; claims = [] }) events (unique, tt, tt) in
      let others = Pairwise-others IsApart IsApart-sym s.claims i apart at_i in
      let (rows_unique, here) = All-get_elem? (IsCurrent s.table) s.claims i current at_i in
      (
        elim (All-get_elem? (IsApart x) (erase_idx s.claims i) j others at_j k) [
          | inl e ↦ cc
          | inr e ↦ e
        ],
        here k row h,
        rw at_i (
            rw
              (
                lookup-put_all (advance_rows driver (aware x.now) x.rows) s.table
                    (image-IsUnique (advance_row driver (aware x.now)) x.rows rows_unique) k,
                lookup-image (advance_row driver (aware x.now)) k x.rows,
                h,
              )
              refl),
      )
