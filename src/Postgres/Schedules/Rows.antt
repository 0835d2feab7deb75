-- ===== src/Postgres/Schedules/Rows.antt =====
-- The rows that `claim_due` of `PostgresScheduleStore` (src/saas_job_api/schedule_store_postgres.py)
-- locks.
use saas_job_api.Prelude.{
  ℕ, String, ◌≡◌, refl, inl, inr, Bool, true, false, arith, if◌then◌else◌, none, some, [], ◌∷◌,
  string_eq, Bool-cases,
}
use saas_job_api.Result.{ok}
use saas_job_api.Dict.{Dict, lookup, IsUnique}
use saas_job_api.Postgres.{Driver, IsReordering}
use saas_job_api.Postgres.Schedules.{ScheduleRow, PostgresScheduleStore, is_due, due_rows, unlocked}
use saas_job_api.Dict.Select.Selected.{select-IsUnique, select_sound}

module _ (is_locked : String → Bool) where
  pub lookup-unlocked :
      {V : Type 0} (k : String) (d : Dict String V)
      → lookup k (unlocked is_locked d) ≡ (if is_locked k then none else lookup k d)
  unfolding lookup unlocked
  lookup-unlocked k [] = ground arith
  lookup-unlocked k ((i, v) ∷ d) = ground (arith, string_eq.eqb_iff i k, lookup-unlocked k d)

  pub unlocked-IsUnique :
      {V : Type 0} (d : Dict String V) → IsUnique d → IsUnique (unlocked is_locked d)
  unfolding unlocked
  unlocked-IsUnique [] u = tt
  unlocked-IsUnique ((i, v) ∷ d) u = ground (arith, lookup-unlocked i d, unlocked-IsUnique d u.1)

module _ (driver : Driver) (reorders : IsReordering driver) (is_locked : String → Bool)
    (table : PostgresScheduleStore) (u : IsUnique table) where
  free_rows-IsUnique : IsUnique (unlocked is_locked (driver.unordered table))
  free_rows-IsUnique =
      unlocked-IsUnique is_locked (driver.unordered table) (reorders.keeps_keys table u)

  pub lookup-free_rows :
      (k : String)
      → lookup k (unlocked is_locked (driver.unordered table))
        ≡ (if is_locked k then none else lookup k table)
  lookup-free_rows k =
      rw (lookup-unlocked is_locked k (driver.unordered table), reorders.keeps_rows table u k) refl

  module _ (t n : ℕ) {rows : PostgresScheduleStore}
      (c : due_rows driver is_locked t n table ≡ ok rows) where
    pub due_rows-IsUnique : IsUnique rows
    unfolding due_rows
    due_rows-IsUnique = select-IsUnique _ _ n _ free_rows-IsUnique c

    -- A row that the SELECT locks is a due one of the table that is not locked.
    pub due_rows_sound :
        (k : String) (row : ScheduleRow)
        → lookup k rows ≡ some row
        → (is_locked k ≡ false) × (lookup k table ≡ some row) × (is_due t row ≡ true)
    unfolding due_rows
    due_rows_sound k row h =
        let (found, due) = select_sound _ _ n _ free_rows-IsUnique k row c h in
        elim (Bool-cases (is_locked k)) [
          | inl held ↦ cc (rw (lookup-free_rows k, held) at found)
          | inr free ↦ (free, rw (lookup-free_rows k, free) at found, cc)
        ]
