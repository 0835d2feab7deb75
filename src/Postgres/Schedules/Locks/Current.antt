-- ===== src/Postgres/Schedules/Locks/Current.antt =====
-- What two claims of `PostgresScheduleStore` (src/saas_job_api/schedule_store_postgres.py) that run
-- at once may not do to each other, and what another event leaves of a claim.
use saas_job_api.Prelude.{
  String, ◌≡◌, ◌⊎◌, inl, inr, false, none, some, List, [], ◌∷◌, string_eq, ◌==◌, Bool-cases,
  Option-cases, All,
}
use saas_job_api.Sorting.Order.{Pairwise}
use saas_job_api.Time.{aware}
use saas_job_api.Dict.{lookup, put, remove, put_all, IsUnique}
use saas_job_api.Dict.Laws.{lookup-put, lookup-remove, lookup-put_all}
use saas_job_api.Postgres.{Driver}
use saas_job_api.Postgres.Image.{lookup-image, image-IsUnique}
use saas_job_api.Postgres.Schedules.{ScheduleRow, PostgresScheduleStore, advance_row, advance_rows}
use saas_job_api.Postgres.Schedules.Locks.{Claiming, Cluster, is_held}

-- No schedule is claimed in both.
abbrev pub IsApart : Claiming → Claiming → Type 0
IsApart x y = (k : String) → (lookup k x.rows ≡ none) ⊎ (lookup k y.rows ≡ none)

-- The rows of a claim stand in the table as the claim has read them.
abbrev pub IsCurrent : PostgresScheduleStore → Claiming → Type 0
IsCurrent table x =
    IsUnique x.rows
    × ((k : String) (row : ScheduleRow) → lookup k x.rows ≡ some row → lookup k table ≡ some row)

abbrev pub IsConsistent : Cluster → Type 0
IsConsistent s = IsUnique s.table × Pairwise IsApart s.claims × All (IsCurrent s.table) s.claims

pub IsApart-sym : (x y : Claiming) → IsApart x y → IsApart y x
IsApart-sym x y apart k = elim (apart k) [ inl e ↦ inr e | inr e ↦ inl e ]

-- What no claim holds is in no claim.
pub free_of_All :
    (k : String) (xs : List Claiming) → is_held xs k ≡ false → All (λ x. lookup k x.rows ≡ none) xs
unfolding is_held
free_of_All k [] h = tt
free_of_All k (x ∷ xs) h = elim (Option-cases (lookup k x.rows)) [
  | inl e ↦ (e, free_of_All k xs (rw e at h))
  | inr (row, e) ↦ cc (rw e at h)
]

pub IsApart-of_free :
    (x : Claiming) (ys : List Claiming)
    → ((k : String) (row : ScheduleRow)
        → lookup k x.rows ≡ some row
        → All (λ y. lookup k y.rows ≡ none) ys)
    → All (IsApart x) ys
IsApart-of_free x [] free = tt
IsApart-of_free x (y ∷ ys) free = (
  λ k. elim (Option-cases (lookup k x.rows)) [
    | inl e ↦ inl e
    | inr (row, e) ↦ inr (free k row e).0
  ],
  IsApart-of_free x ys (λ k row e. (free k row e).1),
)

-- What a claim holds stays in the table through the changes of another.
pub IsCurrent-after_claim :
    (driver : Driver) (table : PostgresScheduleStore) (x y : Claiming)
    → IsUnique x.rows
    → IsApart x y
    → IsCurrent table y
    → IsCurrent (put_all (advance_rows driver (aware x.now) x.rows) table) y
IsCurrent-after_claim driver table x y u apart (v, here) = (
  v,
  λ k row h. elim (apart k) [
    | inl e ↦
        rw
          (
            lookup-put_all (advance_rows driver (aware x.now) x.rows) table
                (image-IsUnique (advance_row driver (aware x.now)) x.rows u) k,
            lookup-image (advance_row driver (aware x.now)) k x.rows,
            e,
          )
          (here k row h)
    | inr e ↦ cc
  ],
)

pub IsCurrent-after_create :
    (table : PostgresScheduleStore) (id : String) (new : ScheduleRow) (y : Claiming)
    → lookup id table ≡ none
    → IsCurrent table y
    → IsCurrent (put id new table) y
IsCurrent-after_create table id new y free (v, here) = (
  v,
  λ k row h. elim (Bool-cases (id == k)) [
    | inl same ↦ cc (rw ((string_eq.eqb_iff id k).0 same) at free, here k row h)
    | inr other ↦ rw (lookup-put id k new table, other) (here k row h)
  ],
)

pub IsCurrent-after_delete :
    (table : PostgresScheduleStore) (id : String) (y : Claiming)
    → IsUnique table
    → lookup id y.rows ≡ none
    → IsCurrent table y
    → IsCurrent (remove id table) y
IsCurrent-after_delete table id y u free (v, here) = (
  v,
  λ k row h. elim (Bool-cases (id == k)) [
    | inl same ↦ cc (rw ((string_eq.eqb_iff id k).0 same) at free)
    | inr other ↦ rw (lookup-remove id k table u, other) (here k row h)
  ],
)
