-- ===== src/Postgres/Audit/View.antt =====
-- The table of `PostgresAuditLogStore` (src/saas_job_api/audit_store_postgres.py) seen as the log
-- of the memory store.
use mathlib.Core.Path.{ap, ◌∙◌}
use saas_job_api.Prelude.{
  ℕ, String, ◌≡◌, ◌⊎◌, refl, inl, inr, Option, none, some, [], ◌∷◌, ◌++◌, string_eq, ◌==◌, ltb,
  Bool-cases, Option-cases,
}
use saas_job_api.Prelude.Int.{pos}
use saas_job_api.Result.{ok, err, database_error, Result-cases}
use saas_job_api.Time.{is_before}
use saas_job_api.Dict.{lookup, put, values}
use saas_job_api.Dict.Select.{select}
use saas_job_api.Dict.Select.Values.{values-select}
use saas_job_api.Audit.{AuditEvent, MemoryAuditLogStore, newer, is_visible, recent}
use saas_job_api.Audit as Memory
use saas_job_api.Postgres.{Driver, IsFaithful}
use saas_job_api.Postgres.Image.{image, values-image, image-select}
use saas_job_api.Postgres.Audit.{
  EventRow, PostgresAuditLogStore, event_row, row_to_event, is_selected,
}
use saas_job_api.Postgres.Audit as Audit
use saas_job_api.Postgres.Jobs.View.{IsAware}

abbrev pub log_of : PostgresAuditLogStore → MemoryAuditLogStore
log_of table = values (image row_to_event table)

values-put :
    (k : String) (row : EventRow) (table : PostgresAuditLogStore)
    → lookup k table ≡ none
    → log_of (put k row table) ≡ log_of table ++ row_to_event row ∷ []
unfolding lookup put image
values-put k row [] free = refl
values-put k row ((i, other) ∷ table) free = elim (Bool-cases (i == k)) [
  | inl same ↦ cc (rw same at free)
  | inr different ↦
      rw different
        (ap (λ r. row_to_event other ∷ r) (values-put k row table (rw different at free)))
]

-- An event with an aware time and a new id is appended to the log that the table stands for, as in
-- the memory store; an event whose id is taken is refused, and nothing changes. The driver stores
-- an aware datetime as its instant.
pub append-view :
    (driver : Driver) (event : AuditEvent) (table : PostgresAuditLogStore)
    → IsFaithful driver
    → IsAware event.occurred_at
    → (Audit.append driver event table ≡ (err database_error, table))
      ⊎ (((Audit.append driver event table).0 ≡ ok event)
          × (log_of (Audit.append driver event table).1 ≡ (Memory.append event (log_of table)).1))
unfolding Audit.append Memory.append
append-view driver event table faithful (t, at_t) =
    elim (Option-cases (lookup event.event_id table)) [
      | inr (row, taken) ↦ rw taken (inl refl)
      | inl free ↦
          let back : row_to_event (event_row driver event) ≡ event =
            unfold row_to_event in rw (at_t, faithful.instant_aware t) refl in
          rw free (
            inr
              (refl, values-put event.event_id (event_row driver event) table free ∙ rw back refl))
    ]

is_visible-row :
    (tenant_id : Option String) (row : EventRow)
    → ok (is_visible tenant_id (row_to_event row)) ≡ ok (is_selected tenant_id row)
unfolding is_visible is_selected row_to_event
is_visible-row none row = refl
is_visible-row (some tenant_id) row = refl

newer-row :
    (a b : EventRow)
    → newer (row_to_event a) (row_to_event b) ≡ ok (ltb b.occurred_at a.occurred_at)
unfolding newer row_to_event is_before
newer-row a b = refl

-- A list of recent events with a limit that is not negative has the events that the memory store
-- lists whose log has the rows in the order in which the database reads them.
pub list_recent-view :
    (driver : Driver) (tenant_id : Option String) (n : ℕ) (table : PostgresAuditLogStore)
    → Audit.list_recent driver tenant_id (pos n) table
      ≡ ((Memory.list_recent tenant_id (pos n) (log_of (driver.unordered table))).0, table)
unfolding Audit.list_recent Memory.list_recent recent
list_recent-view driver tenant_id n table =
    let rows =
      select {K = String} (λ (row : EventRow). ok (is_selected tenant_id row))
        (λ (a b : EventRow). ok (ltb b.occurred_at a.occurred_at)) n (driver.unordered table) in
    let events =
      image-select {K = String} row_to_event (λ (row : EventRow). ok (is_selected tenant_id row))
        (λ e. ok (is_visible tenant_id e))
        (λ (a b : EventRow). ok (ltb b.occurred_at a.occurred_at)) newer n
        (is_visible-row tenant_id) newer-row (driver.unordered table) in
    rw
      (
        ← values-select (λ e. ok (is_visible tenant_id e)) newer n
            (image row_to_event (driver.unordered table)),
        events,
      )
      (elim (Result-cases rows) [
        | inr (e, c) ↦ rw c refl
        | inl (found, c) ↦ rw (c, values-image row_to_event found) refl
      ])
