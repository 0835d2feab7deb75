-- ===== src/Postgres/Audit/Purge.antt =====
-- A purge of `PostgresAuditLogStore` (src/saas_job_api/audit_store_postgres.py) is bounded, removes
-- the oldest events and nothing that is not out of date.
use mathlib.Core.Path.{sym, ◌∙◌}
use saas_job_api.Prelude.{
  ℕ, ◌≤◌, ◌<◌, String, ◌≡◌, refl, inl, inr, none, some, [], ◌∷◌, arith, string_eq, ◌==◌, length,
  is_none, if◌then◌else◌, Bool-cases, Option-cases,
}
use saas_job_api.Result.{ok, Result-cases}
use saas_job_api.Time.{aware}
use saas_job_api.Dict.{lookup, IsUnique}
use saas_job_api.Dict.Select.Selected.{select_sound, select_complete, length-select-le}
use saas_job_api.Dict.Select.Order.{select_first}
use saas_job_api.Postgres.{Driver, IsFaithful, IsReordering}
use saas_job_api.Postgres.Audit.{
  EventRow, PostgresAuditLogStore, is_out_of_date, occurs_before, expired_rows, rows_without,
  purge_expired,
}

lookup-rows_without :
    (k : String) (gone rows : PostgresAuditLogStore)
    → lookup k (rows_without gone rows) ≡ (if is_none (lookup k gone) then lookup k rows else none)
unfolding lookup rows_without
lookup-rows_without k gone [] = ground arith
lookup-rows_without k gone ((i, row) ∷ rows) = elim (Bool-cases (i == k)) [
  | inl same ↦
      let e = (string_eq.eqb_iff i k).0 same in ground (arith, lookup-rows_without k gone rows)
  | inr other ↦ ground (arith, lookup-rows_without k gone rows)
]

module _ (driver : Driver) (faithful : IsFaithful driver) (reorders : IsReordering driver)
    (t limit : ℕ) (table : PostgresAuditLogStore) (u : IsUnique table) where
  module _ {gone : PostgresAuditLogStore} (c : expired_rows driver t limit table ≡ ok gone) where
    -- A row that the purge has removed is one that the subquery has found.
    removed_row :
        (k : String) (row : EventRow)
        → lookup k table ≡ some row
        → lookup k (rows_without gone table) ≡ none
        → (lookup k gone ≡ some row) × (row.occurred_at < t)
    unfolding expired_rows
    removed_row k row here removed = elim (Option-cases (lookup k gone)) [
      | inl stays ↦
          let kept : lookup k (rows_without gone table) ≡ lookup k table =
            lookup-rows_without k gone table ∙ rw stays refl in
          cc
      | inr (found, e) ↦
          let (stored, expired) =
            select_sound _ _ limit (driver.unordered table) (reorders.keeps_keys table u) k found c
              e in
          let same : found ≡ row = cc (reorders.keeps_rows table u k) in
          rw (← same) (e, ground arith)
    ]

    -- While an expired row is left, the subquery was cut at its limit, after the oldest.
    left_row :
        (j : String) (kept : EventRow)
        → lookup j (rows_without gone table) ≡ some kept
        → kept.occurred_at < t
        → (lookup j gone ≡ none)
          × (lookup j (driver.unordered table) ≡ some kept)
          × (length gone ≡ limit)
    unfolding expired_rows
    left_row j kept stays expired = elim (Option-cases (lookup j gone)) [
      | inr (row, e) ↦
          let removed : lookup j (rows_without gone table) ≡ none =
            lookup-rows_without j gone table ∙ rw e refl in
          cc
      | inl out ↦
          let stored : lookup j table ≡ lookup j (rows_without gone table) =
            sym (lookup-rows_without j gone table ∙ rw out refl) in
          let found : lookup j (driver.unordered table) ≡ some kept =
            reorders.keeps_rows table u j ∙ stored ∙ stays in
          let full : length gone < limit → ⊥ = λ short. cc (
            select_complete _ _ limit (driver.unordered table) (reorders.keeps_keys table u) j kept
              c short found (ground arith)) in
          (out, found, omega (arith, length-select-le _ _ limit (driver.unordered table) c))
    ]

    no_newer :
        (k j : String) (row kept : EventRow)
        → lookup k gone ≡ some row
        → lookup j (driver.unordered table) ≡ some kept
        → lookup j gone ≡ none
        → kept.occurred_at < t
        → row.occurred_at ≤ kept.occurred_at
    unfolding expired_rows
    no_newer k j row kept taken found out expired =
        select_first (is_out_of_date t) occurs_before
          (λ (a b : EventRow). a.occurred_at ≤ b.occurred_at) (λ a b d h g. omega arith)
          (λ a b h. ground arith) (λ a b h. ground arith) limit (driver.unordered table) k j
          (reorders.keeps_keys table u) c taken found (ground arith) out

  -- A purge that returns, with what its subquery has found.
  purge_expired_inv :
      (n : ℕ)
      → (purge_expired driver (aware t) limit table).0 ≡ ok n
      → (gone : PostgresAuditLogStore) × (expired_rows driver t limit table ≡ ok gone)
        × (length gone ≡ n)
        × ((purge_expired driver (aware t) limit table).1 ≡ rows_without gone table)
  unfolding purge_expired
  purge_expired_inv n returned = elim (Result-cases (expired_rows driver t limit table)) [
    | inr (e, c) ↦ cc (rw (faithful.instant_aware t, c) at returned)
    | inl (gone, c) ↦ (
      gone,
      c,
      cc (rw (faithful.instant_aware t, c) at returned),
      rw (faithful.instant_aware t, c) refl,
    )
  ]

  -- A purge at an aware limit of age that leaves an event older than the limit of age has removed
  -- as many events as its batch allows; each event that it has removed is older than the limit of
  -- age, and no newer than the event that it leaves. The driver stores an aware datetime as its
  -- instant and the database reads every row once, and the table has one row for each id.
  pub purge_expired_oldest :
      (n : ℕ) (k j : String) (row kept : EventRow)
      → (purge_expired driver (aware t) limit table).0 ≡ ok n
      → lookup k table ≡ some row
      → lookup k (purge_expired driver (aware t) limit table).1 ≡ none
      → lookup j (purge_expired driver (aware t) limit table).1 ≡ some kept
      → kept.occurred_at < t
      → (n ≡ limit) × (row.occurred_at < t) × (row.occurred_at ≤ kept.occurred_at)
  purge_expired_oldest n k j row kept returned here removed stays expired =
      let (gone, c, count, after) = purge_expired_inv n returned in
      let (taken, old) = removed_row c k row here (rw after at removed) in
      let (out, found, full) = left_row c j kept (rw after at stays) expired in
      (sym count ∙ full, old, no_newer c k j row kept taken found out expired)

  -- A purge at an aware limit of age that returns has removed at most as many events as its batch
  -- allows, and keeps every event that is not older than the limit of age. The driver stores an
  -- aware datetime as its instant and the database reads every row once, and the table has one row
  -- for each id.
  pub purge_expired_keeps_recent :
      (n : ℕ) (k : String) (row : EventRow)
      → (purge_expired driver (aware t) limit table).0 ≡ ok n
      → lookup k table ≡ some row
      → t ≤ row.occurred_at
      → (n ≤ limit) × (lookup k (purge_expired driver (aware t) limit table).1 ≡ some row)
  unfolding expired_rows
  purge_expired_keeps_recent n k row returned here recent =
      let (gone, c, count, after) = purge_expired_inv n returned in
      (
        rw (← count) (length-select-le _ _ limit (driver.unordered table) c),
        elim (Option-cases (lookup k gone)) [
          | inl stays ↦ rw after (lookup-rows_without k gone table ∙ rw stays here)
          | inr (found, e) ↦
              let removed : lookup k (rows_without gone table) ≡ none =
                lookup-rows_without k gone table ∙ rw e refl in
              absurd (omega (arith, (removed_row c k row here removed).1))
        ],
      )
