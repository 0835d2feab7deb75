-- ===== src/Postgres/Configs/View.antt =====
-- The tables of `PostgresGatewayOperationalConfigStore`
-- (src/saas_job_api/gateway_operational_config_store_postgres.py) seen as the memory store.
use mathlib.Core.Path.{sym, ◌∙◌}
use mathlib.Core.Option
use saas_job_api.Prelude.{
  ℕ, String, ◌≡◌, refl, inl, inr, Option, none, some, string_eq, ◌==◌, Bool-cases,
}
use saas_job_api.Result.{Error, Result, err, Result-cases}
use saas_job_api.Exec.{pure, modify, ◌>>◌}
use saas_job_api.Time.{aware}
use saas_job_api.Dict.{lookup, put}
use saas_job_api.GatewayConfig.{
  GatewayOperationalConfig, MemoryGatewayOperationalConfigStore, Saving, Saved, AuditSink,
  next_config, is_unchanged, replace,
}
use saas_job_api.GatewayConfig as Memory
use saas_job_api.Audit.{AuditEvent}
use saas_job_api.GatewayConfig.Laws.{restore-put}
use saas_job_api.Postgres.{Driver, IsFaithful}
use saas_job_api.Postgres.Image.{image, lookup-image, image-put}
use saas_job_api.Postgres.Configs.{
  ConfigRow, ConfigTable, row_to_config, upserted_config, save_row, inserted_config, updated_config,
  rolled_back, append_event, save_with_previous,
}

-- A row stands under its own id.
abbrev pub IsKeyed : ConfigTable → Type 0
IsKeyed table = (k : String) (row : ConfigRow) → lookup k table ≡ some row → row.gateway_id ≡ k

-- An append to the log that raises leaves the log as it was.
abbrev pub IsClean : {S : Type 0} → Option (AuditSink S) → Type 0
IsClean {S} none = Unit
IsClean {S} (some sink) =
    (event : AuditEvent) (log : S) (e : Error)
    → (sink.append event log).0 ≡ err e
    → (sink.append event log).1 ≡ log

module _ (driver : Driver) (faithful : IsFaithful driver) (t : ℕ) (r : Saving)
    (at_t : r.updated_at ≡ aware t) where
  inserted_config-next : row_to_config (inserted_config driver r) ≡ next_config r none
  unfolding row_to_config next_config
  inserted_config-next = rw (at_t, faithful.instant_aware t) refl

  updated_config-next :
      (row : ConfigRow)
      → row.gateway_id ≡ r.gateway_id
      → row.tenant_id ≡ r.tenant_id
      → row_to_config (updated_config driver r row) ≡ next_config r (some (row_to_config row))
  unfolding row_to_config next_config
  updated_config-next row same_id same_tenant =
      rw (at_t, faithful.instant_aware t, same_id, same_tenant) refl

module _ {S : Type 0} (r : Saving) (row : ConfigRow) (table : ConfigTable) (log : S)
    (previous : Option GatewayOperationalConfig)
    (here : lookup r.gateway_id (image row_to_config table) ≡ previous)
    (next : row_to_config row ≡ next_config r previous) where
  -- The writes of the transaction.
  abbrev written : Option (AuditSink S) → Result Saved × (ConfigTable × S)
  written sink =
      rolled_back (table, log)
        ((modify (λ s. (put r.gateway_id row s.0, s.1))
            >> append_event sink previous (row_to_config row)
            >> pure (previous, row_to_config row))
          (table, log))

  -- What the memory store does with its dict.
  abbrev replaced : Option (AuditSink S) → Result Saved × (MemoryGatewayOperationalConfigStore × S)
  replaced sink = replace sink r previous (image row_to_config table, log)

  put-next :
      image row_to_config (put r.gateway_id row table)
      ≡ put r.gateway_id (next_config r previous) (image row_to_config table)
  put-next = image-put row_to_config r.gateway_id row table ∙ rw next refl

  restored :
      image row_to_config table
      ≡ Memory.restore r.gateway_id previous
          (put r.gateway_id (next_config r previous) (image row_to_config table))
  restored =
      sym (
        restore-put r.gateway_id previous (next_config r previous) (image row_to_config table) here)

  written-view :
      (sink : Option (AuditSink S))
      → IsClean sink
      → ((written sink).0 ≡ (replaced sink).0)
        × (image row_to_config (written sink).1.0 ≡ (replaced sink).1.0)
        × ((written sink).1.1 ≡ (replaced sink).1.1)
  unfolding replace
  written-view none clean = (rw next refl, put-next, refl)
  written-view (some sink) clean =
      elim (Result-cases (sink.append (sink.event previous (next_config r previous)) log).0) [
        | inl (event, c) ↦ rw (next, c) (refl, put-next, refl)
        | inr (e, c) ↦ rw (next, c) (refl, restored, sym (clean _ log e c))
      ]

-- The answer, the configurations and the log are the same.
abbrev pub IsAlike :
    {S : Type 0}
    → Result Saved × (ConfigTable × S)
    → Result Saved × (MemoryGatewayOperationalConfigStore × S)
    → Type 0
IsAlike ran memory =
    (ran.0 ≡ memory.0) × (image row_to_config ran.1.0 ≡ memory.1.0) × (ran.1.1 ≡ memory.1.1)

module _ {S : Type 0} (driver : Driver) (sink : Option (AuditSink S)) (r : Saving)
    (table : ConfigTable) (log : S) where
  module _ (faithful : IsFaithful driver) (t : ℕ) (at_t : r.updated_at ≡ aware t)
      (keyed : IsKeyed table) (clean : IsClean sink) where
    save_row-view :
        (found : Option ConfigRow)
        → lookup r.gateway_id table ≡ found
        → IsAlike (rolled_back (table, log) (save_row driver sink r found (table, log))) (
            Memory.save_over sink r
              (Option.map row_to_config found)
              (image row_to_config table, log))
    unfolding upserted_config row_to_config
    save_row-view none new =
        written-view r (inserted_config driver r) table log none
          (lookup-image row_to_config r.gateway_id table ∙ rw new refl)
          (inserted_config-next driver faithful t r at_t) sink clean
    save_row-view (some row) old = elim (Bool-cases (row.tenant_id == r.tenant_id)) [
      | inr other ↦ rw other (refl, refl, refl)
      | inl own ↦ elim (Bool-cases (is_unchanged r (row_to_config row))) [
        | inl same ↦ rw (own, same) (refl, refl, refl)
        | inr changed ↦
            rw (own, changed, own)
              (written-view r (updated_config driver r row) table log (some (row_to_config row))
                (lookup-image row_to_config r.gateway_id table ∙ rw old refl)
                (updated_config-next driver faithful t r at_t row (keyed r.gateway_id row old)
                  ((string_eq.eqb_iff row.tenant_id r.tenant_id).0 own))
                sink clean)
      ]
    ]

    -- If the time is aware, every row of the table stands under its own gateway id and a failing
    -- append leaves the log as it was, then save_with_previous of
    -- PostgresGatewayOperationalConfigStore answers what the memory store answers that has the
    -- configurations of the rows, errors included, and leaves the rows of the configurations and
    -- the log that the memory store leaves. The driver stores an aware datetime as its instant.
    pub save_with_previous-view :
        IsAlike
          (save_with_previous driver sink r (table, log))
          (Memory.save_with_previous sink r (image row_to_config table, log))
    unfolding save_with_previous Memory.save_with_previous
    save_with_previous-view =
        rw (lookup-image row_to_config r.gateway_id table)
          (save_row-view (lookup r.gateway_id table) refl)
