-- ===== src/Audit.antt =====
-- src/saas_job_api/audit.py and audit_store_memory.py: the append-only log of audit events.
pub mod Laws
pub mod Purge
use saas_job_api.Prelude.{
  ℕ, String, Bool, true, false, not, Option, none, some, List, [], ◌∷◌, ◌++◌, string_eq, ◌==◌,
  contains, option_beq, length, take, is_none, ltb, if◌then◌else◌,
}
use saas_job_api.Prelude.Int.{ℤ, pos_part}
use saas_job_api.Result.{Result, ok, err, ◌>>=◌}
use saas_job_api.Exec.{Exec}
use saas_job_api.Time.{DateTime, is_before}
use saas_job_api.Dict.{add}
use saas_job_api.Sorting.{filter, sort}

-- What `GATEWAY_OPERATIONAL_CONFIG_UPDATED` tells of a configuration.
pub record ConfigDetail : Type 0 where
  pub poll_interval_ms : ℕ
  pub heartbeat_interval_ms : ℕ
  pub accept_new_jobs : Bool
  pub config_version : ℕ

-- The details that the routers record.
pub data Detail : Type 0 where
  empty : Detail
  result : (record_count : ℕ) (plugin_id : String) → Detail
  config : (previous : Option ConfigDetail) (current : ConfigDetail) → Detail

pub record AuditEvent : Type 0 where
  pub event_id : String
  pub event_type : String
  pub actor : String
  pub tenant_id : Option String
  pub resource_type : Option String
  pub resource_id : Option String
  pub detail : Detail
  pub occurred_at : DateTime

abbrev pub MemoryAuditLogStore : Type 0
MemoryAuditLogStore = List AuditEvent

unfoldable pub append : AuditEvent → Exec MemoryAuditLogStore AuditEvent
append event events = (ok event, events ++ event ∷ [])

-- `sort(key=lambda e: e.occurred_at, reverse=True)`, which is stable too.
unfoldable pub newer : AuditEvent → AuditEvent → Result Bool
unfolding is_before
newer a b = is_before b.occurred_at a.occurred_at

unfoldable pub is_visible : Option String → AuditEvent → Bool
is_visible none event = true
is_visible (some tenant_id) event = option_beq event.tenant_id (some tenant_id)

unfoldable pub recent : Option String → ℤ → List AuditEvent → Result (List AuditEvent)
unfolding newer is_visible
recent tenant_id limit events = do
  matches ← filter (λ e. ok (is_visible tenant_id e)) events
  sorted ← sort newer matches
  ok (take (pos_part limit) sorted)

unfoldable pub list_recent : Option String → ℤ → Exec MemoryAuditLogStore (List AuditEvent)
unfolding recent
list_recent tenant_id limit events = (recent tenant_id limit events, events)

-- `{e.event_id for e in events}`
unfoldable pub ids : List AuditEvent → List String
unfolding add
ids [] = []
ids (e ∷ es) = add e.event_id (ids es)

unfoldable pub older : AuditEvent → AuditEvent → Result Bool
unfolding is_before
older a b = is_before a.occurred_at b.occurred_at

-- `[e for e in events if e.event_id in wanted]`
unfoldable pub with_ids : List String → List AuditEvent → List AuditEvent
unfolding contains
with_ids wanted [] = []
with_ids wanted (e ∷ es) =
    let rest = with_ids wanted es in if contains e.event_id wanted then e ∷ rest else rest

-- `[e for e in events if e.event_id not in unwanted]`
unfoldable pub without_ids : List String → List AuditEvent → List AuditEvent
unfolding contains
without_ids unwanted [] = []
without_ids unwanted (e ∷ es) =
    let rest = without_ids unwanted es in if contains e.event_id unwanted then rest else e ∷ rest

-- The ids that a purge removes: those of all events before the limit of age or, if they are more
-- than the batch allows, those of the oldest of them.
unfoldable pub expired_ids : DateTime → ℕ → List AuditEvent → Result (List String)
unfolding ids older with_ids
expired_ids before limit events = do
  expired ← filter (λ e. is_before e.occurred_at before) events
  if ltb limit (length (ids expired))
      then (do
        oldest_first ← sort older (with_ids (ids expired) events)
        ok (ids (take limit oldest_first)))
      else ok (ids expired)

unfoldable pub purge_expired : DateTime → ℕ → Exec MemoryAuditLogStore ℕ
unfolding without_ids
purge_expired before limit events = elim (expired_ids before limit events) [
  | err e ↦ (err e, events)
  | ok [] ↦ (ok 0, events)
  | ok (i ∷ more) ↦ (ok (length (i ∷ more)), without_ids (i ∷ more) events)
]
