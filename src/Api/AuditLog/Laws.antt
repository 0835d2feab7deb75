-- ===== src/Api/AuditLog/Laws.antt =====
-- The retention sweep deletes in bounded batches, and never an event within the retention period.
use saas_job_api.Prelude.{ℕ, ◌*◌, ◌≤◌, String, ◌≡◌, false, [], ◌∷◌, All}
use saas_job_api.Result.{ok}
use saas_job_api.Time.{DateTime, is_before}
use saas_job_api.Certificates.{day}
use saas_job_api.Audit.{AuditEvent, MemoryAuditLogStore, with_ids}
use saas_job_api.Audit.Purge.{purge_expired_le, purge_expired_keeps}
use saas_job_api.Api.AuditLog.{earlier, sweep_once}

-- A sweep that returns a number has returned at most the size of a batch, and the log has the
-- same events with an id as before, if no event with this id is older than the retention period.
pub sweep_once_retains :
    (retention_days batch_size n : ℕ) (now : DateTime) (events : MemoryAuditLogStore) (i : String)
    → (sweep_once retention_days batch_size now events).0 ≡ ok n
    → All
        (λ (e : AuditEvent).
          e.event_id ≡ i → is_before e.occurred_at (earlier now (retention_days * day)) ≡ ok false)
        events
    → (n ≤ batch_size)
      × (with_ids (i ∷ []) (sweep_once retention_days batch_size now events).1
          ≡ with_ids (i ∷ []) events)
unfolding sweep_once
sweep_once_retains retention_days batch_size n now events i ran young = (
  purge_expired_le (earlier now (retention_days * day)) batch_size events n ran,
  purge_expired_keeps (earlier now (retention_days * day)) batch_size events i young,
)
