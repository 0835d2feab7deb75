-- ===== src/Api/AuditLog.antt =====
-- src/saas_job_api/routers/audit.py, and the sweep of src/saas_job_api/audit_retention.py.
pub mod Laws
use saas_job_api.Prelude.{ℕ, ◌*◌, ◌-◌, String, Option, List, string_eq}
use saas_job_api.Prelude.Int.{ℤ}
use saas_job_api.Exec.{Exec, lift, ◌>>=◌, ◌>>◌}
use saas_job_api.Time.{DateTime}
use saas_job_api.Certificates.{day}
use saas_job_api.Audit.{AuditEvent, MemoryAuditLogStore, list_recent, purge_expired}
use saas_job_api.Api.{App, on_audit}
use saas_job_api.Rbac.{platform_admin}
use saas_job_api.Api.Access.{TokenClaims, require_role}

unfoldable pub list_audit_events :
    (tenant_id : Option String) (limit : ℤ) → TokenClaims → Exec App (List AuditEvent)
unfolding require_role list_recent
list_audit_events tenant_id limit claims = do
  lift (require_role platform_admin claims)
  on_audit (list_recent tenant_id limit)

-- `clock.now() - timedelta(days=...)`. The origin of time stands before all events, so an earlier
-- limit purges nothing either.
abbrev pub earlier : DateTime → ℕ → DateTime
earlier t d = record t { micros = t.micros - d }

unfoldable pub sweep_once : (retention_days batch_size : ℕ) → DateTime → Exec MemoryAuditLogStore ℕ
unfolding purge_expired
sweep_once retention_days batch_size now =
    purge_expired (earlier now (retention_days * day)) batch_size
