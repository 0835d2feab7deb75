-- ===== src/Tests/Administration.antt =====
-- The theorems on tenants, gateway configurations and retention, at concrete requests.
use text.Mathlib.TextEquality.{eq_iff}
use saas_job_api.Prelude.{
  ℕ, String, ◌≡◌, ◌≤◌, refl, true, none, some, [], ◌∷◌, arith, string_eq, contains,
}
use saas_job_api.Result.{ok}
use saas_job_api.Time.{aware, is_before}
use saas_job_api.Dict.{lookup}
use saas_job_api.Sorting.{filter}
use saas_job_api.Audit.{
  AuditEvent, MemoryAuditLogStore, empty, with_ids, purge_expired, expired_ids, ids,
}
use saas_job_api.Registration.{GatewayIdentity}
use saas_job_api.Rbac.{platform_admin}
use saas_job_api.Tenancy.{Tenant}
use saas_job_api.GatewayConfig.{save_with_previous, replace, next_config}
use saas_job_api.Api.{App}
use saas_job_api.Api.Access.{TokenClaims, require_tenant_access, require_any_role}
use saas_job_api.Api.Tenants.{TenantCreateRequest, TenantDraws}
use saas_job_api.Api.GatewaySettings.{
  GatewayOperationalConfigUpdate, GatewayOperationalConfigResponse, UpdateDraws, config_audit,
  get_gateway_config, update_admin_gateway_config,
}
use saas_job_api.Api.GatewaySettings.Laws.{IsPermitted, update_sound}
use saas_job_api.Api.AuditLog.{sweep_once}
use saas_job_api.Api.AuditLog.Laws.{sweep_once_retains}
use saas_job_api.Tests.Api.{app, settings}

abbrev root : TokenClaims
root = record { subject = "root"; role = platform_admin; tenant_id = none }

abbrev tenant_body : TenantCreateRequest
tenant_body = record { tenant_id = some "tenant_1"; name = "Acme" }

abbrev tenant_draws : TenantDraws
tenant_draws = record { now = aware 1000; new_id = "tenant_2"; event_id = "event" }

abbrev acme : Tenant
acme = record { tenant_id = "tenant_1"; name = "Acme"; created_at = aware 1000; is_active = true }

abbrev member : GatewayIdentity
member = record {
  gateway_id = "gw_1";
  public_key_fingerprint = "key";
  certificate_pem = "pem";
  certificate_serial = "1";
  certificate_not_after = aware 5000;
  registered_at = aware 1000;
  last_rotated_at = aware 1000;
  tenant_id = some "tenant_1";
}

abbrev tenant_app : App
tenant_app = record app {
  tenants = ("tenant_1", acme) ∷ [];
  registration = record { tokens_by_hash = []; identities = ("gw_1", member) ∷ [] };
}

abbrev slower : GatewayOperationalConfigUpdate
slower = record { poll_interval_ms = 9000; heartbeat_interval_ms = 30000; accept_new_jobs = true }

abbrev update_draws : UpdateDraws
update_draws = record { now = aware 2000; event_id = "event" }

abbrev updated : GatewayOperationalConfigResponse
updated = record {
  config_version = 1;
  poll_interval_ms = 9000;
  heartbeat_interval_ms = 30000;
  accept_new_jobs = true;
  updated_at = some (aware 2000);
}

updates :
    (update_admin_gateway_config "tenant_1" "gw_1" slower root update_draws tenant_app).0
    ≡ ok updated
unfolding update_admin_gateway_config lookup save_with_previous replace next_config config_audit
    require_any_role require_tenant_access
updates = refl

update_sound_example :
    IsPermitted "tenant_1" "gw_1" root tenant_app
    × ((get_gateway_config settings "gw_1"
          (update_admin_gateway_config "tenant_1" "gw_1" slower root update_draws tenant_app).1).0
        ≡ ok updated)
update_sound_example =
    update_sound "tenant_1" "gw_1" slower root update_draws settings tenant_app updated updates

abbrev event_at : String → ℕ → AuditEvent
event_at event_id t = record {
  event_id = event_id;
  event_type = "TENANT_CREATED";
  actor = "root";
  tenant_id = none;
  resource_type = none;
  resource_id = none;
  detail = empty;
  occurred_at = aware t;
}

abbrev log : MemoryAuditLogStore
log = event_at "old" 1000 ∷ event_at "new" 86400009000 ∷ []

sweeps : (sweep_once 1 10 (aware 86400005000) log).0 ≡ ok 1
unfolding sweep_once purge_expired expired_ids filter is_before ids contains
sweeps = refl

old_is_not_new : ◌≡◌ {A = String} "old" "new" → ⊥
old_is_not_new = ground (arith, eq_iff "old" "new")

sweep_once_retains_example :
    (1 ≤ 10)
    × (with_ids ("new" ∷ []) (sweep_once 1 10 (aware 86400005000) log).1
        ≡ with_ids ("new" ∷ []) log)
unfolding is_before
sweep_once_retains_example =
    sweep_once_retains 1 10 1 (aware 86400005000) log "new" sweeps
      (λ same. absurd (old_is_not_new same), (λ same. refl, tt))
