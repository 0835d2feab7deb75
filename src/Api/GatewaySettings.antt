-- ===== src/Api/GatewaySettings.antt =====
-- src/saas_job_api/routers/gateway_config.py: the configuration of a gateway, read by the gateway
-- and by administrators, and changed by these. Intervals out of range are refused before.
pub mod Laws
use saas_job_api.Prelude.{
  ℕ, String, Bool, true, false, not, ◌&&◌, ◌||◌, Option, none, some, List, [], ◌∷◌, string_eq,
  option_beq, ◌==◌, is_none, if◌then◌else◌,
}
use saas_job_api.Result.{
  Result, ok, err, unauthorized, forbidden, type_error, database_error, conflict, bad_request,
  not_found, value_error,
}
use saas_job_api.Exec.{Exec, pure, raise, lift, gets, guard, ◌>>=◌, ◌>>◌}
use saas_job_api.Time.{DateTime}
use saas_job_api.Dict.{lookup}
use saas_job_api.Audit.{AuditEvent, ConfigDetail, MemoryAuditLogStore, config, append}
use saas_job_api.Tenancy.Tenants as Tenants
use saas_job_api.Registration.{GatewayIdentity, get_gateway_identity}
use saas_job_api.GatewayConfig.{
  GatewayOperationalConfig, MemoryGatewayOperationalConfigStore, Saving, Saved, AuditSink,
  save_with_previous,
}
use saas_job_api.Api.{App, Settings, on_tenants, on_registration}
use saas_job_api.Rbac.{AdminRole, platform_admin, tenant_admin}
use saas_job_api.Api.Access.{TokenClaims, role_beq, require_any_role, require_tenant_access}

pub record GatewayOperationalConfigResponse : Type 0 where
  pub config_version : ℕ
  pub poll_interval_ms : ℕ
  pub heartbeat_interval_ms : ℕ
  pub accept_new_jobs : Bool
  pub updated_at : Option DateTime

pub record GatewayOperationalConfigUpdate : Type 0 where
  pub poll_interval_ms : ℕ
  pub heartbeat_interval_ms : ℕ
  pub accept_new_jobs : Bool

-- `_response`, without the constant `schemaVersion`.
unfoldable pub response :
    Option GatewayOperationalConfig → (poll heartbeat : ℕ) → GatewayOperationalConfigResponse
response none poll heartbeat = record {
  config_version = 0;
  poll_interval_ms = poll;
  heartbeat_interval_ms = heartbeat;
  accept_new_jobs = true;
  updated_at = none;
}
response (some c) poll heartbeat = record {
  config_version = c.config_version;
  poll_interval_ms = c.poll_interval_ms;
  heartbeat_interval_ms = c.heartbeat_interval_ms;
  accept_new_jobs = c.accept_new_jobs;
  updated_at = some c.updated_at;
}

unfoldable pub get_gateway_config :
    Settings → (gateway_id : String) → Exec App GatewayOperationalConfigResponse
unfolding response
get_gateway_config settings gateway_id = do
  found ← gets (λ s. lookup gateway_id s.configs)
  pure
      (response found settings.default_poll_after_ms settings.default_gateway_heartbeat_interval_ms)

-- `x is None or x.tenant_id != tenant_id`
abbrev pub is_foreign : String → Option GatewayOperationalConfig → Bool
is_foreign tenant_id none = true
is_foreign tenant_id (some c) = not (c.tenant_id == tenant_id)

abbrev pub is_elsewhere : String → Option GatewayIdentity → Bool
is_elsewhere tenant_id none = true
is_elsewhere tenant_id (some identity) = not (option_beq identity.tenant_id (some tenant_id))

abbrev pub shown : Option GatewayOperationalConfig → Result GatewayOperationalConfigResponse
unfolding response
shown none = err (not_found "Gateway configuration not found")
shown (some c) = ok (response (some c) c.poll_interval_ms c.heartbeat_interval_ms)

unfoldable pub get_admin_gateway_config :
    (tenant_id gateway_id : String) → TokenClaims → Exec App GatewayOperationalConfigResponse
unfolding require_tenant_access
get_admin_gateway_config tenant_id gateway_id claims = do
  lift (require_tenant_access claims tenant_id)
  found ← gets (λ s. lookup gateway_id s.configs)
  guard (not (is_foreign tenant_id found)) (not_found "Gateway configuration not found")
  lift (shown found)

abbrev pub write_roles : List AdminRole
write_roles = platform_admin ∷ tenant_admin ∷ []

pub record UpdateDraws : Type 0 where
  pub now : DateTime
  pub event_id : String

abbrev pub detail_of : GatewayOperationalConfig → ConfigDetail
detail_of c = record {
  poll_interval_ms = c.poll_interval_ms;
  heartbeat_interval_ms = c.heartbeat_interval_ms;
  accept_new_jobs = c.accept_new_jobs;
  config_version = c.config_version;
}

abbrev pub old_detail : Option GatewayOperationalConfig → Option ConfigDetail
old_detail none = none
old_detail (some c) = some (detail_of c)

-- The audit store and `audit_event_factory`.
unfoldable pub config_audit :
    (tenant_id gateway_id subject event_id : String) → AuditSink MemoryAuditLogStore
unfolding append
config_audit tenant_id gateway_id subject event_id = record {
  append = append;
  event = λ old current. record {
    event_id = event_id;
    event_type = "GATEWAY_OPERATIONAL_CONFIG_UPDATED";
    actor = subject;
    tenant_id = some tenant_id;
    resource_type = some "gateway_config";
    resource_id = some gateway_id;
    detail = config (old_detail old) (detail_of current);
    occurred_at = current.updated_at;
  };
}

abbrev pub on_configs :
    {A : Type 0} → Exec (MemoryGatewayOperationalConfigStore × MemoryAuditLogStore) A → Exec App A
on_configs m s =
    let ran = m (s.configs, s.audit) in (ran.0, record s { configs = ran.1.0; audit = ran.1.1 })

-- `except GatewayConfigTenantMismatch as exc: raise NotFoundError(...) from exc`
abbrev pub not_found_of : {A : Type 0} → Result A × App → Result A × App
not_found_of (err (value_error text), s) = (err (not_found "Gateway configuration not found"), s)
not_found_of (err unauthorized, s) = (err unauthorized, s)
not_found_of (err forbidden, s) = (err forbidden, s)
not_found_of (err type_error, s) = (err type_error, s)
not_found_of (err database_error, s) = (err database_error, s)
not_found_of (err (conflict text), s) = (err (conflict text), s)
not_found_of (err (bad_request text), s) = (err (bad_request text), s)
not_found_of (err (not_found text), s) = (err (not_found text), s)
not_found_of (ok a, s) = (ok a, s)

unfoldable pub saving_of :
    (tenant_id gateway_id : String) → GatewayOperationalConfigUpdate → UpdateDraws → Saving
saving_of tenant_id gateway_id body draws = record {
  gateway_id = gateway_id;
  tenant_id = tenant_id;
  poll_interval_ms = body.poll_interval_ms;
  heartbeat_interval_ms = body.heartbeat_interval_ms;
  accept_new_jobs = body.accept_new_jobs;
  updated_at = draws.now;
}

-- Whether the configuration that stands forbids the change: a first one is for a platform
-- administrator, and one of another tenant is for nobody.
abbrev pub is_closed : String → AdminRole → Option GatewayOperationalConfig → Bool
is_closed tenant_id role none = not (role_beq role platform_admin)
is_closed tenant_id role (some c) = not (c.tenant_id == tenant_id)

unfoldable pub update_admin_gateway_config :
    (tenant_id gateway_id : String)
    → GatewayOperationalConfigUpdate
    → TokenClaims
    → UpdateDraws
    → Exec App GatewayOperationalConfigResponse
unfolding require_any_role require_tenant_access Tenants.get get_gateway_identity config_audit
    saving_of save_with_previous response role_beq
update_admin_gateway_config tenant_id gateway_id body claims draws = do
  lift (require_any_role write_roles claims)
  lift (require_tenant_access claims tenant_id)
  tenant ← on_tenants (Tenants.get tenant_id)
  guard (not (is_none tenant)) (not_found "Tenant not found")
  identity ← on_registration (get_gateway_identity gateway_id)
  guard (not (is_elsewhere tenant_id identity)) (not_found "Gateway configuration not found")
  previous ← gets (λ s. lookup gateway_id s.configs)
  guard (not (is_closed tenant_id claims.role previous))
      (not_found "Gateway configuration not found")
  saved ← (λ s. not_found_of (
      on_configs
        (save_with_previous (some (config_audit tenant_id gateway_id claims.subject draws.event_id))
          (saving_of tenant_id gateway_id body draws))
        s))
  pure (response (some saved.1) saved.1.poll_interval_ms saved.1.heartbeat_interval_ms)
