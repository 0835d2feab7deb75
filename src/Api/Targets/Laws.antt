-- ===== src/Api/Targets/Laws.antt =====
-- A tenant's targets are closed to the administrators of others.
use saas_job_api.Prelude.{String, ◌≡◌, refl, string_eq}
use saas_job_api.Result.{ok, err, forbidden}
use saas_job_api.Api.{App}
use saas_job_api.Api.Access.{TokenClaims, require_any_role, require_tenant_access}
use saas_job_api.Api.Targets.{
  TargetCreateRequest, Draws, write_roles, create_target, list_targets, get_target, delete_target,
}

module _ (tenant_id : String) (claims : TokenClaims) (s : App) where
  -- An administrator whose role may write, but who has no access to a tenant, neither sees nor
  -- changes its targets: each of the requests is forbidden, and no store changes, the audit log
  -- included.
  pub targets_forbidden :
      (target_id : String) (body : TargetCreateRequest) (draws : Draws)
      → require_tenant_access claims tenant_id ≡ err forbidden
      → require_any_role write_roles claims ≡ ok claims
      → (list_targets tenant_id claims s ≡ (err forbidden, s))
        × (get_target tenant_id target_id claims s ≡ (err forbidden, s))
        × (create_target tenant_id body claims draws s ≡ (err forbidden, s))
        × (delete_target tenant_id target_id claims draws s ≡ (err forbidden, s))
  unfolding list_targets get_target create_target delete_target
  targets_forbidden target_id body draws h r =
      (rw h refl, rw h refl, rw (r, h) refl, rw (r, h) refl)
