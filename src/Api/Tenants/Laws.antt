-- ===== src/Api/Tenants/Laws.antt =====
-- The life of a tenant, and who may create, list and delete tenants.
use saas_job_api.Prelude.{
  String, ◌≡◌, refl, inl, inr, none, some, string_eq, Option-cases, beq_refl,
}
use Prim.Native.String.{◌++◌ as concat}
use saas_job_api.Result.{ok, err, forbidden, not_found, conflict}
use saas_job_api.Dict.{lookup, IsUnique}
use saas_job_api.Dict.Laws.{lookup-put, lookup-remove}
use saas_job_api.Rbac.{platform_admin}
use saas_job_api.Tenancy.{Tenant}
use saas_job_api.Tenancy.Tenants.{create, delete}
use saas_job_api.Api.{App}
use saas_job_api.Api.Access.{TokenClaims, require_role, require_tenant_access}
use saas_job_api.Api.Tenants.{
  TenantCreateRequest, TenantDraws, new_tenant, create_tenant, list_tenants, get_tenant,
  delete_tenant,
}

module _ (claims reader : TokenClaims) (draws : TenantDraws) (s : App) where
  -- An id that is taken is a conflict, and nothing changes.
  pub create_conflict :
      (body : TenantCreateRequest) (old : Tenant)
      → require_role platform_admin claims ≡ ok claims
      → lookup (new_tenant body draws).tenant_id s.tenants ≡ some old
      → create_tenant body claims draws s ≡ (
        err (conflict (concat "tenant_id already exists: " (new_tenant body draws).tenant_id)),
        s,
      )
  unfolding create_tenant create
  create_conflict body old may h = rw (may, h) refl

  -- Creating and reading a tenant: if its id is new and the caller is a platform administrator,
  -- then a reader with access to the tenant gets the tenant that was created.
  pub create_then_get :
      (body : TenantCreateRequest)
      → require_role platform_admin claims ≡ ok claims
      → require_tenant_access reader (new_tenant body draws).tenant_id ≡ ok tt
      → lookup (new_tenant body draws).tenant_id s.tenants ≡ none
      → (get_tenant
          (new_tenant body draws).tenant_id
          reader
          (create_tenant body claims draws s).1).0
        ≡ ok (new_tenant body draws)
  unfolding create_tenant create get_tenant
  create_then_get body may sees h =
      rw
        (
          may,
          sees,
          h,
          lookup-put (new_tenant body draws).tenant_id (new_tenant body draws).tenant_id
              (new_tenant body draws) s.tenants,
          beq_refl {A = String} (new_tenant body draws).tenant_id,
        )
        refl

  -- A tenant that a platform administrator deleted, or that was not there, is not found afterwards.
  pub delete_then_get :
      (tenant_id : String)
      → IsUnique s.tenants
      → require_role platform_admin claims ≡ ok claims
      → require_tenant_access reader tenant_id ≡ ok tt
      → (get_tenant tenant_id reader (delete_tenant tenant_id claims draws s).1).0
        ≡ err (not_found (concat "tenant not found: " tenant_id))
  unfolding delete_tenant delete get_tenant
  delete_then_get tenant_id u may sees = elim (Option-cases (lookup tenant_id s.tenants)) [
    | inl gone ↦ rw (may, sees, gone, gone) refl
    | inr (old, found) ↦
        rw
          (
            may,
            sees,
            found,
            lookup-remove tenant_id tenant_id s.tenants u,
            beq_refl {A = String} tenant_id,
          )
          refl
  ]

  -- Only a platform administrator creates, lists and deletes tenants.
  pub tenants_forbidden :
      (body : TenantCreateRequest) (tenant_id : String)
      → require_role platform_admin claims ≡ err forbidden
      → (create_tenant body claims draws s ≡ (err forbidden, s))
        × (list_tenants claims s ≡ (err forbidden, s))
        × (delete_tenant tenant_id claims draws s ≡ (err forbidden, s))
  unfolding create_tenant list_tenants delete_tenant
  tenants_forbidden body tenant_id h = (rw h refl, rw h refl, rw h refl)
