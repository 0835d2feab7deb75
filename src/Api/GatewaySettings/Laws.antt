-- ===== src/Api/GatewaySettings/Laws.antt =====
-- Who may change a gateway's configuration, and what the gateway reads afterwards.
use mathlib.Core.Path.{ap, ◌∙◌}
use saas_job_api.Rbac.{AdminRole}
use saas_job_api.Prelude.{List, String, ◌≡◌, inl, inr, false, some, Bool-cases, string_eq, is_none}
use saas_job_api.Exec.{Exec, proceed}
use saas_job_api.Result.{
  Error, ok, err, Result-cases, unauthorized, forbidden, type_error, database_error, conflict,
  bad_request, not_found, value_error,
}
use saas_job_api.Dict.{lookup}
use saas_job_api.GatewayConfig.{save_with_previous}
use saas_job_api.GatewayConfig.Laws.{save_versions}
use saas_job_api.Api.{App, Settings}
use saas_job_api.Api.Access.{TokenClaims, is_among, require_any_role, require_tenant_access}
use saas_job_api.Api.GatewaySettings.{
  GatewayOperationalConfigUpdate, GatewayOperationalConfigResponse, UpdateDraws, write_roles,
  is_elsewhere, is_closed, config_audit, saving_of, response, not_found_of, get_gateway_config,
  update_admin_gateway_config,
}

-- What a change that is made says of the rights of the caller and of the stores.
pub record IsPermitted (tenant_id gateway_id : String) (claims : TokenClaims) (s : App)
    : Type 0 where
  pub role : require_any_role write_roles claims ≡ ok claims
  pub access : require_tenant_access claims tenant_id ≡ ok tt
  pub tenant : is_none (lookup tenant_id s.tenants) ≡ false
  pub gateway : is_elsewhere tenant_id (lookup gateway_id s.registration.identities) ≡ false
  pub unclosed : is_closed tenant_id claims.role (lookup gateway_id s.configs) ≡ false

passed :
    (roles : List AdminRole) (claims c : TokenClaims)
    → require_any_role roles claims ≡ ok c
    → c ≡ claims
unfolding require_any_role
passed roles claims c h = elim (Bool-cases (is_among claims.role roles)) [
  | inl among ↦ cc (rw among at h)
  | inr other ↦ cc (rw other at h)
]

-- What follows a refusal does not run.
not_found_of-stops :
    {A B : Type 0} (next : A → Exec App B) (e : Error) (s : App) (b : B)
    → (proceed next (not_found_of {A = A} (err e, s)).0 (not_found_of {A = A} (err e, s)).1).0
      ≡ ok b
    → ⊥
not_found_of-stops next unauthorized s b h = cc
not_found_of-stops next forbidden s b h = cc
not_found_of-stops next type_error s b h = cc
not_found_of-stops next database_error s b h = cc
not_found_of-stops next (conflict text) s b h = cc
not_found_of-stops next (bad_request text) s b h = cc
not_found_of-stops next (not_found text) s b h = cc
not_found_of-stops next (value_error text) s b h = cc

module _ (tenant_id gateway_id : String) (body : GatewayOperationalConfigUpdate)
    (claims : TokenClaims) (draws : UpdateDraws) (settings : Settings) (s : App)
    (answer : GatewayOperationalConfigResponse) where
  -- A change of a configuration that is answered was asked for by a principal whose role may
  -- write and who has access to the tenant; the tenant exists and the gateway is registered for
  -- it; the configuration that stood, if any, is the tenant's, and a first one is set by a
  -- platform administrator. What the gateway then reads is what was answered.
  pub update_sound :
      (update_admin_gateway_config tenant_id gateway_id body claims draws s).0 ≡ ok answer
      → IsPermitted tenant_id gateway_id claims s
        × ((get_gateway_config settings gateway_id
              (update_admin_gateway_config tenant_id gateway_id body claims draws s).1).0
            ≡ ok answer)
  unfolding update_admin_gateway_config get_gateway_config saving_of response
  update_sound f =
      let sink = config_audit tenant_id gateway_id claims.subject draws.event_id in
      let saving = saving_of tenant_id gateway_id body draws in
      elim (Result-cases (require_any_role write_roles claims)) [
        | inr (e, a) ↦ cc (rw a at f)
        | inl (c, a) ↦ elim (Result-cases (require_tenant_access claims tenant_id)) [
          | inr (e, b) ↦ cc (rw (a, b) at f)
          | inl (u, b) ↦ elim (Bool-cases (is_none (lookup tenant_id s.tenants))) [
            | inl absent ↦ cc (rw (a, b, absent) at f)
            | inr present ↦
                elim (Bool-cases
                  (is_elsewhere tenant_id (lookup gateway_id s.registration.identities))) [
                    | inl away ↦ cc (rw (a, b, present, away) at f)
                    | inr here ↦
                        elim (Bool-cases
                          (is_closed tenant_id claims.role (lookup gateway_id s.configs))) [
                            | inl shut ↦ cc (rw (a, b, present, here, shut) at f)
                            | inr unshut ↦
                                elim (Result-cases
                                  (save_with_previous (some sink) saving (s.configs, s.audit)).0) [
                                    | inr (e, w) ↦ absurd (
                                        not_found_of-stops _ e _ answer
                                          (rw (a, b, present, here, unshut, w) at f))
                                    | inl (saved, w) ↦
                                        let stored =
                                          save_versions (some sink) saving s.configs s.audit saved
                                            w in
                                        (
                                          record {
                                            role = a ∙ ap ok (passed write_roles claims c a);
                                            access = b;
                                            tenant = present;
                                            gateway = here;
                                            unclosed = unshut;
                                          },
                                          rw (a, b, present, here, unshut, w, stored.1)
                                              (rw (a, b, present, here, unshut, w) at f),
                                        )
                                  ]
                          ]
                  ]
          ]
        ]
      ]
