-- ===== src/Registration/Identities.antt =====
-- A gateway keeps the tenant that its identity was bound to.
use saas_job_api.Prelude.{
  String, ◌≡◌, refl, inl, inr, false, Option, some, arith, string_eq, ◌==◌, Bool-cases,
  option_beq_iff,
}
use saas_job_api.Dict.{lookup}
use saas_job_api.Dict.Laws.{lookup-put}
use saas_job_api.Registration.{
  GatewayIdentity, MemoryRegistrationStore, is_rebound, upsert_gateway_identity,
}

-- An identity is bound to a tenant.
abbrev pub IsBound : String → String → MemoryRegistrationStore → Type 0
IsBound gateway_id tenant_id s =
    (i : GatewayIdentity) × (lookup gateway_id s.identities ≡ some i)
    × (i.tenant_id ≡ some tenant_id)

accepted_tenant :
    (previous : GatewayIdentity) (tenant_id : Option String) (x : String)
    → previous.tenant_id ≡ some x
    → is_rebound (some previous) tenant_id ≡ false
    → tenant_id ≡ some x
accepted_tenant previous tenant_id x e h =
    ground (arith, option_beq_iff previous.tenant_id tenant_id)

-- A new identity does not change the tenant of a bound one.
pub upsert-IsBound :
    (new : GatewayIdentity) (g x : String) (s : MemoryRegistrationStore)
    → IsBound g x s
    → IsBound g x (upsert_gateway_identity new s).1
unfolding upsert_gateway_identity
upsert-IsBound new g x s (i, e, b) =
    elim (Bool-cases (is_rebound (lookup new.gateway_id s.identities) new.tenant_id)) [
      | inl refused ↦ rw refused (i, e, b)
      | inr passed ↦ elim (Bool-cases (new.gateway_id == g)) [
        | inr other ↦ rw passed (i, rw lookup-put (rw other e), b)
        | inl own ↦
            let same : new.gateway_id ≡ g = (string_eq.eqb_iff new.gateway_id g).0 own in
            let stood : lookup new.gateway_id s.identities ≡ some i = rw same e in
            let tenant = accepted_tenant i new.tenant_id x b (rw stood at passed) in
            rw passed (new, rw lookup-put (rw own refl), tenant)
      ]
    ]
