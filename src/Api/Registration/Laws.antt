-- ===== src/Api/Registration/Laws.antt =====
-- A token registers one gateway, a refused registration leaves no trace, and a gateway keeps its
-- tenant.
use mathlib.Core.Path.{ap}
use saas_job_api.Prelude.{
  ℕ, String, ◌≡◌, ◌⊎◌, refl, inl, inr, true, false, Option, none, some, List, [], ◌∷◌, string_eq,
  Bool-cases,
}
use saas_job_api.Result.{Error, Result, ok, err, unauthorized, Result-cases}
use saas_job_api.Time.{DateTime}
use saas_job_api.Dict.{lookup, IsUnique}
use saas_job_api.Certificates.{Cryptography}
use saas_job_api.Registration.{
  EnrollmentToken, GatewayIdentity, is_used, is_expired, is_rebound, used,
  mark_enrollment_token_used, upsert_gateway_identity, get_gateway_identity,
}
use saas_job_api.Registration.Tokens.{AreDistinct, lookup-mark_first, mark_first-used}
use saas_job_api.Registration.Identities.{IsBound, upsert-IsBound}
use saas_job_api.Api.{App}
use saas_job_api.Api.Registration.{
  GatewayRegisterRequest, GatewayRegisterResponse, RegisterDraws, valid_token, certify,
  new_identity, enroll, admit, register_gateway,
}

module _ {Csr : Type 0} (crypto : Cryptography Csr) (validity_days : ℕ)
    (sha256 : String → String) where
  abbrev enrolling :
      GatewayRegisterRequest
      → RegisterDraws
      → EnrollmentToken
      → App
      → Result GatewayRegisterResponse × App
  enrolling body draws token s = enroll crypto validity_days sha256 body draws token s

  -- What an enrollment does: it fails and changes nothing, or it returns, binds an identity and
  -- marks the token.
  enroll_cases :
      (body : GatewayRegisterRequest) (draws : RegisterDraws) (token : EnrollmentToken) (s : App)
      → ((e : Error) × (enrolling body draws token s ≡ (err e, s)))
        ⊎ ((a : GatewayRegisterResponse) × (i : GatewayIdentity) × ((enrolling body draws token s).0
              ≡ ok a)
            × ((enrolling body draws token s).1.registration
                ≡ (mark_enrollment_token_used token.token_id draws.now body.gateway_id
                    (upsert_gateway_identity i s.registration).1).1)
            × ((upsert_gateway_identity i s.registration).1.tokens_by_hash
                ≡ s.registration.tokens_by_hash))
  unfolding enroll get_gateway_identity
  enroll_cases body draws token s =
      elim (Result-cases (certify crypto validity_days sha256 body draws)) [
        | inr (e, c) ↦ inl (e, rw c refl)
        | inl (certified, c) ↦
            let existing = lookup body.gateway_id s.registration.identities in
            elim (Bool-cases (is_rebound existing token.tenant_id)) [
              | inl bad ↦ inl (unauthorized, rw (c, bad) refl)
              | inr good ↦
                  let i = new_identity body draws existing token certified.0 certified.1 in
                  elim (Bool-cases
                    (is_rebound (lookup i.gateway_id s.registration.identities) i.tenant_id)) [
                      | inl other ↦ inl (unauthorized, rw (c, good, other) refl)
                      | inr own ↦
                          let a : GatewayRegisterResponse = record {
                            gateway_id = body.gateway_id;
                            certificate_pem = certified.0.certificate_pem;
                            not_after = certified.0.not_after;
                          } in
                          inr (a, i, rw (c, good, own) refl, rw (c, good, own) refl, rw own refl)
                    ]
            ]
      ]

  abbrev registering :
      GatewayRegisterRequest → RegisterDraws → App → Result GatewayRegisterResponse × App
  registering body draws s = register_gateway crypto validity_days sha256 body draws s

  -- What a registration does: it fails and changes nothing, or it binds an identity and marks the
  -- token, which was not used.
  register_cases :
      (body : GatewayRegisterRequest) (draws : RegisterDraws) (s : App)
      → ((e : Error) × (registering body draws s ≡ (err e, s)))
        ⊎ ((a : GatewayRegisterResponse) × (i : GatewayIdentity) × (token : EnrollmentToken)
            × ((registering body draws s).0 ≡ ok a)
            × ((registering body draws s).1.registration
                ≡ (mark_enrollment_token_used token.token_id draws.now body.gateway_id
                    (upsert_gateway_identity i s.registration).1).1)
            × ((upsert_gateway_identity i s.registration).1.tokens_by_hash
                ≡ s.registration.tokens_by_hash)
            × (valid_token
                  (lookup (sha256 body.enrollment_token) s.registration.tokens_by_hash)
                  draws.now
                ≡ ok token))
  unfolding register_gateway admit
  register_cases body draws s =
      elim (Result-cases (admit crypto validity_days sha256 body draws s)) [
        | inr (e, c) ↦ inl (e, rw (c, register_gateway) refl)
        | inl (token, c) ↦ elim (enroll_cases body draws token s) [
          | inl (e, r) ↦ inl (e, rw (c, register_gateway) r)
          | inr (a, i, r, written, kept) ↦
              inr
                (a, i, token, rw (c, register_gateway) r, rw (c, register_gateway) written, kept, c)
        ]
      ]

  -- A registration that is refused, whatever the reason, changes nothing.
  pub register_gateway_refused :
      (body : GatewayRegisterRequest) (draws : RegisterDraws) (s : App) (e : Error)
      → (register_gateway crypto validity_days sha256 body draws s).0 ≡ err e
      → (register_gateway crypto validity_days sha256 body draws s).1 ≡ s
  register_gateway_refused body draws s e h = elim (register_cases body draws s) [
    | inl (x, r) ↦ ap (λ ran. ran.1) r
    | inr (a, i, token, r, _, _, _) ↦ cc
  ]

  -- A valid token is stored and was not used.
  valid_token_inv :
      (found : Option EnrollmentToken) (now : DateTime) (token : EnrollmentToken)
      → valid_token found now ≡ ok token
      → found ≡ some token
  valid_token_inv none now token h = cc
  valid_token_inv (some x) now token h = elim (Bool-cases (is_used x)) [
    | inl old ↦ cc (rw old at h)
    | inr new ↦ elim (Result-cases (is_expired x now)) [
      | inr (e, c) ↦ cc (rw (new, c) at h)
      | inl (true, c) ↦ cc (rw (new, c) at h)
      | inl (false, c) ↦ cc (rw (new, c) at h)
    ]
  ]

  -- The token with the hash is used.
  abbrev pub IsSpent : String → App → Type 0
  IsSpent token_hash s =
      (t : EnrollmentToken) × (lookup token_hash s.registration.tokens_by_hash ≡ some t)
      × (is_used t ≡ true)

  register-IsSpent :
      (body : GatewayRegisterRequest) (draws : RegisterDraws) (s : App) (token_hash : String)
      → IsSpent token_hash s
      → IsSpent token_hash (registering body draws s).1
  unfolding mark_enrollment_token_used
  register-IsSpent body draws s token_hash (t, e, u) = elim (register_cases body draws s) [
    | inl (x, r) ↦ rw r (t, e, u)
    | inr (a, i, token, r, written, kept, _) ↦
        let (t', f, v) =
          mark_first-used draws.now body.gateway_id token.token_id s.registration.tokens_by_hash
            token_hash t e u in
        (t', rw written (rw kept f), v)
  ]

  -- A registration that returns has spent its token.
  register_spends :
      (body : GatewayRegisterRequest) (draws : RegisterDraws) (s : App)
      (first : GatewayRegisterResponse)
      → IsUnique s.registration.tokens_by_hash
      → AreDistinct s.registration.tokens_by_hash
      → (registering body draws s).0 ≡ ok first
      → IsSpent (sha256 body.enrollment_token) (registering body draws s).1
  unfolding mark_enrollment_token_used
  register_spends body draws s first u d h = elim (register_cases body draws s) [
    | inl (x, r) ↦ let refused : (registering body draws s).0 ≡ err x = ap (λ ran. ran.0) r in cc
    | inr (a, i, token, r, written, kept, valid) ↦
        let found = valid_token_inv _ draws.now token valid in
        (
          used draws.now body.gateway_id token,
          rw written (
              rw kept (
                lookup-mark_first draws.now body.gateway_id s.registration.tokens_by_hash
                  (sha256 body.enrollment_token) token u d found)),
          refl,
        )
  ]

  spent_refused :
      (body : GatewayRegisterRequest) (draws : RegisterDraws) (s : App)
      → IsSpent (sha256 body.enrollment_token) s
      → registering body draws s ≡ (err unauthorized, s)
  unfolding register_gateway admit
  spent_refused body draws s (t, e, u) =
      let refused : admit crypto validity_days sha256 body draws s ≡ err unauthorized =
        rw e (rw u refl) in
      rw (refused, register_gateway) refl

  -- The registrations of a list, one after another.
  abbrev pub register_all : List (GatewayRegisterRequest × RegisterDraws) → App → App
  register_all [] s = s
  register_all ((body, draws) ∷ requests) s =
      register_all requests (register_gateway crypto validity_days sha256 body draws s).1

  register_all-IsSpent :
      (requests : List (GatewayRegisterRequest × RegisterDraws)) (s : App) (token_hash : String)
      → IsSpent token_hash s
      → IsSpent token_hash (register_all requests s)
  register_all-IsSpent [] s token_hash h = h
  register_all-IsSpent ((body, draws) ∷ requests) s token_hash h =
      register_all-IsSpent requests (registering body draws s).1 token_hash
        (register-IsSpent body draws s token_hash h)

  -- A token registers once. After a registration that returned, and after any others that follow
  -- it, a registration with the same enrollment token, for any gateway and at any time, is
  -- unauthorized and changes nothing. The stored tokens have distinct ids and hashes.
  pub register_gateway_once :
      (body again : GatewayRegisterRequest) (draws draws' : RegisterDraws) (s : App)
      (first : GatewayRegisterResponse) (requests : List (GatewayRegisterRequest × RegisterDraws))
      → IsUnique s.registration.tokens_by_hash
      → AreDistinct s.registration.tokens_by_hash
      → (register_gateway crypto validity_days sha256 body draws s).0 ≡ ok first
      → again.enrollment_token ≡ body.enrollment_token
      → register_gateway crypto validity_days sha256 again draws'
          (register_all requests (register_gateway crypto validity_days sha256 body draws s).1)
        ≡ (
          err unauthorized,
          register_all requests (register_gateway crypto validity_days sha256 body draws s).1,
        )
  register_gateway_once body again draws draws' s first requests u d h same =
      let s' = (registering body draws s).1 in
      let spent =
        register_all-IsSpent requests s' (sha256 body.enrollment_token)
          (register_spends body draws s first u d h) in
      spent_refused again draws' (register_all requests s') (rw same spent)

  -- A gateway whose identity is bound to a tenant stays bound to it through every registration, of
  -- any gateway with any token.
  pub register_gateway-IsBound :
      (body : GatewayRegisterRequest) (draws : RegisterDraws) (s : App) (g x : String)
      → IsBound g x s.registration
      → IsBound g x (register_gateway crypto validity_days sha256 body draws s).1.registration
  unfolding mark_enrollment_token_used
  register_gateway-IsBound body draws s g x b = elim (register_cases body draws s) [
    | inl (e, r) ↦ rw r b
    | inr (a, i, token, r, written, _, _) ↦
        let (j, f, t) = upsert-IsBound i g x s.registration b in (j, rw written f, t)
  ]
