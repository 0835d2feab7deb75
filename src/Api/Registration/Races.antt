-- ===== src/Api/Registration/Races.antt =====
-- Two registrations whose checks of the token come before either of them marks it, as the awaited
-- queries of a database allow.
use saas_job_api.Prelude.{ℕ, String, ◌≡◌, ◌≢◌, refl, inl, inr, none, string_eq, ◌==◌, Bool-cases}
use saas_job_api.Result.{ok, IsOk}
use saas_job_api.Dict.{lookup, put}
use saas_job_api.Dict.Laws.{lookup-put}
use saas_job_api.Certificates.{Cryptography, Signed}
use saas_job_api.Registration.{
  EnrollmentToken, mark_enrollment_token_used, upsert_gateway_identity, get_gateway_identity,
}
use saas_job_api.Api.{App}
use saas_job_api.Api.Registration.{
  GatewayRegisterRequest, RegisterDraws, GatewayRegisterResponse, certify, new_identity, enroll,
  admit, register_gateway,
}

module _ {Csr : Type 0} (crypto : Cryptography Csr) (validity_days : ℕ)
    (sha256 : String → String) where
  -- The enrollment of a gateway that is not known yet returns, and stores an identity for it alone.
  enroll_new :
      (body : GatewayRegisterRequest) (draws : RegisterDraws) (token : EnrollmentToken) (s : App)
      (made : Signed × String)
      → certify crypto validity_days sha256 body draws ≡ ok made
      → lookup body.gateway_id s.registration.identities ≡ none
      → IsOk (enroll crypto validity_days sha256 body draws token s).0
        × ((enroll crypto validity_days sha256 body draws token s).1.registration.identities
            ≡ put body.gateway_id
                (new_identity body draws none token made.0 made.1)
                s.registration.identities)
  unfolding enroll get_gateway_identity upsert_gateway_identity new_identity
      mark_enrollment_token_used
  enroll_new body draws token s made c e =
      let a : GatewayRegisterResponse = record {
        gateway_id = body.gateway_id;
        certificate_pem = made.0.certificate_pem;
        not_after = made.0.not_after;
      } in
      ((a, rw c (rw e (rw e refl))), rw c (rw e (rw e refl)))

  -- The check of a token and its marking are not one step. If the checks of two registrations of
  -- different new gateways, with the same token, both come first, and both requests can be
  -- certified, then both return: one token enrolls two gateways.
  pub enroll_twice :
      (body body' : GatewayRegisterRequest) (draws draws' : RegisterDraws) (token : EnrollmentToken)
      (s : App) (made made' : Signed × String)
      → admit crypto validity_days sha256 body draws s ≡ ok token
      → admit crypto validity_days sha256 body' draws' s ≡ ok token
      → certify crypto validity_days sha256 body draws ≡ ok made
      → certify crypto validity_days sha256 body' draws' ≡ ok made'
      → lookup body.gateway_id s.registration.identities ≡ none
      → lookup body'.gateway_id s.registration.identities ≡ none
      → body.gateway_id ≢ body'.gateway_id
      → IsOk (register_gateway crypto validity_days sha256 body draws s).0
        × IsOk
            (enroll crypto validity_days sha256 body' draws' token
              (register_gateway crypto validity_days sha256 body draws s).1).0
  unfolding register_gateway
  enroll_twice body body' draws draws' token s made made' t t' c c' e e' other =
      let (a, ids) = enroll_new body draws token s made c e in
      let s' = (enroll crypto validity_days sha256 body draws token s).1 in
      let still : lookup body'.gateway_id s'.registration.identities ≡ none = rw ids (
        rw lookup-put (elim (Bool-cases (body.gateway_id == body'.gateway_id)) [
          | inl hit ↦ absurd (other ((string_eq.eqb_iff body.gateway_id body'.gateway_id).0 hit))
          | inr miss ↦ rw miss e'
        ])) in
      let (a', ids') = enroll_new body' draws' token s' made' c' still in
      (rw (t, register_gateway) a, rw (t, register_gateway) a')
