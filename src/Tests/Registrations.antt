-- ===== src/Tests/Registrations.antt =====
-- The theorems on registration, tenants, gateway configurations and retention, at concrete requests.
use text.Mathlib.TextEquality.{eq_iff}
use saas_job_api.Prelude.{
  String, ◌≡◌, refl, true, none, some, [], ◌∷◌, arith, string_eq, Bool-cases, inl, inr, ◌==◌,
}
use saas_job_api.Result.{ok, err, unauthorized, IsOk}
use saas_job_api.Time.{aware}
use saas_job_api.Dict.{lookup, put}
use saas_job_api.Certificates.{Cryptography, Signed, sign_gateway_csr}
use saas_job_api.Registration.{EnrollmentToken, GatewayIdentity, is_expired}
use saas_job_api.Registration.Tokens.{AreDistinct}
use saas_job_api.Registration.Identities.{IsBound}
use saas_job_api.Api.{App}
use saas_job_api.Api.Registration.{
  GatewayRegisterRequest, RegisterDraws, GatewayRegisterResponse, certify, enroll, admit,
  register_gateway,
}
use saas_job_api.Api.Registration.Laws.{
  register_all, register_gateway_refused, register_gateway_once, register_gateway-IsBound,
}
use saas_job_api.Api.Registration.Races.{enroll_twice}
use saas_job_api.Tests.Api.{app}

abbrev crypto : Cryptography String
crypto = record {
  load_pem_x509_csr = λ pem. some pem;
  is_signature_valid = λ csr. true;
  public_key_fingerprint = λ csr. some csr;
  sign = λ gateway_id csr serial not_before not_after. csr;
}

-- An injective function in the place of SHA-256.
abbrev hash : String → String
hash plaintext = plaintext

abbrev enrollment : EnrollmentToken
enrollment = record {
  token_id = "token_1";
  token_hash = "secret";
  created_at = aware 1000;
  expires_at = aware 9000;
  issued_by = some "admin";
  used_at = none;
  used_by_gateway_id = none;
  tenant_id = some "tenant_1";
}

abbrev issued_app : App
issued_app = record app {
  registration = record { tokens_by_hash = ("secret", enrollment) ∷ []; identities = [] };
}

abbrev register_body : GatewayRegisterRequest
register_body = record { enrollment_token = "secret"; gateway_id = "gw_1"; csr_pem = "csr" }

abbrev other_body : GatewayRegisterRequest
other_body = record register_body { gateway_id = "gw_2" }

abbrev register_draws : RegisterDraws
register_draws = record {
  now = aware 2000;
  signed_at = aware 2000;
  serial = "1";
  event_id = "event";
}

abbrev made : Signed × String
made = (record { certificate_pem = "csr"; serial = "1"; not_after = aware 2000 }, "csr")

abbrev registered : GatewayRegisterResponse
registered = record { gateway_id = "gw_1"; certificate_pem = "csr"; not_after = aware 2000 }

one_token : AreDistinct issued_app.registration.tokens_by_hash
unfolding lookup
one_token h i t u e f same = elim (Bool-cases ("secret" == h)) [
  | inr miss ↦ cc (rw miss at e)
  | inl hit ↦ elim (Bool-cases ("secret" == i)) [
    | inr miss ↦ cc (rw miss at f)
    | inl twin ↦ cc ((eq_iff "secret" h).0 hit, (eq_iff "secret" i).0 twin)
  ]
]

registers :
    (register_gateway crypto 0 hash register_body register_draws issued_app).0 ≡ ok registered
unfolding register_gateway admit enroll certify sign_gateway_csr is_expired lookup put
registers = refl

register_gateway_once_example :
    register_gateway crypto 0 hash other_body register_draws (
      register_all crypto 0 hash []
        (register_gateway crypto 0 hash register_body register_draws issued_app).1)
    ≡ (
      err unauthorized,
      register_all crypto 0 hash []
          (register_gateway crypto 0 hash register_body register_draws issued_app).1,
    )
unfolding lookup
register_gateway_once_example =
    register_gateway_once crypto 0 hash register_body other_body register_draws register_draws
      issued_app registered [] (refl, tt) one_token registers refl

unknown : (register_gateway crypto 0 hash register_body register_draws app).0 ≡ err unauthorized
unfolding register_gateway admit lookup
unknown = refl

register_gateway_refused_example :
    (register_gateway crypto 0 hash register_body register_draws app).1 ≡ app
register_gateway_refused_example =
    register_gateway_refused crypto 0 hash register_body register_draws app unauthorized unknown

enroll_twice_example :
    IsOk (register_gateway crypto 0 hash register_body register_draws issued_app).0
    × IsOk
        (enroll crypto 0 hash other_body register_draws enrollment
          (register_gateway crypto 0 hash register_body register_draws issued_app).1).0
unfolding admit certify sign_gateway_csr is_expired lookup
enroll_twice_example =
    enroll_twice crypto 0 hash register_body other_body register_draws register_draws enrollment
      issued_app made made refl refl refl refl refl refl (ground (arith, eq_iff "gw_1" "gw_2"))

abbrev identity : GatewayIdentity
identity = record {
  gateway_id = "gw_1";
  public_key_fingerprint = "csr";
  certificate_pem = "csr";
  certificate_serial = "1";
  certificate_not_after = aware 5000;
  registered_at = aware 1000;
  last_rotated_at = aware 1000;
  tenant_id = some "tenant_1";
}

abbrev bound_app : App
bound_app = record app {
  registration = record {
    tokens_by_hash = ("secret", enrollment) ∷ [];
    identities = ("gw_1", identity) ∷ [];
  };
}

register_gateway-IsBound_example :
    IsBound "gw_1" "tenant_1"
      (register_gateway crypto 0 hash register_body register_draws bound_app).1.registration
unfolding lookup
register_gateway-IsBound_example =
    register_gateway-IsBound crypto 0 hash register_body register_draws bound_app "gw_1" "tenant_1"
      (identity, refl, refl)
