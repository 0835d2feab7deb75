-- ===== src/Certificates.antt =====
-- `CertificateAuthority.sign_gateway_csr` of src/saas_job_api/certs.py. The package `cryptography`
-- is a parameter: what it reads from a request, and what it signs.
use saas_job_api.Prelude.{ℕ, ◌*◌, String, Bool, Option, none, some, if◌then◌else◌}
use saas_job_api.Result.{Result, ok, err, bad_request}
use saas_job_api.Time.{DateTime, later}

-- `Csr` is the type of a parsed certificate request.
pub record Cryptography (Csr : Type 0) : Type 0 where
  -- `x509.load_pem_x509_csr`, with no value where it raises a ValueError.
  pub load_pem_x509_csr : String → Option Csr
  pub is_signature_valid : Csr → Bool
  -- The raw bytes of the public key, if it is of a kind that has them, as their SHA-256 in hex.
  pub public_key_fingerprint : Csr → Option String
  -- The signed certificate for a gateway and a request, with its serial number and its period.
  pub sign :
      (gateway_id : String) → Csr → (serial : String) → (not_before not_after : DateTime) → String

-- What `sign_gateway_csr` returns.
pub record Signed : Type 0 where
  pub certificate_pem : String
  pub serial : String
  pub not_after : DateTime

-- A day in microseconds.
abbrev pub day : ℕ
day = 86400000000

module _ {Csr : Type 0} (crypto : Cryptography Csr) (validity_days : ℕ) where
  abbrev pub sign_loaded :
      (gateway_id : String) → DateTime → (serial : String) → Option Csr → Result Signed
  sign_loaded gateway_id now serial none = err (bad_request "malformed CSR")
  sign_loaded gateway_id now serial (some csr) =
      if crypto.is_signature_valid csr
      then ok (record {
        certificate_pem = crypto.sign gateway_id csr serial now (later now (validity_days * day));
        serial = serial;
        not_after = later now (validity_days * day);
      })
      else err (bad_request "CSR signature does not verify")

  -- The InvalidCsrError is given as the BadRequestError that `register_gateway` makes of it. The
  -- reading of the clock and the random serial number, in hex, are arguments.
  unfoldable pub sign_gateway_csr :
      (csr_pem gateway_id : String) → DateTime → (serial : String) → Result Signed
  sign_gateway_csr csr_pem gateway_id now serial =
      sign_loaded gateway_id now serial (crypto.load_pem_x509_csr csr_pem)
