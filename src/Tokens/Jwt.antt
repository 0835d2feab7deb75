-- ===== src/Tokens/Jwt.antt =====
-- src/saas_job_api/jwt_tokens.py: tokens signed with HS256.
use Prim.Native.Nat.{◌%◌}
use saas_job_api.Prelude.{
  ℕ, ◌+◌, ◌-◌, String, Bool, true, not, ◌&&◌, Option, none, some, List, [], ◌∷◌, ◌++◌, string_eq,
  length, ltb, if◌then◌else◌,
}
use saas_job_api.Prelude.Int.{pos, ltb_ℤ}
use saas_job_api.Result.{Error, value_error, type_error}
use saas_job_api.Dict.{Dict, lookup}
use saas_job_api.Tokens.{Library, Json, object, plain, Value, text, number, null, nested}
use saas_job_api.Tokens.Text.{text_beq, repeat, split, rstrip}

-- A value, an `InvalidTokenError` with its message, or another exception.
pub data Checked (A : Type 0) : Type 0 where
  checked : A → Checked A
  invalid : String → Checked A
  raised : Error → Checked A

-- `TokenClaims`. The payload decides the types of the fields.
pub record Claims : Type 0 where
  pub subject : Value
  pub role : Value
  pub issued_at : Value
  pub expires_at : Value
  pub tenant_id : Value

abbrev pub is_ascii : List ℕ → Bool
is_ascii [] = true
is_ascii (c ∷ cs) = ltb c 128 && is_ascii cs

abbrev pub tenant_value : Option String → Value
tenant_value none = null
tenant_value (some tenant_id) = text tenant_id

abbrev pub payload :
    (subject role : String) (now ttl_seconds : ℕ) (tenant_id : Option String) → Dict String Value
payload subject role now ttl_seconds tenant_id =
    ("sub", text subject)
    ∷ ("role", text role)
    ∷ ("iat", number (pos now))
    ∷ ("exp", number (pos (now + ttl_seconds)))
    ∷ ("tid", tenant_value tenant_id)
    ∷ []

abbrev pub header : Dict String Value
header = ("alg", text "HS256") ∷ ("typ", text "JWT") ∷ []

-- `payload.get("exp", 0)`
abbrev pub exp_of : Option Value → Value
exp_of none = number (pos 0)
exp_of (some value) = value

-- `payload.get("tid")`
abbrev pub tid_of : Option Value → Value
tid_of none = null
tid_of (some value) = value

-- `payload[key]`, whose KeyError becomes an InvalidTokenError.
abbrev pub required : {A : Type 0} → String → Option Value → (Value → Checked A) → Checked A
required message none next = invalid message
required message (some value) next = next value

abbrev pub claims_of : Dict String Value → Checked Claims
claims_of d = required "missing claim: 'sub'" (lookup "sub" d) λ subject.
    required "missing claim: 'role'" (lookup "role" d) λ role.
      required "missing claim: 'iat'" (lookup "iat" d) λ issued_at.
        required "missing claim: 'exp'" (lookup "exp" d) λ expires_at. checked (record {
          subject = subject;
          role = role;
          issued_at = issued_at;
          expires_at = expires_at;
          tenant_id = tid_of (lookup "tid" d);
        })

-- `... < now`: only a number compares with one.
abbrev pub unless_expired : Value → ℕ → Checked Claims → Checked Claims
unless_expired (text value) now next = raised type_error
unless_expired null now next = raised type_error
unless_expired nested now next = raised type_error
unless_expired (number exp) now next = if ltb_ℤ exp (pos now) then invalid "token expired" else next

abbrev pub check_payload : ℕ → Option Json → Checked Claims
check_payload now none = invalid "malformed payload"
check_payload now (some (plain value)) = invalid "malformed payload"
check_payload now (some (object d)) = unless_expired (exp_of (lookup "exp" d)) now (claims_of d)

abbrev pub check_signature :
    (expected : List ℕ) (actual : Option (List ℕ)) → Checked Claims → Checked Claims
check_signature expected none next = invalid "malformed signature"
check_signature expected (some actual) next =
    if not (text_beq expected actual) then invalid "signature mismatch" else next

-- `-len(data) % 4`
abbrev pub padding : ℕ → ℕ
padding n = (4 - n % 4) % 4

abbrev pub signing_input : List ℕ → List ℕ → List ℕ
signing_input header_b64 payload_b64 = header_b64 ++ b'.' ∷ payload_b64

module _ (lib : Library) where
  unfoldable pub b64url_encode : List ℕ → List ℕ
  unfolding rstrip
  b64url_encode bytes = rstrip b'=' (lib.urlsafe_b64encode bytes)

  unfoldable pub b64url_decode : List ℕ → Option (List ℕ)
  b64url_decode s = lib.urlsafe_b64decode (s ++ repeat (padding (length s)) b'=')

  unfoldable pub issue_token :
      (secret : List ℕ) (subject role : String) (now ttl_seconds : ℕ) (tenant_id : Option String)
      → List ℕ
  unfolding b64url_encode
  issue_token secret subject role now ttl_seconds tenant_id =
      let header_b64 = b64url_encode (lib.dumps (object header)) in
      let payload_b64 =
        b64url_encode (lib.dumps (object (payload subject role now ttl_seconds tenant_id))) in
      let input = signing_input header_b64 payload_b64 in
      input ++ b'.' ∷ b64url_encode (lib.hmac secret input)

  abbrev pub loaded : Option (List ℕ) → Option Json
  loaded none = none
  loaded (some bytes) = lib.loads bytes

  -- The encoding of the input as ASCII is outside of the `try`.
  unfoldable pub verify_parts :
      (secret header_b64 payload_b64 signature_b64 : List ℕ) (now : ℕ) → Checked Claims
  unfolding b64url_decode text_beq
  verify_parts secret header_b64 payload_b64 signature_b64 now =
      let input = signing_input header_b64 payload_b64 in
      if not (is_ascii input)
      then raised (value_error (lib.encode_message input))
      else check_signature (lib.hmac secret input) (b64url_decode signature_b64)
          (check_payload now (loaded (b64url_decode payload_b64)))

  abbrev pub verify_split : (secret : List ℕ) (now : ℕ) → List (List ℕ) → Checked Claims
  verify_split secret now (h ∷ p ∷ s ∷ []) = verify_parts secret h p s now
  verify_split secret now [] = invalid "malformed token"
  verify_split secret now (h ∷ []) = invalid "malformed token"
  verify_split secret now (h ∷ p ∷ []) = invalid "malformed token"
  verify_split secret now (h ∷ p ∷ s ∷ x ∷ more) = invalid "malformed token"

  unfoldable pub verify_token : (secret token : List ℕ) (now : ℕ) → Checked Claims
  unfolding verify_parts split
  verify_token secret token now = verify_split secret now (split b'.' token)
