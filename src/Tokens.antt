-- ===== src/Tokens.antt =====
-- src/saas_job_api/jwt_tokens.py and passwords.py: signed tokens and hashed passwords. A text that
-- the code takes apart is a list of code points, and bytes are a list of numbers. What hashlib,
-- hmac, base64 and json compute is a parameter, with the laws that the code relies on.
pub mod Text
pub mod Jwt
pub mod RoundTrip
pub mod Soundness
pub mod Passwords
pub mod Bearer
use Prim.Native.Char.{code}
use saas_job_api.Prelude.{
  ℕ, ◌+◌, ◌<◌, String, ◌≡◌, Bool, Option, some, List, [], ◌∷◌, ◌++◌, All, length, string_eq,
}
use Prim.Native.Nat.{◌%◌}
use saas_job_api.Prelude.Int.{ℤ}
use saas_job_api.Result.{Error, Result}
use saas_job_api.Dict.{Dict, IsUnique}
use saas_job_api.Tokens.Text.{Lacks, repeat}

-- A value in a payload; what is in a nested one is never read. Floats and Booleans, which
-- `issue_token` does not write, are left out.
pub data Value : Type 0 where
  text : String → Value
  number : ℤ → Value
  null nested : Value

pub data Json : Type 0 where
  object : Dict String Value → Json
  plain : Value → Json

pub record Library : Type 0 where
  -- `json.dumps(...).encode("utf-8")` and `json.loads`, which may raise.
  pub dumps : Json → List ℕ
  pub loads : List ℕ → Option Json
  -- `base64.urlsafe_b64encode(...)` as a text and `base64.urlsafe_b64decode`, which may raise.
  pub urlsafe_b64encode : List ℕ → List ℕ
  pub urlsafe_b64decode : List ℕ → Option (List ℕ)
  pub b64encode : List ℕ → List ℕ
  pub b64decode : List ℕ → Option (List ℕ)
  -- `hmac.new(secret, text, sha256).digest()`
  pub hmac : List ℕ → List ℕ → List ℕ
  -- `hashlib.pbkdf2_hmac("sha256", password, salt, iterations)`, which refuses to iterate less than
  -- once.
  pub pbkdf2 : List ℕ → List ℕ → ℤ → Result (List ℕ)
  -- `int(text)`, which may raise, and `str(n)`.
  pub int_of : List ℕ → Option ℤ
  pub str_of : ℕ → List ℕ
  -- `c.isspace()`
  pub is_space : ℕ → Bool
  -- The message of the UnicodeEncodeError for a text.
  pub encode_message : List ℕ → String

-- A base64 text: characters other than `=`, `.` and `$`, and up to three `=` that fill the last
-- group of four.
abbrev pub IsGrouped : List ℕ → Type 0
IsGrouped s =
    (body : List ℕ) × (fill : ℕ) × (s ≡ body ++ repeat fill b'=')
    × Lacks b'=' body
    × Lacks b'.' body
    × Lacks b'$' body
    × All (λ c. c < 128) body
    × (fill < 4)
    × ((length body + fill) % 4 ≡ 0)

-- What the documentation of base64 says.
pub record IsCodec (lib : Library) : Type 0 where
  pub urlsafe_b64decode-encode :
      (bytes : List ℕ) → lib.urlsafe_b64decode (lib.urlsafe_b64encode bytes) ≡ some bytes
  pub urlsafe_b64encode-IsGrouped : (bytes : List ℕ) → IsGrouped (lib.urlsafe_b64encode bytes)
  pub b64decode-encode : (bytes : List ℕ) → lib.b64decode (lib.b64encode bytes) ≡ some bytes
  pub b64encode-IsGrouped : (bytes : List ℕ) → IsGrouped (lib.b64encode bytes)

-- JSON gives the object back that it was asked to encode.
abbrev pub IsReadable : Library → Dict String Value → Type 0
IsReadable lib d = lib.loads (lib.dumps (object d)) ≡ some (object d)
