-- ===== src/Tests/Tokens.antt =====
-- The theorems on tokens, passwords and the login, with a concrete library.
use Prim.Native.Nat.{◌%◌, ◌/◌, ◌*◌}
use Prim.Native.Char.{Char, code, nul}
use mathlib.Core.Path.{ap, ◌∙◌}
use saas_job_api.Prelude.{
  ℕ, String, ◌<◌, zero, suc, ◌+◌, ◌-◌, ◌≡◌, refl, true, false, none, some, List, [], ◌∷◌, ◌++◌,
  arith, All, nat_beq, length, string_eq,
}
use saas_job_api.Prelude.Int.{ℤ, pos, ltb_ℤ}
use saas_job_api.Result.{ok}
use saas_job_api.Time.{aware}
use saas_job_api.Dict.{Dict, lookup, put}
use saas_job_api.Rbac.{AdminPrincipal, platform_admin}
use saas_job_api.Api.{App, on_principals}
use saas_job_api.Api.Login.{AdminLoginRequest, LoginSettings, login, login_response}
use saas_job_api.Api.Login.Laws.{login_token_verifies}
use saas_job_api.Startup.{BootstrapSettings, first_admin, bootstrap_admin_principal}
use saas_job_api.Startup.Laws.{bootstrap_then_login}
use saas_job_api.Postgres.Principals.{role_value}
use saas_job_api.Tests.Api.{app}
use saas_job_api.Tokens.{Library, IsCodec, IsGrouped, Value, object, text, number, null}
use saas_job_api.Tokens.Text.{codes, repeat, Lacks, text_beq, join}
use saas_job_api.Tokens.Jwt.{
  b64url_decode, signing_input, loaded, claims_of, payload, issue_token, verify_token, checked,
  Claims,
}
use saas_job_api.Tokens.RoundTrip.{verify_token-issue_token}
use saas_job_api.Tokens.Soundness.{verify_token_signed}
use saas_job_api.Tokens.Passwords.{
  IsNumeral, scheme, iterations, hash_password, verify_password, verify_password-hash_password,
}

-- A number as letters, and a list of them, filled up to groups of four.
abbrev spell : ℕ → List ℕ → List ℕ
spell zero s = b'B' ∷ s
spell (suc n) s = b'A' ∷ spell n s

abbrev letters : List ℕ → List ℕ
letters [] = []
letters (n ∷ ns) = spell n (letters ns)

abbrev filling : ℕ → ℕ
filling n = (4 - n % 4) % 4

abbrev encode : List ℕ → List ℕ
encode bytes = letters bytes ++ repeat (filling (length (letters bytes))) b'='

abbrev decode : ℕ → List ℕ → List ℕ
decode k [] = []
decode k (c ∷ cs) = elim (nat_beq c b'B') [
  | true ↦ k ∷ decode 0 cs
  | false ↦ elim (nat_beq c b'A') [ true ↦ decode (suc k) cs | false ↦ decode k cs ]
]

decode-fill : (k n : ℕ) → decode k (repeat n b'=') ≡ []
decode-fill k zero = refl
decode-fill k (suc n) = decode-fill k n

decode-spell : (n k : ℕ) (s t : List ℕ) → decode k (spell n s ++ t) ≡ (n + k) ∷ decode 0 (s ++ t)
decode-spell zero k s t = ap (λ m. m ∷ decode 0 (s ++ t)) (omega arith)
decode-spell (suc n) k s t =
    decode-spell n (suc k) s t ∙ ap (λ m. m ∷ decode 0 (s ++ t)) (omega arith)

decode-letters : (bytes : List ℕ) (n : ℕ) → decode 0 (letters bytes ++ repeat n b'=') ≡ bytes
decode-letters [] n = decode-fill 0 n
decode-letters (b ∷ bytes) n =
    decode-spell b 0 (letters bytes) (repeat n b'=')
    ∙ ap (λ r. (b + 0) ∷ r) (decode-letters bytes n)
    ∙ ap (λ m. m ∷ bytes) (omega arith)

spelled : (P : ℕ → Type 0) (n : ℕ) (s : List ℕ) → P b'A' → P b'B' → All P s → All P (spell n s)
spelled P zero s a b h = (b, h)
spelled P (suc n) s a b h = (a, spelled P n s a b h)

lettered : (P : ℕ → Type 0) (bytes : List ℕ) → P b'A' → P b'B' → All P (letters bytes)
lettered P [] a b = tt
lettered P (n ∷ bytes) a b = spelled P n (letters bytes) a b (lettered P bytes a b)

abbrev root_claims : Dict String Value
root_claims = payload "root" "platform_admin" 100 60 none

-- Numerals: a `C` for each hundred thousand, and a `1` for each of the rest.
abbrev count : List ℕ → ℕ
count [] = 0
count (c ∷ cs) = elim (nat_beq c b'C') [ true ↦ 100000 + count cs | false ↦ 1 + count cs ]

count-ones : (n : ℕ) → count (repeat n b'1') ≡ n
count-ones zero = refl
count-ones (suc n) = ap (λ m. 1 + m) (count-ones n) ∙ omega arith

count-numeral : (k n : ℕ) → count (repeat k b'C' ++ repeat n b'1') ≡ k * 100000 + n
count-numeral zero n = count-ones n ∙ omega arith
count-numeral (suc k) n = ap (λ m. 100000 + m) (count-numeral k n) ∙ omega arith

abbrev lib : Library
lib = record {
  dumps = λ value. 1 ∷ [];
  loads = λ bytes. some (object root_claims);
  urlsafe_b64encode = encode;
  urlsafe_b64decode = λ s. some (decode 0 s);
  b64encode = encode;
  b64decode = λ s. some (decode 0 s);
  hmac = λ secret s. length secret ∷ [];
  pbkdf2 = λ password salt n. ok (length password ∷ []);
  int_of = λ s. some (pos (count s));
  str_of = λ n. repeat (n / 100000) b'C' ++ repeat (n % 100000) b'1';
  is_space = λ c. nat_beq c b' ';
  encode_message = λ s. "ordinal not in range(128)";
}

grouped : (n : ℕ) → (n + (4 - n % 4) % 4) % 4 ≡ 0
grouped n = omega arith

short : (n : ℕ) → (4 - n % 4) % 4 < 4
short n = omega arith

encode-IsGrouped : (bytes : List ℕ) → IsGrouped (encode bytes)
encode-IsGrouped bytes = (
  letters bytes,
  filling (length (letters bytes)),
  refl,
  lettered (λ c. nat_beq c b'=' ≡ false) bytes refl refl,
  lettered (λ c. nat_beq c b'.' ≡ false) bytes refl refl,
  lettered (λ c. nat_beq c b'$' ≡ false) bytes refl refl,
  lettered (λ c. c < 128) bytes (omega arith) (omega arith),
  short (length (letters bytes)),
  grouped (length (letters bytes)),
)

lib-IsCodec : IsCodec lib
lib-IsCodec = record {
  urlsafe_b64decode-encode =
      λ bytes. ap some (decode-letters bytes (filling (length (letters bytes))));
  urlsafe_b64encode-IsGrouped = encode-IsGrouped;
  b64decode-encode = λ bytes. ap some (decode-letters bytes (filling (length (letters bytes))));
  b64encode-IsGrouped = encode-IsGrouped;
}

ones : (n : ℕ) → Lacks b'$' (repeat n b'1')
ones zero = tt
ones (suc n) = (refl, ones n)

numeral-Lacks : (k n : ℕ) → Lacks b'$' (repeat k b'C' ++ repeat n b'1')
numeral-Lacks zero n = ones n
numeral-Lacks (suc k) n = (refl, numeral-Lacks k n)

lib-IsNumeral : IsNumeral lib
lib-IsNumeral = record {
  int_of-str_of =
      λ n. ap (λ m. some (pos m)) (count-numeral (n / 100000) (n % 100000) ∙ omega arith);
  str_of-Lacks = λ n. numeral-Lacks (n / 100000) (n % 100000);
}

abbrev secret : List ℕ
secret = codes "secret"

abbrev verified : Claims
verified = record {
  subject = text "root";
  role = text "platform_admin";
  issued_at = number (pos 100);
  expires_at = number (pos 160);
  tenant_id = null;
}

verify_token-issue_token_example :
    verify_token lib secret (issue_token lib secret "root" "platform_admin" 100 60 none) 120
    ≡ checked verified
verify_token-issue_token_example =
    verify_token-issue_token lib lib-IsCodec secret "root" "platform_admin" 100 60 none 120 refl

verify_token_signed_example :
    (h p s : List ℕ) × (d : Dict String Value) × (exp : ℤ) × (issue_token lib secret "root"
        "platform_admin" 100 60 none
      ≡ join b'.' (h ∷ p ∷ s ∷ []))
    × (b64url_decode lib s ≡ some (lib.hmac secret (signing_input h p)))
    × (loaded lib (b64url_decode lib p) ≡ some (object d))
    × (claims_of d ≡ checked verified)
    × (verified.expires_at ≡ number exp)
    × (ltb_ℤ exp (pos 120) ≡ false)
verify_token_signed_example =
    verify_token_signed lib secret 120 verified
      (issue_token lib secret "root" "platform_admin" 100 60 none)
      (verify_token-issue_token lib lib-IsCodec secret "root" "platform_admin" 100 60 none 120 refl)

abbrev stored_password : List ℕ
stored_password =
    join b'$'
      (scheme ∷ lib.str_of iterations ∷ lib.b64encode (7 ∷ []) ∷ lib.b64encode (7 ∷ []) ∷ [])

verify_password-hash_password_example :
    (verify_password lib (codes "letmein") stored_password ≡ ok true)
    × (verify_password lib (codes "guess") stored_password ≡ ok false)
unfolding hash_password text_beq
verify_password-hash_password_example =
    verify_password-hash_password lib lib-IsCodec lib-IsNumeral (codes "letmein") (codes "guess")
      (7 ∷ []) stored_password (7 ∷ []) (5 ∷ []) refl refl refl

abbrev root_principal : AdminPrincipal
root_principal = record {
  principal_id = "root";
  username = "root";
  password_hash = "pbkdf2_sha256$1$AB$AB";
  role = platform_admin;
  created_at = aware 1;
  tenant_id = none;
}

abbrev login_app : App
login_app = record app { principals = ("root", root_principal) ∷ [] }

abbrev login_body : AdminLoginRequest
login_body = record { username = "root"; password = "x" }

abbrev login_settings : LoginSettings
login_settings = record { jwt_secret = secret; jwt_ttl_seconds = 60 }

login_token_verifies_example :
    (verify_password lib (codes "x") (codes "pbkdf2_sha256$1$AB$AB") ≡ ok true)
    × (verify_token lib secret
          (login_response lib login_settings 100 root_principal).access_token
          120
        ≡ checked verified)
unfolding login login_response role_value lookup verify_password
login_token_verifies_example =
    login_token_verifies lib login_settings login_body "event" (aware 1) 100 120 login_app
      root_principal (login_response lib login_settings 100 root_principal) lib-IsCodec refl refl
      refl (omega arith)

-- The text with given code points, over the characters that the tests use.
abbrev character : String → ℕ → Char
character String.[] n = nul
character (String.◌∷◌ c cs) n = elim (nat_beq (code c) n) [ true ↦ c | false ↦ character cs n ]

abbrev text_of : List ℕ → String
text_of [] = ""
text_of (n ∷ ns) = String.◌∷◌ (character "pbkdf2_sha256$ABC=" n) (text_of ns)

abbrev bootstrap_settings : BootstrapSettings
bootstrap_settings = record { username = some "ops"; password = some "letmein" }

abbrev new_settings : BootstrapSettings
new_settings = record { username = some "ops"; password = some "other" }

abbrev ops_principal : AdminPrincipal
ops_principal = first_admin lib text_of "id" "ops" stored_password (aware 1)

abbrev started_app : App
started_app = record login_app { principals = put "ops" ops_principal login_app.principals }

bootstrap_then_login_example :
    (on_principals
        (bootstrap_admin_principal lib text_of bootstrap_settings "id" (7 ∷ []) (aware 1))
        login_app
      ≡ (ok tt, started_app))
    × ((login lib login_settings
          (record { username = "ops"; password = "letmein" })
          "event"
          (aware 2)
          100
          started_app).0
        ≡ ok (login_response lib login_settings 100 ops_principal))
    × (on_principals
          (bootstrap_admin_principal lib text_of new_settings "new" (8 ∷ []) (aware 2))
          started_app
        ≡ (ok tt, started_app))
unfolding lookup hash_password
bootstrap_then_login_example =
    bootstrap_then_login lib lib-IsCodec lib-IsNumeral text_of bootstrap_settings new_settings "id"
      "new" "ops" "letmein" (7 ∷ []) (8 ∷ []) stored_password (aware 1) (aware 2) login_app
      login_settings "event" 100 refl refl refl refl refl refl
