-- ===== src/Tokens/Bearer.antt =====
-- The bearer tokens of src/saas_job_api/auth.py.
use saas_job_api.Prelude.{
  ℕ, ◌≡◌, HasEq, refl, false, Option, none, some, List, [], ◌∷◌, string_eq, String, nat_beq,
  if◌then◌else◌,
}
use saas_job_api.Result.{Result, ok, err, unauthorized, value_error}
use saas_job_api.Dict.{Dict, lookup}
use saas_job_api.Tokens.{Library}
use saas_job_api.Tokens.Text.{codes, split, text_beq, text_beq_iff}
use saas_job_api.Tokens.Jwt.{
  Checked, checked, invalid, raised, Claims, verify_token, verify_parts, is_ascii, signing_input,
}

-- `s.removeprefix(prefix)`, if `s.startswith(prefix)`.
abbrev pub after_prefix : (prefix s : List ℕ) → Option (List ℕ)
after_prefix [] s = some s
after_prefix (p ∷ ps) [] = none
after_prefix (p ∷ ps) (c ∷ cs) = let rest = after_prefix ps cs in if nat_beq p c then rest else none

module _ (lib : Library) where
  -- `s.lstrip()`
  unfoldable pub lstrip : List ℕ → List ℕ
  lstrip [] = []
  lstrip (c ∷ cs) = let rest = lstrip cs in if lib.is_space c then rest else c ∷ cs

  abbrev pub cons_unless_blank : ℕ → List ℕ → List ℕ
  cons_unless_blank c [] = if lib.is_space c then [] else c ∷ []
  cons_unless_blank c (d ∷ ds) = c ∷ d ∷ ds

  unfoldable pub rstrip_space : List ℕ → List ℕ
  rstrip_space [] = []
  rstrip_space (c ∷ cs) = cons_unless_blank c (rstrip_space cs)

  -- `s.strip()`
  abbrev pub strip : List ℕ → List ℕ
  strip s = rstrip_space (lstrip s)

  -- The token of the header, if it is there and begins with `Bearer `.
  unfoldable pub bearer_token : Option (List ℕ) → Option (List ℕ)
  unfolding lstrip rstrip_space
  bearer_token none = none
  bearer_token (some authorization) = elim (after_prefix (codes "Bearer ") authorization) [
    | none ↦ none
    | some s ↦ some (strip s)
  ]

  instance abbrev pub text_eq : HasEq (List ℕ)
  text_eq = record { eqb = text_beq; eqb_iff = text_beq_iff }

  abbrev pub or_unauthorized : Option String → Result String
  or_unauthorized none = err unauthorized
  or_unauthorized (some gateway_id) = ok gateway_id

  abbrev gateway_of : Dict (List ℕ) String → Option (List ℕ) → Result String
  gateway_of gateway_tokens none = err unauthorized
  gateway_of gateway_tokens (some token) = or_unauthorized (lookup token gateway_tokens)

  unfoldable pub authenticated_gateway :
      (gateway_tokens : Dict (List ℕ) String) → Option (List ℕ) → Result String
  unfolding bearer_token
  authenticated_gateway gateway_tokens authorization =
      gateway_of gateway_tokens (bearer_token authorization)

  -- `except InvalidTokenError: raise UnauthorizedError()`
  abbrev pub of_checked : {A : Type 0} → Checked A → Result A
  of_checked (checked a) = ok a
  of_checked (invalid message) = err unauthorized
  of_checked (raised e) = err e

  abbrev principal_claims : (secret : List ℕ) (now : ℕ) → Option (List ℕ) → Result Claims
  principal_claims secret now none = err unauthorized
  principal_claims secret now (some token) = of_checked (verify_token lib secret token now)

  unfoldable pub authenticated_admin_principal :
      (secret : List ℕ) (now : ℕ) → Option (List ℕ) → Result Claims
  unfolding bearer_token verify_token
  authenticated_admin_principal secret now authorization =
      principal_claims secret now (bearer_token authorization)

  -- A bearer token of three parts with a character outside of ASCII in one of the first two is not
  -- refused as unauthorized: the exception of its encoding is answered as an internal error.
  pub non_ascii_token_raises :
      (secret token h p s : List ℕ) (now : ℕ) (authorization : Option (List ℕ))
      → bearer_token authorization ≡ some token
      → split b'.' token ≡ h ∷ p ∷ s ∷ []
      → is_ascii (signing_input h p) ≡ false
      → authenticated_admin_principal secret now authorization
        ≡ err (value_error (lib.encode_message (signing_input h p)))
  unfolding authenticated_admin_principal verify_token verify_parts
  non_ascii_token_raises secret token h p s now authorization given parts other =
      rw (given, parts, other) refl
