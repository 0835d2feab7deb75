-- ===== src/Tokens/Soundness.antt =====
-- What a token that verifies is (src/saas_job_api/jwt_tokens.py).
use mathlib.Core.Path.{ap, sym, ◌∙◌}
use saas_job_api.Prelude.{
  ℕ, String, ◌≡◌, refl, inl, inr, false, Option, none, some, List, [], ◌∷◌, string_eq, Bool-cases,
}
use saas_job_api.Prelude.Int.{pos, ltb_ℤ}
use saas_job_api.Dict.{Dict, lookup}
use saas_job_api.Tokens.{Library, Json, object, plain, Value, text, number, null, nested}
use saas_job_api.Tokens.Text.{split, text_beq, text_beq_iff, join, join-split}
use saas_job_api.Tokens.Jwt.{
  Checked, checked, invalid, raised, Claims, is_ascii, b64url_decode, signing_input, verify_parts,
  verify_split, verify_token, check_payload, claims_of, loaded,
}
use saas_job_api.Prelude.Int.{ℤ}
use saas_job_api.Tokens.Jwt.{check_signature, unless_expired, required, exp_of}

required_inv :
    (message : String) (found : Option Value) (next : Value → Checked Claims) (claims : Claims)
    → required message found next ≡ checked claims
    → (value : Value) × (found ≡ some value) × (next value ≡ checked claims)
required_inv message none next claims h = cc
required_inv message (some value) next claims h = (value, refl, h)

abbrev expiry : Checked Claims → Option Value
expiry (checked claims) = some claims.expires_at
expiry (invalid message) = none
expiry (raised e) = none

claims_of-exp :
    (d : Dict String Value) (claims : Claims)
    → claims_of d ≡ checked claims
    → lookup "exp" d ≡ some claims.expires_at
claims_of-exp d claims h =
    let (subject, _, a) = required_inv "missing claim: 'sub'" (lookup "sub" d) _ claims h in
    let (role, _, b) = required_inv "missing claim: 'role'" (lookup "role" d) _ claims a in
    let (issued_at, _, c) = required_inv "missing claim: 'iat'" (lookup "iat" d) _ claims b in
    let (exp, found, e) = required_inv "missing claim: 'exp'" (lookup "exp" d) _ claims c in
    let same : exp ≡ claims.expires_at = cc (ap expiry e) in found ∙ ap some same

unexpired :
    (now : ℕ) (exp : Value) (next : Checked Claims) (claims : Claims)
    → unless_expired exp now next ≡ checked claims
    → (e : ℤ) × (exp ≡ number e) × (ltb_ℤ e (pos now) ≡ false) × (next ≡ checked claims)
unexpired now (text value) next claims h = cc
unexpired now null next claims h = cc
unexpired now nested next claims h = cc
unexpired now (number e) next claims h = elim (Bool-cases (ltb_ℤ e (pos now))) [
  | inl late ↦ cc (rw late at h)
  | inr alive ↦ (e, refl, alive, rw alive at h)
]

check_payload_inv :
    (now : ℕ) (found : Option Json) (claims : Claims)
    → check_payload now found ≡ checked claims
    → (d : Dict String Value) × (exp : ℤ) × (found ≡ some (object d))
      × (claims.expires_at ≡ number exp)
      × (ltb_ℤ exp (pos now) ≡ false)
      × (claims_of d ≡ checked claims)
check_payload_inv now none claims h = cc
check_payload_inv now (some (plain value)) claims h = cc
check_payload_inv now (some (object d)) claims h =
    let (exp, number_exp, alive, same) =
      unexpired now (exp_of (lookup "exp" d)) (claims_of d) claims h in
    (d, exp, refl, ap exp_of (sym (claims_of-exp d claims same)) ∙ number_exp, alive, same)

check_signature_inv :
    (expected : List ℕ) (actual : Option (List ℕ)) (next : Checked Claims) (claims : Claims)
    → check_signature expected actual next ≡ checked claims
    → (actual ≡ some expected) × (next ≡ checked claims)
check_signature_inv expected none next claims h = cc
check_signature_inv expected (some actual) next claims h =
    elim (Bool-cases (text_beq expected actual)) [
      | inr other ↦ cc (rw other at h)
      | inl same ↦ (ap some (sym ((text_beq_iff expected actual).0 same)), rw same at h)
    ]

module _ (lib : Library) (secret : List ℕ) (now : ℕ) (claims : Claims) where
  verify_parts_inv :
      (h p s : List ℕ)
      → verify_parts lib secret h p s now ≡ checked claims
      → (b64url_decode lib s ≡ some (lib.hmac secret (signing_input h p)))
        × (check_payload now (loaded lib (b64url_decode lib p)) ≡ checked claims)
  unfolding verify_parts
  verify_parts_inv h p s e = elim (Bool-cases (is_ascii (signing_input h p))) [
    | inr other ↦ cc (rw other at e)
    | inl letters ↦
        check_signature_inv (lib.hmac secret (signing_input h p)) (b64url_decode lib s)
          (check_payload now (loaded lib (b64url_decode lib p))) claims (rw letters at e)
  ]

  verify_split_inv :
      (parts : List (List ℕ))
      → verify_split lib secret now parts ≡ checked claims
      → (h p s : List ℕ) × (parts ≡ h ∷ p ∷ s ∷ [])
        × (verify_parts lib secret h p s now ≡ checked claims)
  verify_split_inv [] e = cc
  verify_split_inv (h ∷ []) e = cc
  verify_split_inv (h ∷ p ∷ []) e = cc
  verify_split_inv (h ∷ p ∷ s ∷ []) e = (h, p, s, refl, e)
  verify_split_inv (h ∷ p ∷ s ∷ x ∷ more) e = cc

  -- A token that verify_token accepts has three parts with full stops between them: the third
  -- decodes to the signature of the first two under the secret, the second decodes to a JSON
  -- object with the claims, and their time of expiry is a number that is not before the time of
  -- the check.
  pub verify_token_signed :
      (token : List ℕ)
      → verify_token lib secret token now ≡ checked claims
      → (h p s : List ℕ) × (d : Dict String Value) × (exp : ℤ) × (token
          ≡ join b'.' (h ∷ p ∷ s ∷ []))
        × (b64url_decode lib s ≡ some (lib.hmac secret (signing_input h p)))
        × (loaded lib (b64url_decode lib p) ≡ some (object d))
        × (claims_of d ≡ checked claims)
        × (claims.expires_at ≡ number exp)
        × (ltb_ℤ exp (pos now) ≡ false)
  unfolding verify_token
  verify_token_signed token accepted =
      let (h, p, s, parts, e) = verify_split_inv (split b'.' token) accepted in
      let (signed, readable) = verify_parts_inv h p s e in
      let (d, exp, found, at_exp, alive, same) =
        check_payload_inv now (loaded lib (b64url_decode lib p)) claims readable in
      (
        h,
        p,
        s,
        d,
        exp,
        sym (join-split b'.' token) ∙ ap (join b'.') parts,
        signed,
        found,
        same,
        at_exp,
        alive,
      )
