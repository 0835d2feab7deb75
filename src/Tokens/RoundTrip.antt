-- ===== src/Tokens/RoundTrip.antt =====
-- Issuing and verifying a token (src/saas_job_api/jwt_tokens.py).
use Prim.Native.Nat.{◌%◌}
use mathlib.Core.Path.{ap, sym, ◌∙◌}
use mathlib.Core.List.{append_assoc}
use saas_job_api.Prelude.{
  ℕ, ◌+◌, ◌-◌, ◌<◌, String, ◌≡◌, refl, true, Option, some, List, [], ◌∷◌, ◌++◌, arith, All,
  All-append, string_eq, length, ltb, if◌then◌else◌,
}
use saas_job_api.Prelude.Int.{pos}
use saas_job_api.Dict.{lookup}
use saas_job_api.Tokens.{Library, IsCodec, IsReadable, object, text, number}
use saas_job_api.Tokens.Text.{
  Lacks, repeat, split, rstrip-repeat, split_one, split-append, text_beq, text_beq_iff,
}
use saas_job_api.Tokens.Jwt.{
  checked, invalid, is_ascii, payload, header, tenant_value, b64url_encode, b64url_decode,
  signing_input, issue_token, verify_parts, verify_token,
}

-- The padding that the decoding adds is the padding that the encoding has removed.
padding_fill : (n fill : ℕ) → fill < 4 → (n + fill) % 4 ≡ 0 → (4 - n % 4) % 4 ≡ fill
padding_fill n fill small whole = omega arith

module _ (lib : Library) (codec : IsCodec lib) where
  b64url_encode-body :
      (bytes : List ℕ) → b64url_encode lib bytes ≡ (codec.urlsafe_b64encode-IsGrouped bytes).0
  unfolding b64url_encode
  b64url_encode-body bytes =
      let (body, fill, e, no_fill, no_dot, no_dollar, small, short, whole) =
        codec.urlsafe_b64encode-IsGrouped bytes in
      rw e (rstrip-repeat b'=' body fill no_fill)

  pub b64url_decode-encode :
      (bytes : List ℕ) → b64url_decode lib (b64url_encode lib bytes) ≡ some bytes
  unfolding b64url_decode
  b64url_decode-encode bytes =
      let (body, fill, e, no_fill, no_dot, no_dollar, small, short, whole) =
        codec.urlsafe_b64encode-IsGrouped bytes in
      ap (b64url_decode lib) (b64url_encode-body bytes)
      ∙ ap (λ n. lib.urlsafe_b64decode (body ++ repeat n b'='))
          (padding_fill (length body) fill short whole)
      ∙ ap lib.urlsafe_b64decode (sym e)
      ∙ codec.urlsafe_b64decode-encode bytes

  b64url_encode-Lacks : (bytes : List ℕ) → Lacks b'.' (b64url_encode lib bytes)
  b64url_encode-Lacks bytes =
      let (body, fill, e, no_fill, no_dot, no_dollar, small, short, whole) =
        codec.urlsafe_b64encode-IsGrouped bytes in
      rw (b64url_encode-body bytes) no_dot

  All-ascii : (s : List ℕ) → All (λ c. c < 128) s → is_ascii s ≡ true
  All-ascii [] h = refl
  All-ascii (c ∷ cs) h = ground (arith, All-ascii cs h.1)

  b64url_encode-ascii : (bytes : List ℕ) → All (λ c. c < 128) (b64url_encode lib bytes)
  b64url_encode-ascii bytes =
      let (body, fill, e, no_fill, no_dot, no_dollar, small, short, whole) =
        codec.urlsafe_b64encode-IsGrouped bytes in
      rw (b64url_encode-body bytes) small

  module _ (secret : List ℕ) (subject role : String) (now ttl_seconds : ℕ)
      (tenant_id : Option String) where
    -- A token verifies to its claims until the second in which it expires. For the secret with
    -- which it was issued and any later or earlier time, verify_token gives the claims of
    -- issue_token if the time is not after that of the issue plus the time to live, and refuses
    -- the token as expired otherwise. JSON and base64 give back what they have encoded, and a
    -- base64 text has ASCII letters and no full stop before its padding.
    pub verify_token-issue_token :
        (later : ℕ)
        → IsReadable lib (payload subject role now ttl_seconds tenant_id)
        → verify_token lib secret
            (issue_token lib secret subject role now ttl_seconds tenant_id)
            later
          ≡ (if ltb (now + ttl_seconds) later
              then invalid "token expired"
              else checked (record {
                subject = text subject;
                role = text role;
                issued_at = number (pos now);
                expires_at = number (pos (now + ttl_seconds));
                tenant_id = tenant_value tenant_id;
              }))
    unfolding verify_token issue_token verify_parts lookup
    verify_token-issue_token later readable =
        let d = payload subject role now ttl_seconds tenant_id in
        let h = b64url_encode lib (lib.dumps (object header)) in
        let p = b64url_encode lib (lib.dumps (object d)) in
        let input = signing_input h p in
        let s = b64url_encode lib (lib.hmac secret input) in
        let apart : split b'.' (input ++ b'.' ∷ s) ≡ h ∷ p ∷ s ∷ [] =
          ap (split b'.') (append_assoc h (b'.' ∷ p) (b'.' ∷ s))
          ∙ split-append b'.' h (p ++ b'.' ∷ s) (b64url_encode-Lacks (lib.dumps (object header)))
          ∙ ap (λ r. h ∷ r)
              (split-append b'.' p s (b64url_encode-Lacks (lib.dumps (object d)))
                ∙ ap (λ r. p ∷ r)
                    (split_one b'.' s (b64url_encode-Lacks (lib.hmac secret input)))) in
        let signed : text_beq (lib.hmac secret input) (lib.hmac secret input) ≡ true =
          (text_beq_iff (lib.hmac secret input) (lib.hmac secret input)).1 refl in
        let letters : is_ascii input ≡ true = All-ascii input (
          All-append (λ c. c < 128) h (b'.' ∷ p) (b64url_encode-ascii (lib.dumps (object header)))
            (omega arith, b64url_encode-ascii (lib.dumps (object d)))) in
        rw
          (
            apart,
            letters,
            b64url_decode-encode (lib.hmac secret input),
            signed,
            b64url_decode-encode (lib.dumps (object d)),
            readable,
          )
          (ground arith)
