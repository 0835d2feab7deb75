-- ===== src/Tokens/Passwords.antt =====
-- src/saas_job_api/passwords.py: passwords hashed with PBKDF2.
use mathlib.Core.Path.{ap, ◌∙◌}
use saas_job_api.Prelude.{
  ℕ, zero, suc, ◌≡◌, refl, Bool, true, false, not, Option, none, some, List, [], ◌∷◌, arith,
  All-append, nat_beq, if◌then◌else◌,
}
use saas_job_api.Prelude.Int.{ℤ, pos}
use saas_job_api.Result.{Result, ok, ◌>>=◌}
use saas_job_api.Tokens.{Library, IsCodec}
use saas_job_api.Tokens.Text.{
  codes, Lacks, repeat, split, join, split_one, split-append, text_beq, text_beq_iff,
}

abbrev pub scheme : List ℕ
scheme = codes "pbkdf2_sha256"

abbrev pub iterations : ℕ
iterations = 200000

module _ (lib : Library) where
  -- The salt is what `os.urandom` gives.
  unfoldable pub hash_password : (password salt : List ℕ) → Result (List ℕ)
  hash_password password salt = do
    derived ← lib.pbkdf2 password salt (pos iterations)
    ok (
        join b'$'
          (scheme ∷ lib.str_of iterations ∷ lib.b64encode salt ∷ lib.b64encode derived ∷ []))

  -- `hmac.compare_digest(expected, pbkdf2_hmac(...))`, with what the `try` has read.
  abbrev pub compare_hash :
      (password : List ℕ) → Option ℤ → Option (List ℕ) → Option (List ℕ) → Result Bool
  compare_hash password none salt expected = ok false
  compare_hash password (some n) none expected = ok false
  compare_hash password (some n) (some salt) none = ok false
  compare_hash password (some n) (some salt) (some expected) = do
    actual ← lib.pbkdf2 password salt n
    ok (text_beq expected actual)

  abbrev pub verify_fields : (password : List ℕ) → List (List ℕ) → Result Bool
  verify_fields password (name ∷ n ∷ salt ∷ hash ∷ []) =
      if not (text_beq name scheme)
      then ok false
      else compare_hash password (lib.int_of n) (lib.b64decode salt) (lib.b64decode hash)
  verify_fields password [] = ok false
  verify_fields password (a ∷ []) = ok false
  verify_fields password (a ∷ b ∷ []) = ok false
  verify_fields password (a ∷ b ∷ c ∷ []) = ok false
  verify_fields password (a ∷ b ∷ c ∷ d ∷ e ∷ more) = ok false

  unfoldable pub verify_password : (password stored : List ℕ) → Result Bool
  unfolding text_beq split
  verify_password password stored = verify_fields password (split b'$' stored)

-- What `int(str(n))` gives back, and that `str(n)` has no dollar sign.
pub record IsNumeral (lib : Library) : Type 0 where
  pub int_of-str_of : (n : ℕ) → lib.int_of (lib.str_of n) ≡ some (pos n)
  pub str_of-Lacks : (n : ℕ) → Lacks b'$' (lib.str_of n)

module _ (lib : Library) (codec : IsCodec lib) (numeral : IsNumeral lib) where
  fill-Lacks : (n : ℕ) → Lacks b'$' (repeat n b'=')
  fill-Lacks zero = tt
  fill-Lacks (suc n) = (refl, fill-Lacks n)

  b64encode-Lacks : (bytes : List ℕ) → Lacks b'$' (lib.b64encode bytes)
  b64encode-Lacks bytes =
      let (body, fill, e, no_fill, no_dot, no_dollar, small, short, whole) =
        codec.b64encode-IsGrouped bytes in
      rw e (
        All-append (λ x. nat_beq x b'$' ≡ false) body (repeat fill b'=') no_dollar
          (fill-Lacks fill))

  stored_fields :
      (salt derived : List ℕ)
      → split b'$' (
          join b'$'
            (scheme ∷ lib.str_of iterations ∷ lib.b64encode salt ∷ lib.b64encode derived ∷ []))
        ≡ scheme ∷ lib.str_of iterations ∷ lib.b64encode salt ∷ lib.b64encode derived ∷ []
  stored_fields salt derived =
      split-append b'$' scheme _ (ground arith)
      ∙ ap (λ r. scheme ∷ r)
          (split-append b'$' (lib.str_of iterations) _ (numeral.str_of-Lacks iterations)
            ∙ ap (λ r. lib.str_of iterations ∷ r)
                (split-append b'$' (lib.b64encode salt) _ (b64encode-Lacks salt)
                  ∙ ap (λ r. lib.b64encode salt ∷ r)
                      (split_one b'$' (lib.b64encode derived) (b64encode-Lacks derived))))

  verify_password_stored :
      (attempt salt derived given : List ℕ)
      → lib.pbkdf2 attempt salt (pos iterations) ≡ ok given
      → verify_password lib attempt (
          join b'$'
            (scheme ∷ lib.str_of iterations ∷ lib.b64encode salt ∷ lib.b64encode derived ∷ []))
        ≡ ok (text_beq derived given)
  unfolding verify_password text_beq
  verify_password_stored attempt salt derived given g =
      rw
        (
          stored_fields salt derived,
          numeral.int_of-str_of iterations,
          codec.b64decode-encode salt,
          codec.b64decode-encode derived,
          g,
        )
        refl

  -- A hashed password is accepted, and another attempt exactly if it derives the same key from the
  -- salt. The key derivation returns for the password and the attempt, decoding base64 gives back
  -- what was encoded, a base64 text has no dollar sign before its padding, and a numeral has none
  -- and is read as its number.
  pub verify_password-hash_password :
      (password attempt salt stored derived given : List ℕ)
      → hash_password lib password salt ≡ ok stored
      → lib.pbkdf2 password salt (pos iterations) ≡ ok derived
      → lib.pbkdf2 attempt salt (pos iterations) ≡ ok given
      → (verify_password lib password stored ≡ ok true)
        × (verify_password lib attempt stored ≡ ok (text_beq derived given))
  unfolding hash_password
  verify_password-hash_password password attempt salt stored derived given hashed d g =
      let content : List ℕ =
        join b'$'
          (scheme ∷ lib.str_of iterations ∷ lib.b64encode salt ∷ lib.b64encode derived ∷ []) in
      let same : content ≡ stored = cc (rw d at hashed) in
      rw (← same) (
        verify_password_stored password salt derived derived d
            ∙ ap ok ((text_beq_iff derived derived).1 refl),
        verify_password_stored attempt salt derived given g,
      )
