-- ===== src/Registration/Tokens.antt =====
-- What marking a token as used does to the stored tokens.
use saas_job_api.Prelude.{
  String, ◌≡◌, refl, inl, inr, true, some, [], ◌∷◌, string_eq, ◌==◌, Bool-cases, beq_refl,
}
use mathlib.Core.Path.{ap}
use saas_job_api.Time.{DateTime}
use saas_job_api.Dict.{Dict, lookup, IsUnique}
use saas_job_api.Registration.{EnrollmentToken, mark_first, used, is_used}

-- The ids of the tokens are distinct.
abbrev pub AreDistinct : Dict String EnrollmentToken → Type 0
AreDistinct d =
    (h i : String) (t u : EnrollmentToken)
    → lookup h d ≡ some t
    → lookup i d ≡ some u
    → t.token_id ≡ u.token_id
    → h ≡ i

-- What stands below an entry stands in the whole dict.
lookup-below :
    (i h : String) (x t : EnrollmentToken) (d : Dict String EnrollmentToken)
    → IsUnique ((i, x) ∷ d)
    → lookup h d ≡ some t
    → lookup h ((i, x) ∷ d) ≡ some t
unfolding lookup
lookup-below i h x t d u e = elim (Bool-cases (i == h)) [
  | inr miss ↦ rw miss e
  | inl hit ↦
      let same : i ≡ h = (string_eq.eqb_iff i h).0 hit in cc (u.0, ap (λ key. lookup key d) same)
]

tail_distinct :
    (i : String) (x : EnrollmentToken) (d : Dict String EnrollmentToken)
    → IsUnique ((i, x) ∷ d)
    → AreDistinct ((i, x) ∷ d)
    → AreDistinct d
tail_distinct i x d u distinct h k t v e f ids =
    distinct h k t v (lookup-below i h x t d u e) (lookup-below i k x v d u f) ids

module _ (used_at : DateTime) (gateway_id : String) where
  -- The token with the id is marked.
  pub lookup-mark_first :
      (d : Dict String EnrollmentToken) (h : String) (t : EnrollmentToken)
      → IsUnique d
      → AreDistinct d
      → lookup h d ≡ some t
      → lookup h (mark_first t.token_id used_at gateway_id d) ≡ some (used used_at gateway_id t)
  unfolding lookup mark_first
  lookup-mark_first [] h t u distinct e = cc
  lookup-mark_first ((i, x) ∷ d) h t u distinct e = elim (Bool-cases (i == h)) [
    | inl hit ↦
        let same : x ≡ t = cc (rw hit at e) in
        rw same (rw (beq_refl {A = String} t.token_id) (rw hit refl))
    | inr miss ↦ elim (Bool-cases (x.token_id == t.token_id)) [
      | inr other ↦
          rw other
            (rw miss (lookup-mark_first d h t u.1 (tail_distinct i x d u distinct) (rw miss at e)))
      | inl twin ↦
          let ids : x.token_id ≡ t.token_id = (string_eq.eqb_iff x.token_id t.token_id).0 twin in
          let keys : i ≡ h = distinct i h x t (rw (beq_refl {A = String} i)) e ids in
          let hit : (i == h) ≡ true = (string_eq.eqb_iff i h).1 keys in cc
    ]
  ]

  -- A used token stays used, whichever token is marked.
  pub mark_first-used :
      (token_id : String) (d : Dict String EnrollmentToken) (h : String) (t : EnrollmentToken)
      → lookup h d ≡ some t
      → is_used t ≡ true
      → (t' : EnrollmentToken) × (lookup h (mark_first token_id used_at gateway_id d) ≡ some t')
        × (is_used t' ≡ true)
  unfolding lookup mark_first
  mark_first-used token_id [] h t e used_before = cc
  mark_first-used token_id ((i, x) ∷ d) h t e used_before = elim (Bool-cases (i == h)) [
    | inl hit ↦
        let same : x ≡ t = cc (rw hit at e) in
        elim (Bool-cases (x.token_id == token_id)) [
          | inl here ↦ (used used_at gateway_id x, rw here (rw hit refl), refl)
          | inr other ↦ (t, rw other (rw hit (ap some same)), used_before)
        ]
    | inr miss ↦ elim (Bool-cases (x.token_id == token_id)) [
      | inl here ↦ (t, rw here (rw miss (rw miss at e)), used_before)
      | inr other ↦
          let (t', f, stays) = mark_first-used token_id d h t (rw miss at e) used_before in
          (t', rw other (rw miss f), stays)
    ]
  ]
