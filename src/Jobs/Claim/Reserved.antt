-- ===== src/Jobs/Claim/Reserved.antt =====
-- The reservations of a claim: the same keys as the chosen jobs, each job reserved.
use saas_job_api.Prelude.{
  ℕ, suc, String, ◌≡◌, refl, none, some, [], ◌∷◌, arith, string_eq, ◌==◌, inl, inr, Bool-cases,
}
use saas_job_api.Time.{DateTime}
use saas_job_api.Dict.{Dict, lookup, IsUnique}
use saas_job_api.Jobs.{JobRecord}
use saas_job_api.Jobs.Claim.{reserve, reserve_each}

module _ (gateway_id : String) (until : DateTime) where
  pub lookup-reserve_each :
      (token : ℕ → String) (k : String) (chosen : Dict String JobRecord) {j : JobRecord}
      → lookup k chosen ≡ some j
      → (i : ℕ) × (lookup k (reserve_each gateway_id until token chosen)
          ≡ some (reserve gateway_id until (token i) j))
  unfolding lookup reserve_each
  lookup-reserve_each token k [] h = cc
  lookup-reserve_each token k ((c, x) ∷ chosen) {j} h = elim (Bool-cases (c == k)) [
    | inl hit ↦ (0, ground arith)
    | inr miss ↦
        let (i, e) = lookup-reserve_each (λ n. token (suc n)) k chosen {j = j} (rw miss at h) in
        (suc i, ground arith)
  ]

  pub lookup-reserve_each-none :
      (token : ℕ → String) (k : String) (chosen : Dict String JobRecord)
      → lookup k chosen ≡ none
      → lookup k (reserve_each gateway_id until token chosen) ≡ none
  unfolding lookup reserve_each
  lookup-reserve_each-none token k [] h = refl
  lookup-reserve_each-none token k ((c, x) ∷ chosen) h =
      ground (arith, lookup-reserve_each-none (λ n. token (suc n)) k chosen)

  pub reserve_each-IsUnique :
      (token : ℕ → String) (chosen : Dict String JobRecord)
      → IsUnique chosen
      → IsUnique (reserve_each gateway_id until token chosen)
  unfolding reserve_each
  reserve_each-IsUnique token [] u = tt
  reserve_each-IsUnique token ((c, x) ∷ chosen) u = (
    lookup-reserve_each-none (λ n. token (suc n)) c chosen u.0,
    reserve_each-IsUnique (λ n. token (suc n)) chosen u.1,
  )
