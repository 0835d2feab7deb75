-- ===== src/Dict/Select/Values.antt =====
-- The values of a selection are a selection among the values.
use mathlib.Core.Path.{ap}
use saas_job_api.Prelude.{ℕ, zero, suc, ◌≡◌, refl, inl, inr, Bool, [], ◌∷◌, take, Bool-cases}
use saas_job_api.Result.{Result, ok, ◌>>=◌, map_ok, Result-cases}
use saas_job_api.Sorting.{filter, insert, sort}
use saas_job_api.Dict.{Dict, values}
use saas_job_api.Dict.Select.{select}

module _ {ℓ} {K V : Type ℓ} where
  values-take : (n : ℕ) (d : Dict K V) → values (take n d) ≡ take n (values d)
  values-take zero d = refl
  values-take (suc n) [] = refl
  values-take (suc n) ((k, v) ∷ d) = ap (λ r. v ∷ r) (values-take n d)

  values-filter :
      (p : V → Result Bool) (d : Dict K V)
      → map_ok values (filter (λ entry. p entry.1) d) ≡ filter p (values d)
  unfolding filter
  values-filter p [] = refl
  values-filter p ((k, v) ∷ d) = elim (Result-cases (p v)) [
    | inr (e, c) ↦ rw c refl
    | inl (keep, c) ↦ elim (Result-cases (filter (λ entry. p entry.1) d)) [
      | inr (e, r) ↦ rw (c, ← values-filter p d, r) refl
      | inl (rest, r) ↦ elim (Bool-cases keep) [
        | inl keeps ↦ rw (c, ← values-filter p d, r, keeps) refl
        | inr drops ↦ rw (c, ← values-filter p d, r, drops) refl
      ]
    ]
  ]

  values-insert :
      (lt : V → V → Result Bool) (k : K) (v : V) (d : Dict K V)
      → map_ok values (insert (λ a b. lt a.1 b.1) (k, v) d) ≡ insert lt v (values d)
  unfolding insert
  values-insert lt k v [] = refl
  values-insert lt k v ((i, w) ∷ d) = elim (Result-cases (lt w v)) [
    | inr (e, c) ↦ rw c refl
    | inl (before, c) ↦ elim (Bool-cases before) [
      | inr stops ↦ rw (c, stops) refl
      | inl keeps ↦ elim (Result-cases (insert (λ a b. lt a.1 b.1) (k, v) d)) [
        | inr (e, r) ↦ rw (c, keeps, ← values-insert lt k v d, r) refl
        | inl (rest, r) ↦ rw (c, keeps, ← values-insert lt k v d, r) refl
      ]
    ]
  ]

  values-sort :
      (lt : V → V → Result Bool) (d : Dict K V)
      → map_ok values (sort (λ a b. lt a.1 b.1) d) ≡ sort lt (values d)
  unfolding sort
  values-sort lt [] = refl
  values-sort lt ((k, v) ∷ d) = elim (Result-cases (sort (λ a b. lt a.1 b.1) d)) [
    | inr (e, r) ↦ rw (← values-sort lt d, r) refl
    | inl (rest, r) ↦ rw (← values-sort lt d, r) (values-insert lt k v rest)
  ]

  pub values-select :
      (p : V → Result Bool) (lt : V → V → Result Bool) (n : ℕ) (d : Dict K V)
      → map_ok values (select p lt n d)
        ≡ (filter p (values d) >>= λ found. sort lt found >>= λ sorted. ok (take n sorted))
  unfolding select
  values-select p lt n d = elim (Result-cases (filter (λ entry. p entry.1) d)) [
    | inr (e, c) ↦ rw (← values-filter p d, c) refl
    | inl (found, c) ↦ elim (Result-cases (sort (λ a b. lt a.1 b.1) found)) [
      | inr (e, r) ↦ rw (← values-filter p d, c, ← values-sort lt found, r) refl
      | inl (sorted, r) ↦
          rw (← values-filter p d, c, ← values-sort lt found, r) (ap ok (values-take n sorted))
    ]
  ]
