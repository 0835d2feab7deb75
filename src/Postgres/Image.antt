-- ===== src/Postgres/Image.antt =====
-- A table seen through a function of its rows: what the operations on dicts do to the image.
use mathlib.Core.Path.{ap, sym, ◌∙◌}
use mathlib.Core.Option
use saas_job_api.Prelude.{
  ℕ, zero, suc, ◌≡◌, refl, inl, inr, Bool, [], ◌∷◌, HasEq, ◌==◌, take, map, Bool-cases,
}
use saas_job_api.Result.{Result, ok, map_ok, Result-cases}
use saas_job_api.Dict.{Dict, lookup, put, put_all, remove, values, IsUnique}
use saas_job_api.Dict.Select.{select}
use saas_job_api.Sorting.{filter, insert, sort}

module _ {K V W : Type 0} (f : V → W) where
  unfoldable pub image : Dict K V → Dict K W
  image [] = []
  image ((k, v) ∷ d) = (k, f v) ∷ image d

module _ {K V W : Type 0} (f : V → W) where
  pub values-image : (d : Dict K V) → values (image f d) ≡ map f (values d)
  unfolding image
  values-image [] = refl
  values-image ((k, v) ∷ d) = ap (λ r. f v ∷ r) (values-image d)

module _ {K V W : Type 0} ⦃e : HasEq K⦄ (f : V → W) where
  pub lookup-image : (k : K) (d : Dict K V) → lookup k (image f d) ≡ Option.map f (lookup k d)
  unfolding lookup image
  lookup-image k [] = refl
  lookup-image k ((i, v) ∷ d) = elim (Bool-cases (i == k)) [
    | inl hit ↦ rw hit
    | inr miss ↦ rw miss (lookup-image k d)
  ]

  pub image-put : (k : K) (v : V) (d : Dict K V) → image f (put k v d) ≡ put k (f v) (image f d)
  unfolding put image
  image-put k v [] = refl
  image-put k v ((i, w) ∷ d) = elim (Bool-cases (i == k)) [
    | inl hit ↦ rw hit refl
    | inr miss ↦ rw miss (ap (λ r. (i, f w) ∷ r) (image-put k v d))
  ]

  pub image-remove : (k : K) (d : Dict K V) → image f (remove k d) ≡ remove k (image f d)
  unfolding remove image
  image-remove k [] = refl
  image-remove k ((i, w) ∷ d) = elim (Bool-cases (i == k)) [
    | inl hit ↦ rw hit refl
    | inr miss ↦ rw miss (ap (λ r. (i, f w) ∷ r) (image-remove k d))
  ]

  pub image-IsUnique : (d : Dict K V) → IsUnique d → IsUnique (image f d)
  unfolding image
  image-IsUnique [] u = tt
  image-IsUnique ((k, v) ∷ d) u = (lookup-image k d ∙ ap (Option.map f) u.0, image-IsUnique d u.1)

  pub image-put_all :
      (changes d : Dict K V) → image f (put_all changes d) ≡ put_all (image f changes) (image f d)
  unfolding put_all image
  image-put_all [] d = refl
  image-put_all ((k, v) ∷ changes) d =
      image-put_all changes (put k v d) ∙ ap (put_all (image f changes)) (image-put k v d)

module _ {K V W : Type 0} (f : V → W) where
  pub image-take : (n : ℕ) (d : Dict K V) → image f (take n d) ≡ take n (image f d)
  unfolding image
  image-take zero d = refl
  image-take (suc n) [] = refl
  image-take (suc n) ((k, v) ∷ d) = ap (λ r. (k, f v) ∷ r) (image-take n d)

  -- A test and a comparison of the images that tell what those of the rows tell.
  module _ (p : V → Result Bool) (q : W → Result Bool) (same : (v : V) → q (f v) ≡ p v) where
    image-filter :
        (d : Dict K V)
        → filter (λ entry. q entry.1) (image f d) ≡ map_ok (image f) (filter (λ entry. p entry.1) d)
    unfolding filter image
    image-filter [] = refl
    image-filter ((k, v) ∷ d) = elim (Result-cases (p v)) [
      | inr (e, c) ↦ rw (same v, c) refl
      | inl (keep, c) ↦ elim (Result-cases (filter (λ entry. p entry.1) d)) [
        | inr (e, r) ↦ rw (same v, c, image-filter d, r) refl
        | inl (rest, r) ↦ elim (Bool-cases keep) [
          | inl keeps ↦ rw (same v, c, image-filter d, r, keeps) refl
          | inr drops ↦ rw (same v, c, image-filter d, r, drops) refl
        ]
      ]
    ]

  module _ (lt : V → V → Result Bool) (less : W → W → Result Bool)
      (same : (v w : V) → less (f v) (f w) ≡ lt v w) where
    image-insert :
        (k : K) (v : V) (d : Dict K V)
        → insert (λ a b. less a.1 b.1) (k, f v) (image f d)
          ≡ map_ok (image f) (insert (λ a b. lt a.1 b.1) (k, v) d)
    unfolding insert image
    image-insert k v [] = refl
    image-insert k v ((i, w) ∷ d) = elim (Result-cases (lt w v)) [
      | inr (e, c) ↦ rw (same w v, c) refl
      | inl (before, c) ↦ elim (Bool-cases before) [
        | inr stops ↦ rw (same w v, c, stops) refl
        | inl keeps ↦ elim (Result-cases (insert (λ a b. lt a.1 b.1) (k, v) d)) [
          | inr (e, r) ↦ rw (same w v, c, keeps, image-insert k v d, r) refl
          | inl (rest, r) ↦ rw (same w v, c, keeps, image-insert k v d, r) refl
        ]
      ]
    ]

    image-sort :
        (d : Dict K V)
        → sort (λ a b. less a.1 b.1) (image f d) ≡ map_ok (image f) (sort (λ a b. lt a.1 b.1) d)
    unfolding sort image
    image-sort [] = refl
    image-sort ((k, v) ∷ d) = elim (Result-cases (sort (λ a b. lt a.1 b.1) d)) [
      | inr (e, r) ↦ rw (image-sort d, r) refl
      | inl (rest, r) ↦ rw (image-sort d, r) (image-insert k v rest)
    ]

  -- A selection among the images is the image of the selection.
  pub image-select :
      (p : V → Result Bool) (q : W → Result Bool) (lt : V → V → Result Bool)
      (less : W → W → Result Bool) (n : ℕ)
      → ((v : V) → q (f v) ≡ p v)
      → ((v w : V) → less (f v) (f w) ≡ lt v w)
      → (d : Dict K V) → select q less n (image f d) ≡ map_ok (image f) (select p lt n d)
  unfolding select
  image-select p q lt less n same order d = elim (Result-cases (filter (λ entry. p entry.1) d)) [
    | inr (e, c) ↦ rw (image-filter p q same d, c) refl
    | inl (found, c) ↦ elim (Result-cases (sort (λ a b. lt a.1 b.1) found)) [
      | inr (e, r) ↦ rw (image-filter p q same d, c, image-sort lt less order found, r) refl
      | inl (sorted, r) ↦
          rw (image-filter p q same d, c, image-sort lt less order found, r)
            (ap ok (sym (image-take n sorted)))
    ]
  ]

-- The answers are the same, errors included, and the second state is what the first is seen as.
abbrev pub IsRefined : {S T A : Type 0} → (S → T) → Result A × S → Result A × T → Type 0
IsRefined view ran reference = (ran.0 ≡ reference.0) × (view ran.1 ≡ reference.1)
