-- ===== src/Dict/Select/Found.antt =====
-- Filtering, sorting and cutting a dict with distinct keys, seen through `lookup`.
use mathlib.Core.Path.{subst}
use mathlib.Core.Option.{some-injective}
use saas_job_api.Prelude.{
  ℕ, zero, suc, ◌≡◌, refl, inl, inr, Bool, true, none, some, [], ◌∷◌, arith, HasEq, ◌==◌, take,
  if◌then◌else◌, Bool-cases,
}
use saas_job_api.Result.{Result, ok, bind_inv}
use saas_job_api.Sorting.{filter, insert, sort}
use saas_job_api.Sorting.Order.{filter_inv, insert_inv}
use saas_job_api.Dict.{Dict, lookup, IsUnique}

module _ {ℓ} {K V : Type ℓ} ⦃e : HasEq K⦄ where
  module _ (p : K × V → Result Bool) where
    pub lookup-filter-none :
        (k : K) (d : Dict K V) {found : Dict K V}
        → filter p d ≡ ok found
        → lookup k d ≡ none
        → lookup k found ≡ none
    unfolding lookup filter
    lookup-filter-none k [] f h = ground arith
    lookup-filter-none k ((i, w) ∷ d) f h =
        let (keep, rest, _, r, z) = filter_inv p (i, w) d f in
        ground (arith, lookup-filter-none k d r)

    pub filter-IsUnique :
        (d : Dict K V) {found : Dict K V} → filter p d ≡ ok found → IsUnique d → IsUnique found
    unfolding filter
    filter-IsUnique [] f u = ground arith
    filter-IsUnique ((i, w) ∷ d) f u =
        let (keep, rest, _, r, z) = filter_inv p (i, w) d f in
        ground (arith, lookup-filter-none i d r u.0, filter-IsUnique d r u.1)

    pub lookup-filter :
        (k : K) (v : V) (d : Dict K V) {found : Dict K V}
        → filter p d ≡ ok found
        → IsUnique d
        → lookup k found ≡ some v
        → (lookup k d ≡ some v) × (p (k, v) ≡ ok true)
    unfolding lookup filter
    lookup-filter k v [] f u h = ground arith
    lookup-filter k v ((i, w) ∷ d) f u h =
        let (keep, rest, c, r, z) = filter_inv p (i, w) d f in
        ground (arith, lookup-filter k v d r u.1, lookup-filter-none k d r, e.eqb_iff i k)

    pub lookup-filter-some :
        (k : K) (v : V) (d : Dict K V) {found : Dict K V}
        → filter p d ≡ ok found
        → lookup k d ≡ some v
        → p (k, v) ≡ ok true
        → lookup k found ≡ some v
    unfolding lookup filter
    lookup-filter-some k v [] f h c = ground arith
    lookup-filter-some k v ((i, w) ∷ d) f h c =
        let (keep, rest, b, r, z) = filter_inv p (i, w) d f in
        ground (arith, lookup-filter-some k v d r, e.eqb_iff i k)

  module _ (lt : K × V → K × V → Result Bool) where
    lookup-insert :
        (k j : K) (v : V) (d : Dict K V) {d' : Dict K V}
        → insert lt (k, v) d ≡ ok d'
        → lookup k d ≡ none
        → lookup j d' ≡ (if k == j then some v else lookup j d)
    unfolding lookup insert
    lookup-insert k j v [] f h = ground arith
    lookup-insert k j v ((i, w) ∷ d) f h = elim (insert_inv lt (k, v) (i, w) d f) [
      | inl (rest, _, r, z) ↦
          rw z
            (ground (arith, lookup-insert k j v d r, e.eqb_iff i k, e.eqb_iff k j, e.eqb_iff i j))
      | inr (_, z) ↦ rw z
    ]

    insert-IsUnique :
        (k : K) (v : V) (d : Dict K V) {d' : Dict K V}
        → insert lt (k, v) d ≡ ok d'
        → lookup k d ≡ none
        → IsUnique d
        → IsUnique d'
    unfolding lookup insert
    insert-IsUnique k v [] f h u = ground arith
    insert-IsUnique k v ((i, w) ∷ d) f h u = elim (insert_inv lt (k, v) (i, w) d f) [
      | inl (rest, _, r, z) ↦ rw z (
          ground
            (arith, lookup-insert k i v d r, insert-IsUnique k v d r, e.eqb_iff i k, e.eqb_iff k i))
      | inr (_, z) ↦ rw z (ground arith)
    ]

    -- Sorting changes the order of the entries and nothing else.
    pub sort-lookup :
        (d : Dict K V) {d' : Dict K V}
        → sort lt d ≡ ok d'
        → IsUnique d
        → IsUnique d' × ((j : K) → lookup j d' ≡ lookup j d)
    unfolding sort lookup
    sort-lookup [] f u = (ground arith, λ j. ground arith)
    sort-lookup ((i, w) ∷ d) f u =
        let (rest, r, z) = bind_inv (sort lt d) _ f in
        let (unique, same) = sort-lookup d r u.1 in
        let fresh : lookup i rest ≡ none = rw (same i) u.0 in
        (
          insert-IsUnique i w rest z fresh unique,
          λ j. ground (arith, lookup-insert i j w rest z, same j),
        )

  pub lookup-take :
      (n : ℕ) (k : K) (v : V) (d : Dict K V) → lookup k (take n d) ≡ some v → lookup k d ≡ some v
  unfolding lookup
  lookup-take zero k v d h = ground arith
  lookup-take (suc n) k v [] h = ground arith
  lookup-take (suc n) k v ((i, w) ∷ d) h = ground (arith, lookup-take n k v d)

  lookup-take-none : (n : ℕ) (k : K) (d : Dict K V) → lookup k d ≡ none → lookup k (take n d) ≡ none
  unfolding lookup
  lookup-take-none zero k d h = refl
  lookup-take-none (suc n) k [] h = refl
  lookup-take-none (suc n) k ((i, w) ∷ d) h = ground (arith, lookup-take-none n k d)

  pub take-IsUnique : (n : ℕ) (d : Dict K V) → IsUnique d → IsUnique (take n d)
  take-IsUnique zero d u = tt
  take-IsUnique (suc n) [] u = tt
  take-IsUnique (suc n) ((i, w) ∷ d) u = (lookup-take-none n i d u.0, take-IsUnique n d u.1)

module _ {ℓ} {K V : Type ℓ} ⦃e : HasEq K⦄ where
  -- A filter that returns has tested every entry.
  pub filter_tests :
      (p : V → Result Bool) (k : K) (v : V) (d : Dict K V) {found : Dict K V}
      → filter (λ entry. p entry.1) d ≡ ok found
      → lookup k d ≡ some v
      → (passed : Bool) × (p v ≡ ok passed)
  unfolding lookup
  filter_tests p k v [] f h = cc
  filter_tests p k v ((i, w) ∷ d) f h =
      let (keep, rest, c, r, z) = filter_inv (λ entry. p entry.1) (i, w) d f in
      elim (Bool-cases (i == k)) [
        | inl hit ↦ (keep, subst (λ x. p x ≡ ok keep) (some-injective w v (rw hit at h)) c)
        | inr miss ↦ filter_tests p k v d r (rw miss at h)
      ]
