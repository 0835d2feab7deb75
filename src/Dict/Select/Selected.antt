-- ===== src/Dict/Select/Selected.antt =====
-- What a selection that returns has selected.
use saas_job_api.Prelude.{
  ℕ, ◌≤◌, ◌<◌, ◌≡◌, Bool, true, some, HasEq, take, length, length-take-le, take_all,
}
use saas_job_api.Result.{Result, ok, bind_inv}
use saas_job_api.Sorting.{filter, sort}
use saas_job_api.Dict.{Dict, lookup, IsUnique}
use saas_job_api.Dict.Select.{select}
use saas_job_api.Dict.Select.Found.{
  lookup-filter, lookup-filter-some, filter_tests, filter-IsUnique, sort-lookup, lookup-take,
  take-IsUnique,
}

module _ {ℓ} {K V : Type ℓ} (p : V → Result Bool) (lt : V → V → Result Bool) (n : ℕ)
    (d : Dict K V) where
  -- The list of which the selection is the beginning.
  pub select_inv :
      {sel : Dict K V}
      → select p lt n d ≡ ok sel
      → (found : Dict K V) × (sorted : Dict K V) × (filter (λ entry. p entry.1) d ≡ ok found)
        × (sort (λ a b. lt a.1 b.1) found ≡ ok sorted)
        × (sel ≡ take n sorted)
  unfolding select
  select_inv s =
      let (found, f, s') = bind_inv (filter (λ entry. p entry.1) d) _ s in
      let (sorted, o, s'') = bind_inv (sort (λ a b. lt a.1 b.1) found) _ s' in
      (found, sorted, f, o, cc)

  pub length-select-le : {sel : Dict K V} → select p lt n d ≡ ok sel → length sel ≤ n
  length-select-le s = let (found, sorted, f, o, t) = select_inv s in rw t (length-take-le n sorted)

module _ {ℓ} {K V : Type ℓ} ⦃e : HasEq K⦄ (p : V → Result Bool) (lt : V → V → Result Bool) (n : ℕ)
    (d : Dict K V) (u : IsUnique d) where
  pub select-IsUnique : {sel : Dict K V} → select p lt n d ≡ ok sel → IsUnique sel
  select-IsUnique s =
      let (found, sorted, f, o, t) = select_inv p lt n d s in
      let unique : IsUnique sorted =
        (sort-lookup (λ a b. lt a.1 b.1) found o (filter-IsUnique (λ entry. p entry.1) d f u)).0 in
      rw t (take-IsUnique n sorted unique)

  -- What is selected stands in the dict and passes the test.
  pub select_sound :
      {sel : Dict K V} (k : K) (v : V)
      → select p lt n d ≡ ok sel
      → lookup k sel ≡ some v
      → (lookup k d ≡ some v) × (p v ≡ ok true)
  select_sound k v s h =
      let (found, sorted, f, o, t) = select_inv p lt n d s in
      let (unique, same) =
        sort-lookup (λ a b. lt a.1 b.1) found o (filter-IsUnique (λ entry. p entry.1) d f u) in
      let kept : lookup k sorted ≡ some v = lookup-take n k v sorted (rw t at h) in
      lookup-filter (λ entry. p entry.1) k v d f u (rw (same k) at kept)

  -- A selection that is not full has everything that passes the test.
  pub select_complete :
      {sel : Dict K V} (k : K) (v : V)
      → select p lt n d ≡ ok sel
      → length sel < n
      → lookup k d ≡ some v
      → p v ≡ ok true
      → lookup k sel ≡ some v
  select_complete {sel} k v s short h c =
      let (found, sorted, f, o, t) = select_inv p lt n d s in
      let (unique, same) =
        sort-lookup (λ a b. lt a.1 b.1) found o (filter-IsUnique (λ entry. p entry.1) d f u) in
      let whole : take n sorted ≡ sorted = take_all n sorted (rw t at short) in
      rw (t, whole, same k) (lookup-filter-some (λ entry. p entry.1) k v d f h c)

module _ {ℓ} {K V : Type ℓ} ⦃e : HasEq K⦄ (p : V → Result Bool) (lt : V → V → Result Bool) (n : ℕ)
    (d : Dict K V) where
  -- A selection that returns has tested every value.
  pub select_tests :
      {sel : Dict K V} (k : K) (v : V)
      → select p lt n d ≡ ok sel
      → lookup k d ≡ some v
      → (passed : Bool) × (p v ≡ ok passed)
  select_tests k v s h =
      let (found, sorted, f, o, t) = select_inv p lt n d s in filter_tests p k v d f h
