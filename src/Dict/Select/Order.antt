-- ===== src/Dict/Select/Order.antt =====
-- A selection takes the first in order, and returns if the test and the comparison do.
use saas_job_api.Prelude.{
  ℕ, zero, suc, ◌≡◌, true, false, some, none, [], ◌∷◌, arith, HasEq, take, All,
}
use saas_job_api.Result.{Result, ok, IsOk}
use saas_job_api.Prelude.{Bool}
use saas_job_api.Sorting.Order.{Pairwise, Pairwise-sort, All-filter, filter_total, sort_total}
use saas_job_api.Dict.{Dict, lookup, IsUnique}
use saas_job_api.Dict.Select.{select}
use saas_job_api.Dict.Select.Found.{lookup-filter-some, filter-IsUnique, sort-lookup}
use saas_job_api.Dict.Select.Selected.{select_inv}

module _ {ℓ κ} {K V : Type ℓ} ⦃e : HasEq K⦄ where
  pub All-lookup :
      (P : V → Type κ) (k : K) {v : V} (d : Dict K V)
      → All (λ entry. P entry.1) d
      → lookup k d ≡ some v
      → P v
  unfolding lookup
  All-lookup P k [] h l = ground arith
  All-lookup P k {v} ((i, w) ∷ d) h l = ground (arith, All-lookup P k {v = v} d h.1)

  take_before_rest :
      (R : V → V → Type κ) (n : ℕ) (k j : K) {v w : V} (d : Dict K V)
      → Pairwise (λ a b. R a.1 b.1) d
      → lookup k (take n d) ≡ some v
      → lookup j d ≡ some w
      → lookup j (take n d) ≡ none
      → R v w
  unfolding lookup
  take_before_rest R zero k j d o h l m = ground arith
  take_before_rest R (suc n) k j [] o h l m = ground arith
  take_before_rest R (suc n) k j {v} {w} ((i, x) ∷ d) o h l m =
      ground
        (arith, take_before_rest R n k j {v = v} {w = w} d o.1, All-lookup (R x) j {v = w} d o.0)

module _ {ℓ κ} {K V : Type ℓ} ⦃e : HasEq K⦄ (p : V → Result Bool) (lt : V → V → Result Bool)
    (R : V → V → Type κ) (R_trans : (a b c : V) → R a b → R b c → R a c)
    (before_R : (a b : V) → lt a b ≡ ok true → R a b)
    (not_before_R : (a b : V) → lt a b ≡ ok false → R b a) where
  -- What is selected comes before what passes the test and is left out.
  pub select_first :
      (n : ℕ) (d : Dict K V) (k j : K) {v w : V} {sel : Dict K V}
      → IsUnique d
      → select p lt n d ≡ ok sel
      → lookup k sel ≡ some v
      → lookup j d ≡ some w
      → p w ≡ ok true
      → lookup j sel ≡ none
      → R v w
  select_first n d k j {v} {w} u s h l c m =
      let (found, sorted, f, o, t) = select_inv p lt n d s in
      let (unique, same) =
        sort-lookup (λ a b. lt a.1 b.1) found o (filter-IsUnique (λ entry. p entry.1) d f u) in
      let ordered : Pairwise (λ a b. R a.1 b.1) sorted =
        Pairwise-sort (λ a b. R a.1 b.1) (λ a b. lt a.1 b.1) (λ a b c. R_trans a.1 b.1 c.1)
          (λ a b. before_R a.1 b.1) (λ a b. not_before_R a.1 b.1) found o in
      let here : lookup j sorted ≡ some w =
        rw (same j) (lookup-filter-some (λ entry. p entry.1) j w d f l c) in
      take_before_rest R n k j sorted ordered (rw t at h) here (rw t at m)

module _ {ℓ κ} {K V : Type ℓ} (p : V → Result Bool) (lt : V → V → Result Bool) (P : V → Type κ)
    (p_total : (a : V) → P a → IsOk (p a)) (lt_total : (a b : V) → P a → P b → IsOk (lt a b)) where
  pub select_total : (n : ℕ) (d : Dict K V) → All (λ entry. P entry.1) d → IsOk (select p lt n d)
  unfolding select
  select_total n d h =
      let (found, f) =
        filter_total (λ (entry : K × V). P entry.1) (λ entry. p entry.1) (λ entry. p_total entry.1)
          d h in
      let (sorted, o) =
        sort_total (λ (entry : K × V). P entry.1) (λ a b. lt a.1 b.1) (λ a b. lt_total a.1 b.1)
          found (All-filter (λ (entry : K × V). P entry.1) (λ entry. p entry.1) d f h) in
      (take n sorted, rw (f, o))
