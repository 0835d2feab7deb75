-- ===== src/Dict/Laws.antt =====
-- What a lookup finds after each change of a dict, and that the keys stay distinct.
use saas_job_api.Prelude.{
  ◌≡◌, refl, inl, inr, Option, none, some, List, [], ◌∷◌, arith, HasEq, ◌==◌, contains, Bool-cases,
  ◌||◌, if◌then◌else◌,
}
use saas_job_api.Dict.{Dict, lookup, put, remove, put_all, IsUnique, add}

-- The later value, or the earlier one.
abbrev pub override {ℓ} : {V : Type ℓ} → Option V → Option V → Option V
override none old = old
override (some v) old = some v

module _ {ℓ} {K V : Type ℓ} ⦃e : HasEq K⦄ where
  pub lookup-put :
      (k j : K) (v : V) (d : Dict K V)
      → lookup j (put k v d) ≡ (if k == j then some v else lookup j d)
  unfolding lookup put
  lookup-put k j v [] = refl
  lookup-put k j v ((i, w) ∷ d) =
      ground (arith, e.eqb_iff k j, e.eqb_iff i k, e.eqb_iff i j, lookup-put k j v d)

  pub put-IsUnique : (k : K) (v : V) (d : Dict K V) → IsUnique d → IsUnique (put k v d)
  unfolding lookup put
  put-IsUnique k v [] u = (refl, tt)
  put-IsUnique k v ((i, w) ∷ d) u =
      ground (arith, e.eqb_iff i k, e.eqb_iff k i, lookup-put k i v d, put-IsUnique k v d u.1)

  pub lookup-remove :
      (k j : K) (d : Dict K V)
      → IsUnique d
      → lookup j (remove k d) ≡ (if k == j then none else lookup j d)
  unfolding lookup remove
  lookup-remove k j [] u = ground arith
  lookup-remove k j ((i, w) ∷ d) u =
      ground (arith, e.eqb_iff k j, e.eqb_iff i k, e.eqb_iff i j, lookup-remove k j d u.1)

  pub remove-IsUnique : (k : K) (d : Dict K V) → IsUnique d → IsUnique (remove k d)
  unfolding lookup remove
  remove-IsUnique k [] u = tt
  remove-IsUnique k ((i, w) ∷ d) u =
      ground (arith, lookup-remove k i d u.1, remove-IsUnique k d u.1)

  pub lookup-put_all :
      (changes d : Dict K V)
      → IsUnique changes
      → (j : K) → lookup j (put_all changes d) ≡ override (lookup j changes) (lookup j d)
  unfolding lookup put_all
  lookup-put_all [] d u j = refl
  lookup-put_all ((k, v) ∷ changes) d u j =
      ground (arith, lookup-put_all changes (put k v d) u.1 j, lookup-put k j v d, e.eqb_iff k j)

  pub put_all-IsUnique : (changes d : Dict K V) → IsUnique d → IsUnique (put_all changes d)
  unfolding put_all
  put_all-IsUnique [] d u = u
  put_all-IsUnique ((k, v) ∷ changes) d u =
      put_all-IsUnique changes (put k v d) (put-IsUnique k v d u)

module _ {ℓ} {A : Type ℓ} ⦃e : HasEq A⦄ where
  pub contains-add : (a b : A) (s : List A) → contains b (add a s) ≡ (a == b || contains b s)
  unfolding add contains
  contains-add a b s = elim (Bool-cases (contains a s)) [
    | inl old ↦ elim (Bool-cases (a == b)) [
      | inl same ↦ rw (old, same) (rw ((e.eqb_iff a b).0 same) at old)
      | inr other ↦ rw (old, other)
    ]
    | inr new ↦ rw new
  ]

module _ {ℓ} {K V : Type ℓ} ⦃e : HasEq K⦄ where
  -- Assigning the value that is there changes nothing.
  pub put_same : (k : K) (v : V) (d : Dict K V) → lookup k d ≡ some v → put k v d ≡ d
  unfolding lookup put
  put_same k v [] h = cc
  put_same k v ((i, w) ∷ d) h = ground (arith, put_same k v d)
