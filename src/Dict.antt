-- ===== src/Dict.antt =====
-- Python's `dict`: an association list in insertion order. Assigning to a key that is there keeps
-- its place. A `set` is a dict without values: the list of its elements.
pub mod Laws
pub mod Select
use saas_job_api.Prelude.{
  ℕ, ◌≡◌, Bool, true, false, Option, none, some, List, [], ◌∷◌, ◌++◌, map, HasEq, ◌==◌, contains,
  if◌then◌else◌,
}

abbrev pub Dict {ℓ} : Type ℓ → Type ℓ → Type ℓ
Dict K V = List (K × V)

module _ {ℓ} {K V : Type ℓ} ⦃e : HasEq K⦄ where
  -- `d.get(k)`
  unfoldable pub lookup : K → Dict K V → Option V
  lookup k [] = none
  lookup k ((j, v) ∷ d) = if j == k then some v else lookup k d

  -- `d[k] = v`
  unfoldable pub put : K → V → Dict K V → Dict K V
  put k v [] = (k, v) ∷ []
  put k v ((j, w) ∷ d) = if j == k then (j, v) ∷ d else (j, w) ∷ put k v d

  -- `del d[k]`, `d.pop(k, None)`
  unfoldable pub remove : K → Dict K V → Dict K V
  remove k [] = []
  remove k ((j, w) ∷ d) = if j == k then d else (j, w) ∷ remove k d

  -- In-place changes of some of the values, one after another.
  unfoldable pub put_all : Dict K V → Dict K V → Dict K V
  unfolding put
  put_all [] d = d
  put_all ((k, v) ∷ changes) d = put_all changes (put k v d)

  -- The keys are distinct.
  abbrev pub IsUnique : Dict K V → Type ℓ
  IsUnique [] = Unit
  IsUnique ((k, v) ∷ d) = (lookup k d ≡ none) × IsUnique d

module _ {ℓ} {K V : Type ℓ} where
  -- `d.values()`
  abbrev pub values : Dict K V → List V
  values [] = []
  values ((k, v) ∷ d) = v ∷ values d

module _ {ℓ} {A : Type ℓ} ⦃e : HasEq A⦄ where
  -- `s.add(a)`
  unfoldable pub add : A → List A → List A
  add a s = if contains a s then s else a ∷ s
