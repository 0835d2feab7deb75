-- ===== src/Sorting.antt =====
-- List comprehensions with a condition and `list.sort`, where the condition or the comparison may
-- raise. Insertion stands for Python's sort: both are stable, both give the one sorted order, and
-- both raise exactly if two elements that have to be compared cannot be.
pub mod Order
use saas_job_api.Prelude.{Bool, List, [], ◌∷◌, if◌then◌else◌}
use saas_job_api.Result.{Result, ok, err, ◌>>=◌}

module _ {ℓ} {A : Type ℓ} where
  -- `[x for x in xs if p(x)]`
  unfoldable pub filter : (A → Result Bool) → List A → Result (List A)
  filter p [] = ok []
  filter p (x ∷ xs) = do keep ← p x; rest ← filter p xs; ok (if keep then x ∷ rest else rest)

  -- Before the first element that is not less.
  unfoldable pub insert : (A → A → Result Bool) → A → List A → Result (List A)
  insert lt x [] = ok (x ∷ [])
  insert lt x (y ∷ ys) = do
    before ← lt y x
    let rest = insert lt x ys
    if before then (rest >>= λ zs. ok (y ∷ zs)) else ok (x ∷ y ∷ ys)

  unfoldable pub sort : (A → A → Result Bool) → List A → Result (List A)
  unfolding insert
  sort lt [] = ok []
  sort lt (x ∷ xs) = do rest ← sort lt xs; insert lt x rest
