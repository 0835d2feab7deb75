-- ===== src/Dict/Select.antt =====
-- The selection that `claim` (store_memory.py) and `claim_due` (schedule_store_memory.py) share:
-- the values of a dict that pass a test, sorted, and at most `n` of them. Each value keeps its
-- key, which says which entry of the dict is changed afterwards.
mod Found
pub mod Selected
pub mod Order
pub mod Values
use saas_job_api.Prelude.{ℕ, Bool, take}
use saas_job_api.Result.{Result, ok, ◌>>=◌}
use saas_job_api.Sorting.{filter, sort}
use saas_job_api.Dict.{Dict}

module _ {ℓ} {K V : Type ℓ} where
  unfoldable pub select :
      (V → Result Bool) → (V → V → Result Bool) → ℕ → Dict K V → Result (Dict K V)
  select p lt n d = do
    found ← filter (λ entry. p entry.1) d
    sorted ← sort (λ a b. lt a.1 b.1) found
    ok (take n sorted)
