-- ===== src/Jobs/Claim/Chosen.antt =====
-- Which jobs a claim chooses.
use saas_job_api.Prelude.Int.{ℤ, pos_part, min_ℤ}
use saas_job_api.Prelude.{ℕ, Option, none, arith, String, ◌≡◌, ◌≤◌, true, some, string_eq, length}
use saas_job_api.Result.{ok}
use saas_job_api.Time.{DateTime}
use saas_job_api.Dict.{Dict, lookup, IsUnique}
use saas_job_api.Dict.Select.Selected.{select_sound, select-IsUnique, length-select-le}
use saas_job_api.Jobs.{JobRecord}
use saas_job_api.Jobs.Claim.{ClaimRequest, is_claimable, claim_limit, choose}

-- The number of jobs that a gateway's slots admit, if it told them.
abbrev pub IsWithinSlots : ℕ → Option ℤ → Type 0
IsWithinSlots n none = Unit
IsWithinSlots n (some slots) = n ≤ pos_part slots

claim_limit_bounds :
    (n : ℕ) (max_jobs : ℤ) (slots : Option ℤ)
    → n ≤ claim_limit max_jobs slots
    → (n ≤ pos_part max_jobs) × IsWithinSlots n slots
unfolding claim_limit min_ℤ
claim_limit_bounds n max_jobs none h = (h, tt)
claim_limit_bounds n max_jobs (some slots) h = ground arith

module _ (now : DateTime) (r : ClaimRequest) (d : Dict String JobRecord) where
  -- A claim chooses at most as many jobs as were asked for and, if the gateway told how many
  -- dispatch slots it has, at most as many as these; none, if one of them is negative.
  pub length-choose-le :
      {chosen : Dict String JobRecord}
      → choose now r d ≡ ok chosen
      → (length chosen ≤ pos_part r.max_jobs) × IsWithinSlots (length chosen) r.dispatch_slots
  unfolding choose
  length-choose-le c = claim_limit_bounds _ r.max_jobs r.dispatch_slots (length-select-le _ _ _ d c)

  module _ (u : IsUnique d) where
    pub choose-IsUnique :
        {chosen : Dict String JobRecord} → choose now r d ≡ ok chosen → IsUnique chosen
    unfolding choose
    choose-IsUnique c = select-IsUnique _ _ _ d u c

    pub choose_sound :
        (k : String) (j : JobRecord) {chosen : Dict String JobRecord}
        → choose now r d ≡ ok chosen
        → lookup k chosen ≡ some j
        → (lookup k d ≡ some j) × (is_claimable now r.job_types r.manifest_versions j ≡ ok true)
    unfolding choose
    choose_sound k j c h = select_sound _ _ _ d u k j c h
