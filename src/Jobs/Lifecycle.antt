-- ===== src/Jobs/Lifecycle.antt =====
-- The life of a job in `MemoryJobStore`: the operations as steps of the store, the diagram of
-- states that `JobState` (src/saas_job_api/domain.py) stands for, and what holds of a stored
-- record between two steps.
mod Moves
pub mod Steps
pub mod History
pub mod Interruptions
pub mod Replays
use saas_job_api.Prelude.{
  ℕ, String, ◌≡◌, refl, ◌⊎◌, inl, inr, Bool, true, false, not, Option, none, some, List, [], ◌∷◌,
  contains, string_eq, pair_eq, is_none,
}
use saas_job_api.Result.{Result}
use saas_job_api.Time.{DateTime}
use saas_job_api.Dict.{lookup, IsUnique}
use saas_job_api.Jobs.{
  JobState, JobRecord, NewJob, available, reserved, acknowledged, completed, new_job,
}
use saas_job_api.Jobs.Store.{MemoryJobStore, seed, reset, set_fault, take_fault}
use saas_job_api.Jobs.Claim.{ClaimRequest, claim}
use saas_job_api.Jobs.Receipts.{Receipt, acknowledge, mark_completed}
use saas_job_api.Jobs.Reissue.{reissue_orphaned, reissue_one}

-- The operations that change the store, with their arguments: those that the routers and the
-- scheduler call.
pub data Operation : Type 0 where
  seeds : NewJob → Operation
  resets : Operation
  claims : DateTime → (ℕ → String) → ClaimRequest → Operation
  acknowledges : Receipt → Operation
  completes : (job_id gateway_id : String) → Operation
  interrupts : (job_id gateway_id attempt_token : String) → Operation
  orphans : DateTime → List String → ℕ → Operation
  arms : ℕ → Option ℕ → Operation
  disarms : Operation

-- The store after the operation, whether it returns or raises.
unfoldable pub step : MemoryJobStore → Operation → MemoryJobStore
step s (seeds n) = (seed (new_job n) s).1
step s resets = (reset s).1
step s (claims now token r) = (claim now token r s).1
step s (acknowledges r) = (acknowledge r s).1
step s (completes job_id gateway_id) = (mark_completed job_id gateway_id s).1
step s (interrupts job_id gateway_id attempt_token) =
    (reissue_one job_id gateway_id attempt_token s).1
step s (orphans now unreachable sla) = (reissue_orphaned now unreachable sla s).1
step s (arms status retry_after) = (set_fault status retry_after s).1
step s disarms = (take_fault s).1

unfoldable pub run : MemoryJobStore → List Operation → MemoryJobStore
run s [] = s
run s (op ∷ ops) = run (step s op) ops

-- Every operation but `reset`, which only the endpoint POST /admin/reset calls, keeps the jobs.
abbrev pub Keeps : Operation → Type 0
Keeps resets = ⊥
Keeps (seeds n) = Unit
Keeps (claims now token r) = Unit
Keeps (acknowledges r) = Unit
Keeps (completes job_id gateway_id) = Unit
Keeps (interrupts job_id gateway_id attempt_token) = Unit
Keeps (orphans now unreachable sla) = Unit
Keeps (arms status retry_after) = Unit
Keeps disarms = Unit

pub Keeps-cases : (op : Operation) → Keeps op ⊎ (op ≡ resets)
Keeps-cases resets = inr refl
Keeps-cases (seeds n) = inl tt
Keeps-cases (claims now token r) = inl tt
Keeps-cases (acknowledges r) = inl tt
Keeps-cases (completes job_id gateway_id) = inl tt
Keeps-cases (interrupts job_id gateway_id attempt_token) = inl tt
Keeps-cases (orphans now unreachable sla) = inl tt
Keeps-cases (arms status retry_after) = inl tt
Keeps-cases disarms = inl tt

-- The diagram of the states.
infix 40 ◌⟶◌
pub data ◌⟶◌ : JobState → JobState → Type 0 where
  reserve : available ⟶ reserved
  redeliver : reserved ⟶ reserved
  confirm : reserved ⟶ acknowledged
  reissue : acknowledged ⟶ available
  complete : acknowledged ⟶ completed
  stay : {a : JobState} → a ⟶ a

-- A gateway owns the job: it has acknowledged it.
abbrev pub is_owned : JobState → Bool
is_owned available = false
is_owned reserved = false
is_owned acknowledged = true
is_owned completed = true

-- The receipt token of the record is among those acknowledged.
abbrev pub HasReceipt : String → Option String → List (String × String) → Type 0
HasReceipt k none receipts = ⊥
HasReceipt k (some token) receipts = contains (k, token) receipts ≡ true

pub record IsConsistent (k : String) (j : JobRecord) : Type 0 where
  pub key : j.job_id ≡ k
  pub free : j.state ≡ available → j.receipt_token ≡ none
  pub held_until : j.state ≡ reserved → is_none j.reservation_until ≡ false
  pub held_by : j.state ≡ reserved → is_none j.reserved_by ≡ false
  pub held_token : j.state ≡ reserved → is_none j.receipt_token ≡ false
  pub owner : is_owned j.state ≡ not (is_none j.ack_gateway_id)
  pub owned_at : is_owned j.state ≡ true → is_none j.ack_received_at ≡ false
  pub receipt : is_owned j.state ≡ true → HasReceipt k j.receipt_token j.acknowledged_receipts

pub record Inv (s : MemoryJobStore) : Type 0 where
  pub unique : IsUnique s.jobs
  pub at_key : (k : String) (j : JobRecord) → lookup k s.jobs ≡ some j → IsConsistent k j

-- The receipts that the first record has acknowledged, the second has too.
abbrev pub Remembers : JobRecord → JobRecord → Type 0
Remembers j j' =
    (receipt : String × String)
    → contains receipt j.acknowledged_receipts ≡ true
    → contains receipt j'.acknowledged_receipts ≡ true

-- What one step may do to the record under a key: create it, or move it along the diagram.
abbrev pub Evolves : String → Option JobRecord → Option JobRecord → Type 0
Evolves k none none = Unit {0}
Evolves k none (some j') = IsConsistent k j' × (j'.state ≡ available)
Evolves k (some j) none = ⊥
Evolves k (some j) (some j') = IsConsistent k j' × (j.state ⟶ j'.state) × Remembers j j'
