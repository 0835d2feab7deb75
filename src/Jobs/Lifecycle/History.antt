-- ===== src/Jobs/Lifecycle/History.antt =====
-- What holds of `MemoryJobStore` over sequences of operations.
use saas_job_api.Prelude.{
  inl, inr, All, String, ◌≡◌, refl, Option, none, some, List, [], ◌∷◌, string_eq,
}
use mathlib.Core.Path.{subst}
use mathlib.Core.Option.{some-injective}
use saas_job_api.Dict.{lookup}
use saas_job_api.Jobs.{JobState, JobRecord, completed}
use saas_job_api.Jobs.Store.{MemoryJobStore, reset}
use saas_job_api.Jobs.Lifecycle.{
  Operation, resets, Keeps, Keeps-cases, step, run, ◌⟶◌, stay, IsConsistent, Inv, Evolves,
  Remembers,
}
use saas_job_api.Jobs.Lifecycle.Steps.{Steps, step-Steps}

-- What evolved is consistent, and a record that was there follows the diagram.
evolved-IsConsistent :
    (k : String) (before after : Option JobRecord) {j' : JobRecord}
    → Evolves k before after
    → after ≡ some j'
    → IsConsistent k j'
evolved-IsConsistent k none none h e = cc
evolved-IsConsistent k none (some x) {j'} h e =
    subst (λ y. IsConsistent k y) (some-injective x j' e) h.0
evolved-IsConsistent k (some y) none h e = cc
evolved-IsConsistent k (some y) (some x) {j'} h e =
    subst (λ z. IsConsistent k z) (some-injective x j' e) h.0

evolved_follows :
    (k : String) (j : JobRecord) (after : Option JobRecord)
    → Evolves k (some j) after
    → (j' : JobRecord) × (after ≡ some j') × (j.state ⟶ j'.state) × Remembers j j'
evolved_follows k j none h = absurd h
evolved_follows k j (some j') h = (j', refl, h.1, h.2)

Steps-Inv : (s s' : MemoryJobStore) → Inv s → Steps s.jobs s'.jobs → Inv s'
Steps-Inv s s' v (unique, evolves) = record {
  unique = unique;
  at_key = λ k j e. evolved-IsConsistent k (lookup k s.jobs) (lookup k s'.jobs) (evolves k) e;
}

reset-Inv : (s : MemoryJobStore) → Inv (step s resets)
unfolding step reset lookup
reset-Inv s = record { unique = tt; at_key = λ k j e. cc }

pub step-Inv : (s : MemoryJobStore) (op : Operation) → Inv s → Inv (step s op)
step-Inv s op v = elim (Keeps-cases op) [
  | inl keeps ↦ Steps-Inv s (step s op) v (step-Steps s v op keeps)
  | inr e ↦ rw e (reset-Inv s)
]

-- A step that is no reset keeps a stored job stored, moves it along the diagram, and remembers its
-- receipts.
pub step-kept :
    (s : MemoryJobStore) (op : Operation) (k : String) (j : JobRecord)
    → Inv s
    → Keeps op
    → lookup k s.jobs ≡ some j
    → (j' : JobRecord) × (lookup k (step s op).jobs ≡ some j')
      × (j.state ⟶ j'.state)
      × Remembers j j'
step-kept s op k j v keeps e =
    evolved_follows k j (lookup k (step s op).jobs) (rw e at ((step-Steps s v op keeps).1 k))

-- In a consistent store every operation but a reset, whether it returns or raises, leaves each
-- stored job in the store, and either keeps the job's state or moves it along one edge of the
-- diagram: available to reserved, reserved to reserved (redelivery), reserved to acknowledged,
-- acknowledged to available (reissue) or acknowledged to completed.
pub step-follows :
    (s : MemoryJobStore) (op : Operation) (k : String) (j : JobRecord)
    → Inv s
    → Keeps op
    → lookup k s.jobs ≡ some j
    → (j' : JobRecord) × (lookup k (step s op).jobs ≡ some j') × (j.state ⟶ j'.state)
step-follows s op k j v keeps e = let (j', e', m, _) = step-kept s op k j v keeps e in (j', e', m)

-- Every sequence of operations, also with resets, keeps a store consistent: distinct keys, each
-- the id of its record; an available job has no receipt token; a reserved one has a holder, an
-- expiry and a token; a job has an acknowledging gateway exactly if it is acknowledged or
-- completed, and then it has the time of the acknowledgement and its token is recorded as
-- acknowledged.
pub run-Inv : (s : MemoryJobStore) (ops : List Operation) → Inv s → Inv (run s ops)
unfolding run
run-Inv s [] v = v
run-Inv s (op ∷ ops) v = run-Inv (step s op) ops (step-Inv s op v)

completed_stays : {a : JobState} → completed ⟶ a → a ≡ completed
completed_stays stay = refl

-- In a consistent store a completed job stays in the store and stays completed through every
-- sequence of operations without a reset.
pub completed_forever :
    (s : MemoryJobStore) (ops : List Operation) (k : String) (j : JobRecord)
    → Inv s
    → All Keeps ops
    → lookup k s.jobs ≡ some j
    → j.state ≡ completed
    → (j' : JobRecord) × (lookup k (run s ops).jobs ≡ some j') × (j'.state ≡ completed)
unfolding run
completed_forever s [] k j v kept e c = (j, e, c)
completed_forever s (op ∷ ops) k j v (keeps, kept) e c =
    let (j', e', m) = step-follows s op k j v keeps e in
    completed_forever (step s op) ops k j' (step-Inv s op v) kept e'
      (completed_stays (subst (λ a. a ⟶ j'.state) c m))

-- Through a run without a reset a job remembers its receipts.
pub run-Remembers :
    (s : MemoryJobStore) (ops : List Operation) (k : String) (j : JobRecord)
    → Inv s
    → All Keeps ops
    → lookup k s.jobs ≡ some j
    → (j' : JobRecord) × (lookup k (run s ops).jobs ≡ some j') × Remembers j j'
unfolding run
run-Remembers s [] k j v kept e = (j, e, λ p h. h)
run-Remembers s (op ∷ ops) k j v (keeps, kept) e =
    let (j', e', _, r) = step-kept s op k j v keeps e in
    let (j'', e'', r') = run-Remembers (step s op) ops k j' (step-Inv s op v) kept e' in
    (j'', e'', λ p h. r' p (r p h))
