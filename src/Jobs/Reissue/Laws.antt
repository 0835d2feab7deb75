-- ===== src/Jobs/Reissue/Laws.antt =====
-- What the two reissues promise.
use mathlib.Core.Path.{subst, ap, ◌∙◌}
use saas_job_api.Prelude.{
  ℕ, String, ◌≡◌, ◌⊎◌, ◌+◌, ◌≤◌, Option-cases, none, refl, inl, inr, Bool, true, false, some, List,
  [], ◌∷◌, arith, contains, string_eq, pair_eq, ◌==◌, Bool-cases, if◌then◌else◌, All,
}
use saas_job_api.Result.{Error, ok, err, IsOk, Result-cases, IsOk-of_no_err}
use saas_job_api.Time.{DateTime, aware, naive, elapsed_ge}
use saas_job_api.Dict.{Dict, lookup}
use saas_job_api.Jobs.{JobRecord, available, acknowledged}
use saas_job_api.Jobs.Store.{MemoryJobStore}
use saas_job_api.Jobs.Reissue.{is_orphaned, reset_job, reset_orphans, reissue_orphaned}
use saas_job_api.Jobs.Claim.Priority.{AwareOrNone}

module _ (now : DateTime) (unreachable : List String) (sla : ℕ) where
  -- How a run of the loop that returns starts.
  reset_orphans_inv :
      (i : String) (x : JobRecord) (d : Dict String JobRecord) (js : List JobRecord)
      → (reset_orphans now unreachable sla ((i, x) ∷ d)).0 ≡ ok js
      → (orphaned : Bool) × (js' : List JobRecord) × (is_orphaned now unreachable sla x
          ≡ ok orphaned)
        × ((reset_orphans now unreachable sla d).0 ≡ ok js')
        × ((reset_orphans now unreachable sla ((i, x) ∷ d)).1
            ≡ (i, if orphaned then reset_job x else x) ∷ (reset_orphans now unreachable sla d).1)
  unfolding reset_orphans
  reset_orphans_inv i x d js r = elim (Result-cases (is_orphaned now unreachable sla x)) [
    | inr (e, c) ↦ cc (rw (c, reset_orphans) at r)
    | inl (false, c) ↦ (false, js, c, rw (c, reset_orphans) at r, rw (c, reset_orphans))
    | inl (true, c) ↦ elim (Result-cases (reset_orphans now unreachable sla d).0) [
      | inr (e, f) ↦ cc (rw (c, reset_orphans, f) at r)
      | inl (js', f) ↦ (true, js', c, f, rw (c, reset_orphans))
    ]
  ]

  -- If the loop returns, it resets exactly the orphaned jobs.
  reset_orphans_exact :
      (k : String) (j : JobRecord) (d : Dict String JobRecord) (js : List JobRecord)
      → (reset_orphans now unreachable sla d).0 ≡ ok js
      → lookup k d ≡ some j
      → (orphaned : Bool) × (is_orphaned now unreachable sla j ≡ ok orphaned)
        × (lookup k (reset_orphans now unreachable sla d).1
            ≡ some (if orphaned then reset_job j else j))
  unfolding lookup
  reset_orphans_exact k j [] js r h = cc
  reset_orphans_exact k j ((i, x) ∷ d) js r h =
      let (orphaned, js', c, f, z) = reset_orphans_inv i x d js r in
      elim (Bool-cases (i == k)) [
        | inl hit ↦
            let same : x ≡ j = cc (rw hit at h) in
            (
              orphaned,
              subst (λ y. is_orphaned now unreachable sla y ≡ ok orphaned) same c,
              rw z (rw hit (ap (λ y. some (if orphaned then reset_job y else y)) same)),
            )
        | inr miss ↦
            let (o, c', l) = reset_orphans_exact k j d js' f (rw miss at h) in
            (o, c', rw z (rw miss l))
      ]

  -- A reissue that returns, job by job.
  pub reissue_orphaned_each :
      (s : MemoryJobStore) (js : List JobRecord) (k : String) (j : JobRecord)
      → (reissue_orphaned now unreachable sla s).0 ≡ ok js
      → lookup k s.jobs ≡ some j
      → (orphaned : Bool) × (is_orphaned now unreachable sla j ≡ ok orphaned)
        × (lookup k (reissue_orphaned now unreachable sla s).1.jobs
            ≡ some (if orphaned then reset_job j else j))
  unfolding reissue_orphaned
  reissue_orphaned_each s js k j r h = reset_orphans_exact k j s.jobs js r h

-- The gateway of the job is unreachable and acknowledged it at least `sla` ago.
abbrev pub IsAbandoned : (t : ℕ) → List String → (sla : ℕ) → JobRecord → Type 0
IsAbandoned t unreachable sla j =
    (j.state ≡ acknowledged)
    × ((g : String) × (j.ack_gateway_id ≡ some g) × (contains g unreachable ≡ true))
    × ((u : ℕ) × (j.ack_received_at ≡ some (aware u)) × (u + sla ≤ t))

orphaned-IsAbandoned :
    (t : ℕ) (unreachable : List String) (sla : ℕ) (j : JobRecord)
    → is_orphaned (aware t) unreachable sla j ≡ ok true
    → IsAbandoned t unreachable sla j
unfolding is_orphaned elapsed_ge
orphaned-IsAbandoned t unreachable sla j h = elim (Option-cases j.ack_gateway_id) [
  | inl e ↦ ground arith
  | inr (g, e) ↦ elim (Option-cases j.ack_received_at) [
    | inl f ↦ ground arith
    | inr (at, f) ↦
        let compared = rw (e, f) at h in
        let kind : at.is_aware ≡ true = ground arith in
        (
          ground arith,
          (g, e, ground arith),
          (at.micros, f ∙ ap (λ b. some (record at { is_aware = b })) kind, ground arith),
        )
  ]
]

abandoned-is_orphaned :
    (t : ℕ) (unreachable : List String) (sla : ℕ) (j : JobRecord)
    → IsAbandoned t unreachable sla j
    → is_orphaned (aware t) unreachable sla j ≡ ok true
unfolding is_orphaned elapsed_ge
abandoned-is_orphaned t unreachable sla j (a, (g, e, m), (u, f, old)) =
    rw (a, e, m, f) (ground arith)

-- A reissue that returns at an aware time makes a stored job available exactly if it is
-- acknowledged by one of the unreachable gateways, at least `sla` ago: then its reservation, its
-- receipt token and its acknowledgement are cleared, and all else is kept. Every other job stays
-- as it was.
pub reissue_orphaned_exact :
    (t : ℕ) (unreachable : List String) (sla : ℕ) (s : MemoryJobStore) (js : List JobRecord)
    (k : String) (j : JobRecord)
    → (reissue_orphaned (aware t) unreachable sla s).0 ≡ ok js
    → lookup k s.jobs ≡ some j
    → (IsAbandoned t unreachable sla j
        × (lookup k (reissue_orphaned (aware t) unreachable sla s).1.jobs
            ≡ some (record j {
              state = available;
              reserved_by = none;
              reservation_until = none;
              receipt_token = none;
              ack_gateway_id = none;
              ack_received_at = none;
              ack_payload_hash = none;
              ack_local_record_version = none;
            })))
      ⊎ ((¬ (IsAbandoned t unreachable sla j))
          × (lookup k (reissue_orphaned (aware t) unreachable sla s).1.jobs ≡ some j))
unfolding reissue_orphaned reset_job
reissue_orphaned_exact t unreachable sla s js k j r h =
    let (orphaned, c, l) = reissue_orphaned_each (aware t) unreachable sla s js k j r h in
    elim (Bool-cases orphaned) [
      | inl hit ↦ inl (orphaned-IsAbandoned t unreachable sla j (c ∙ ap ok hit), rw hit at l)
      | inr miss ↦ inr (
        λ lost.
            let is : is_orphaned (aware t) unreachable sla j ≡ ok true =
              abandoned-is_orphaned t unreachable sla j lost in
            cc,
        rw miss at l,
      )
    ]

naive_not_compared :
    (t u : ℕ) (unreachable : List String) (sla : ℕ) (gateway_id : String) (j : JobRecord)
    → j.state ≡ acknowledged
    → j.ack_gateway_id ≡ some gateway_id
    → contains gateway_id unreachable ≡ true
    → j.ack_received_at ≡ some (naive u)
    → (o : Bool) → ¬ (is_orphaned (aware t) unreachable sla j ≡ ok o)
unfolding is_orphaned
naive_not_compared t u unreachable sla gateway_id j a g m n o c = cc (rw (a, g, m, n) at c)

is_orphaned_total :
    (t : ℕ) (unreachable : List String) (sla : ℕ) (j : JobRecord)
    → AwareOrNone j.ack_received_at
    → IsOk (is_orphaned (aware t) unreachable sla j)
unfolding is_orphaned
is_orphaned_total t unreachable sla j h =
    IsOk-of_no_err (is_orphaned (aware t) unreachable sla j) (λ e f. ground arith)

reset_orphans_total :
    (t : ℕ) (unreachable : List String) (sla : ℕ) (d : Dict String JobRecord)
    → All (λ entry. AwareOrNone entry.1.ack_received_at) d
    → IsOk (reset_orphans (aware t) unreachable sla d).0
unfolding reset_orphans
reset_orphans_total t unreachable sla [] h = ([], refl)
reset_orphans_total t unreachable sla ((i, x) ∷ d) h =
    let (js, r) = reset_orphans_total t unreachable sla d h.1 in
    let (orphaned, c) = is_orphaned_total t unreachable sla x h.0 in
    elim (Bool-cases orphaned) [
      | inl hit ↦ (reset_job x ∷ js, rw (c, hit, reset_orphans, r))
      | inr miss ↦ (js, rw (c, miss, reset_orphans, r))
    ]

-- The time of an acknowledgement is sent by the gateway. At an aware time, one acknowledged job of
-- an unreachable gateway whose time is naive stops the whole reissue with a type error.
pub naive_receipt_stops_reissue :
    (t u : ℕ) (unreachable : List String) (sla : ℕ) (s : MemoryJobStore) (k gateway_id : String)
    (j : JobRecord)
    → lookup k s.jobs ≡ some j
    → j.state ≡ acknowledged
    → j.ack_gateway_id ≡ some gateway_id
    → contains gateway_id unreachable ≡ true
    → j.ack_received_at ≡ some (naive u)
    → (e : Error) × ((reissue_orphaned (aware t) unreachable sla s).0 ≡ err e)
naive_receipt_stops_reissue t u unreachable sla s k gateway_id j h a g m n =
    elim (Result-cases (reissue_orphaned (aware t) unreachable sla s).0) [
      | inr e ↦ e
      | inl (js, r) ↦
          let (o, c, _) = reissue_orphaned_each (aware t) unreachable sla s js k j r h in
          absurd (naive_not_compared t u unreachable sla gateway_id j a g m n o c)
    ]

-- At an aware time, and if the times of all acknowledgements are aware, the reissue returns.
pub reissue_orphaned_total :
    (t : ℕ) (unreachable : List String) (sla : ℕ) (s : MemoryJobStore)
    → All (λ entry. AwareOrNone entry.1.ack_received_at) s.jobs
    → IsOk (reissue_orphaned (aware t) unreachable sla s).0
unfolding reissue_orphaned
reissue_orphaned_total t unreachable sla s h = reset_orphans_total t unreachable sla s.jobs h
