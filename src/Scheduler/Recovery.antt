-- ===== src/Scheduler/Recovery.antt =====
-- A job that a silent gateway holds gets back to the others: the reissue and a later claim.
use mathlib.Core.Path.{sym, ap, ◌∙◌}
use saas_job_api.Prelude.{
  ℕ, ◌+◌, ◌≤◌, ◌<◌, String, ◌≡◌, refl, inl, inr, Bool, true, false, some, List, [], ◌∷◌, arith,
  string_eq, ◌==◌, Bool-cases, beq_refl, contains, length, All, if◌then◌else◌,
}
use saas_job_api.Result.{ok, map_ok, IsOk, IsOk-of_no_err, Result-cases}
use saas_job_api.Time.{DateTime, aware, later, elapsed_lt}
use saas_job_api.Dict.{Dict, lookup, values, IsUnique, add}
use saas_job_api.Dict.Laws.{contains-add}
use saas_job_api.Jobs.{JobRecord, acknowledged}
use saas_job_api.Jobs.Claim.{
  ClaimRequest, is_claimable, choose, claim, claim_limit, reserve, allows,
}
use saas_job_api.Jobs.Claim.Priority.{AwareOrNone, claim_complete}
use saas_job_api.Jobs.Reissue.{is_orphaned, reset_job, reissue_orphaned}
use saas_job_api.Jobs.Reissue.Loop.{reset_orphans-IsUnique}
use saas_job_api.Jobs.Reissue.Laws.{reissue_orphaned_each, reissue_orphaned_total}
use saas_job_api.Health.{
  GatewayStatus, HealthState, Thresholds, MemoryHealthStore, derive_current_status, is_held,
}
use saas_job_api.Scheduler.{SchedulerStores, unreachable_ids, reissue_of, reissue_orphaned_jobs}

derive_total :
    (t : Thresholds) (now : ℕ) (status : GatewayStatus)
    → status.last_heartbeat_at.is_aware ≡ true
    → IsOk (derive_current_status t (aware now) status)
unfolding derive_current_status elapsed_lt
derive_total t now status h =
    IsOk-of_no_err (derive_current_status t (aware now) status) (λ e f. ground arith)

-- How a comprehension that returns starts.
unreachable_ids_inv :
    (t : Thresholds) (now : DateTime) (x : GatewayStatus) (xs : List GatewayStatus)
    (ids : List String)
    → unreachable_ids t now (x ∷ xs) ≡ ok ids
    → (h : HealthState) × (ids' : List String) × (derive_current_status t now x ≡ ok h)
      × (unreachable_ids t now xs ≡ ok ids')
      × (ids ≡ (if is_held h then add x.gateway_id ids' else ids'))
unfolding unreachable_ids
unreachable_ids_inv t now x xs ids r = elim (Result-cases (derive_current_status t now x)) [
  | inr (e, c) ↦ cc (rw (c, unreachable_ids) at r)
  | inl (h, c) ↦ elim (Result-cases (unreachable_ids t now xs)) [
    | inr (e, f) ↦ cc (rw (c, unreachable_ids, f) at r)
    | inl (ids', f) ↦ (h, ids', c, f, cc (rw (c, unreachable_ids, f) at r))
  ]
]

unreachable_ids_total :
    (t : Thresholds) (now : ℕ) (d : MemoryHealthStore)
    → All (λ entry. entry.1.last_heartbeat_at.is_aware ≡ true) d
    → IsOk (unreachable_ids t (aware now) (values d))
unfolding unreachable_ids
unreachable_ids_total t now [] h = ([], refl)
unreachable_ids_total t now ((i, status) ∷ d) h =
    let (state, c) = derive_total t now status h.0 in
    let (ids, f) = unreachable_ids_total t now d h.1 in
    (
      (if is_held state then add status.gateway_id ids else ids),
      rw (c, unreachable_ids) (rw f refl),
    )

contains-step :
    (b : Bool) (g x : String) (ids : List String)
    → contains g ids ≡ true
    → contains g (if b then add x ids else ids) ≡ true
contains-step true g x ids h = rw contains-add (ground arith)
contains-step false g x ids h = h

-- A gateway whose health is held is among the unreachable ones.
unreachable_ids_held :
    (t : Thresholds) (now : DateTime) (d : MemoryHealthStore) (k : String) (status : GatewayStatus)
    (h : HealthState) (ids : List String)
    → lookup k d ≡ some status
    → derive_current_status t now status ≡ ok h
    → is_held h ≡ true
    → unreachable_ids t now (values d) ≡ ok ids
    → contains status.gateway_id ids ≡ true
unfolding lookup
unreachable_ids_held t now [] k status h ids e c held r = cc
unreachable_ids_held t now ((i, other) ∷ d) k status h ids e c held r =
    let (h', ids', c', f, z) = unreachable_ids_inv t now other (values d) ids r in
    elim (Bool-cases (i == k)) [
      | inr miss ↦
          let ih = unreachable_ids_held t now d k status h ids' (rw miss at e) c held f in
          rw z (contains-step (is_held h') status.gateway_id other.gateway_id ids' ih)
      | inl hit ↦
          let same : other ≡ status = cc (rw hit at e) in
          let agree : ok h' ≡ ok h = sym c' ∙ ap (derive_current_status t now) same ∙ c in
          let held' : is_held h' ≡ true = cc in
          rw z (
            rw held'
              (rw contains-add (rw same (rw (beq_refl {A = String} status.gateway_id) refl))))
    ]

-- An acknowledged job whose gateway is unreachable and whose time has come is an orphan.
orphan_of :
    (now u sla : ℕ) (ids : List String) (g : String) (j : JobRecord)
    → j.state ≡ acknowledged
    → j.ack_gateway_id ≡ some g
    → j.ack_received_at ≡ some (aware u)
    → contains g ids ≡ true
    → u + sla ≤ now
    → is_orphaned (aware now) ids sla j ≡ ok true
unfolding is_orphaned
orphan_of now u sla ids g j a b c d le = ground arith

-- With an unreachable gateway the reissue of the store runs.
reissue_of_some :
    (now : DateTime) (sla : ℕ) (g : String) (ids : List String) (s : SchedulerStores)
    → contains g ids ≡ true
    → reissue_of now sla ids s ≡ (
      map_ok length (reissue_orphaned now ids sla s.jobs).0,
      record s { jobs = (reissue_orphaned now ids sla s.jobs).1 },
    )
unfolding contains
reissue_of_some now sla g [] s h = cc
reissue_of_some now sla g (i ∷ ids) s h = refl

reissue_of-IsUnique :
    (now : DateTime) (sla : ℕ) (ids : List String) (s : SchedulerStores)
    → IsUnique s.jobs.jobs
    → IsUnique (reissue_of now sla ids s).1.jobs.jobs
unfolding reissue_orphaned
reissue_of-IsUnique now sla [] s u = u
reissue_of-IsUnique now sla (g ∷ ids) s u = reset_orphans-IsUnique now (g ∷ ids) sla s.jobs.jobs u

reissue_orphaned_jobs-IsUnique :
    (t : Thresholds) (sla : ℕ) (now : DateTime) (s : SchedulerStores)
    → IsUnique s.jobs.jobs
    → IsUnique (reissue_orphaned_jobs t sla now s).1.jobs.jobs
unfolding reissue_orphaned_jobs
reissue_orphaned_jobs-IsUnique t sla now s u =
    elim (Result-cases (unreachable_ids t now (values s.health))) [
      | inr (e, c) ↦ rw (c, reissue_orphaned_jobs) u
      | inl (ids, c) ↦ rw (c, reissue_orphaned_jobs) (reissue_of-IsUnique now sla ids s u)
    ]

module _ (t : Thresholds) (sla now u : ℕ) (s : SchedulerStores) (g k : String)
    (status : GatewayStatus) (h : HealthState) (j : JobRecord) where
  -- The job `k` is acknowledged by the gateway `g` since a time at least `sla` ago, and `g` is
  -- silent. The datetimes that gateways sent are aware.
  pub record IsAbandoned : Type 0 where
    pub heartbeats : All (λ entry. entry.1.last_heartbeat_at.is_aware ≡ true) s.health
    pub receipts : All (λ entry. AwareOrNone entry.1.ack_received_at) s.jobs.jobs
    pub silent : lookup g s.health ≡ some status
    pub own : status.gateway_id ≡ g
    pub derived : derive_current_status t (aware now) status ≡ ok h
    pub held : is_held h ≡ true
    pub stored : lookup k s.jobs.jobs ≡ some j
    pub acked : j.state ≡ acknowledged
    pub owner : j.ack_gateway_id ≡ some g
    pub since : j.ack_received_at ≡ some (aware u)
    pub waited : u + sla ≤ now

  -- The reissue gives up the reservation of an abandoned job.
  pub reissue_recovers :
      IsAbandoned
      → IsOk (reissue_orphaned_jobs t sla (aware now) s).0
        × (lookup k (reissue_orphaned_jobs t sla (aware now) s).1.jobs.jobs ≡ some (reset_job j))
  unfolding reissue_orphaned_jobs
  reissue_recovers a =
      let (ids, r) = unreachable_ids_total t now s.health a.heartbeats in
      let listed =
        unreachable_ids_held t (aware now) s.health g status h ids a.silent a.derived a.held r in
      let here : contains g ids ≡ true = rw (← a.own) listed in
      let (js, q) = reissue_orphaned_total now ids sla s.jobs a.receipts in
      let (orphaned, c, found) =
        reissue_orphaned_each (aware now) ids sla s.jobs js k j q a.stored in
      let hit : orphaned ≡ true =
        cc (orphan_of now u sla ids g j a.acked a.owner a.since here a.waited) in
      let ran = reissue_of_some (aware now) sla g ids s here in
      (
        (length js, rw (r, reissue_orphaned_jobs) (rw ran (rw q refl))),
        rw (r, reissue_orphaned_jobs) (rw ran (rw hit at found)),
      )

reset_job-is_claimable :
    (now : DateTime) (r : ClaimRequest) (j : JobRecord)
    → allows r.job_types j.job_type ≡ true
    → allows r.manifest_versions j.manifest_version ≡ true
    → is_claimable now r.job_types r.manifest_versions (reset_job j) ≡ ok true
unfolding is_claimable reset_job
reset_job-is_claimable now r j a b = rw (a, b) refl

-- An abandoned job gets to another gateway. At an aware time, the reissue of the scheduler
-- returns, and after it a claim at any time that supports the job's type and manifest version,
-- and that chooses fewer jobs than it may, reserves the job for its gateway with one of the
-- tokens drawn. The stored jobs have distinct ids.
pub abandoned_job_redelivered :
    (t : Thresholds) (sla now u : ℕ) (s : SchedulerStores) (g k : String) (status : GatewayStatus)
    (h : HealthState) (j : JobRecord) (later_on : DateTime) (token : ℕ → String) (r : ClaimRequest)
    (chosen : Dict String JobRecord)
    → IsAbandoned t sla now u s g k status h j
    → IsUnique s.jobs.jobs
    → allows r.job_types j.job_type ≡ true
    → allows r.manifest_versions j.manifest_version ≡ true
    → choose later_on r (reissue_orphaned_jobs t sla (aware now) s).1.jobs.jobs ≡ ok chosen
    → length chosen < claim_limit r.max_jobs r.dispatch_slots
    → IsOk (reissue_orphaned_jobs t sla (aware now) s).0
      × ((i : ℕ) × (lookup k
              (claim later_on token r (reissue_orphaned_jobs t sla (aware now) s).1.jobs).1.jobs
            ≡ some (
                reserve r.gateway_id
                  (later later_on
                    (reissue_orphaned_jobs t sla (aware now) s).1.jobs.reservation_ttl_seconds)
                  (token i)
                  (reset_job j))))
abandoned_job_redelivered t sla now u s g k status h j later_on token r chosen a unique types
      versions c short =
    let (returns, found) = reissue_recovers t sla now u s g k status h j a in
    (
      returns,
      claim_complete later_on token r (reissue_orphaned_jobs t sla (aware now) s).1.jobs chosen k
          (reset_job j) (reissue_orphaned_jobs-IsUnique t sla (aware now) s unique) c short found
          (reset_job-is_claimable later_on r j types versions),
    )
