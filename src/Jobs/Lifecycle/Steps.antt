-- ===== src/Jobs/Lifecycle/Steps.antt =====
-- Every operation keeps the store consistent and moves each job along the diagram.
use mathlib.Core.Path.{subst}
use saas_job_api.Prelude.{
  ℕ, String, ◌≡◌, refl, inl, inr, true, false, ◌&&◌, some, List, arith, string_eq, ◌==◌, pair_eq,
  contains, option_beq, Bool-cases, Option-cases,
}
use saas_job_api.Result.{ok, Result-cases}
use saas_job_api.Time.{DateTime, later}
use saas_job_api.Dict.{Dict, lookup, put, put_all, IsUnique}
use saas_job_api.Dict.Laws.{lookup-put, put-IsUnique, lookup-put_all, put_all-IsUnique}
use saas_job_api.Jobs.{JobRecord, NewJob, new_job, is_acknowledged}
use saas_job_api.Jobs.Store.{MemoryJobStore, seed, set_fault, take_fault}
use saas_job_api.Jobs.Claim.{ClaimRequest, reserve_each, choose, claim}
use saas_job_api.Jobs.Claim.Chosen.{choose_sound, choose-IsUnique}
use saas_job_api.Jobs.Claim.Reserved.{
  lookup-reserve_each, lookup-reserve_each-none, reserve_each-IsUnique,
}
use saas_job_api.Jobs.Receipts.{
  Receipt, check_receipt, complete_record, acknowledge, mark_completed,
}
use saas_job_api.Jobs.Reissue.{reset_job, is_orphaned, interrupt, reissue_one, reissue_orphaned}
use saas_job_api.Jobs.Reissue.Loop.{reset_orphans_none, reset_orphans-IsUnique, reset_orphans_some}
use saas_job_api.Jobs.Lifecycle.{
  Operation, seeds, resets, Keeps, claims, acknowledges, completes, interrupts, orphans, arms,
  disarms, step, Inv, Evolves, stay,
}
use saas_job_api.Jobs.Lifecycle.Moves.{
  new_job-IsConsistent, reserve-Moves, reset_job-Moves, check_receipt-Moves, complete_record-Moves,
}

orphaned_state :
    (now : DateTime) (unreachable : List String) (sla : ℕ) (j : JobRecord)
    → is_orphaned now unreachable sla j ≡ ok true
    → is_acknowledged j.state ≡ true
unfolding is_orphaned
orphaned_state now unreachable sla j h = ground arith

-- Both halves of a step on the jobs: the keys stay distinct, and each record evolves.
abbrev pub Steps : Dict String JobRecord → Dict String JobRecord → Type 0
Steps d d' = IsUnique d' × ((k : String) → Evolves k (lookup k d) (lookup k d'))

module _ (s : MemoryJobStore) (v : Inv s) where
  Evolves-same : (k : String) → Evolves k (lookup k s.jobs) (lookup k s.jobs)
  Evolves-same k = elim (Option-cases (lookup k s.jobs)) [
    | inl e ↦ rw e tt
    | inr (j, e) ↦ rw e (v.at_key k j e, stay, λ p h. h)
  ]

  Steps-same : Steps s.jobs s.jobs
  Steps-same = (v.unique, Evolves-same)

  -- An assignment to one key.
  put-Steps :
      (i : String) (j' : JobRecord)
      → Evolves i (lookup i s.jobs) (some j')
      → Steps s.jobs (put i j' s.jobs)
  put-Steps i j' h = (
    put-IsUnique i j' s.jobs v.unique,
    λ k. rw lookup-put (elim (Bool-cases (i == k)) [
      | inl hit ↦
          rw hit
            (subst (λ x. Evolves x (lookup x s.jobs) (some j')) ((string_eq.eqb_iff i k).0 hit) h)
      | inr miss ↦ rw miss (Evolves-same k)
    ]),
  )

  seed-Steps : (n : NewJob) → Steps s.jobs (seed (new_job n) s).1.jobs
  unfolding seed new_job
  seed-Steps n = elim (Option-cases (lookup n.job_id s.jobs)) [
    | inl e ↦ rw e (put-Steps n.job_id (new_job n) (rw e (new_job-IsConsistent n, refl)))
    | inr (j, e) ↦ rw e Steps-same
  ]

  acknowledge-Steps : (r : Receipt) → Steps s.jobs (acknowledge r s).1.jobs
  unfolding acknowledge
  acknowledge-Steps r = elim (Option-cases (lookup r.job_id s.jobs)) [
    | inl e ↦ rw e Steps-same
    | inr (j, e) ↦ elim (Result-cases (check_receipt r j)) [
      | inl ((true, j'), c) ↦
          rw (e, c)
            (put-Steps r.job_id j'
              (rw e (check_receipt-Moves r.job_id j (v.at_key r.job_id j e) r true j' refl c)))
      | inl ((false, j'), c) ↦ rw (e, c) Steps-same
      | inr (x, c) ↦ rw (e, c) Steps-same
    ]
  ]

  mark_completed-Steps :
      (job_id gateway_id : String) → Steps s.jobs (mark_completed job_id gateway_id s).1.jobs
  unfolding mark_completed
  mark_completed-Steps job_id gateway_id = elim (Option-cases (lookup job_id s.jobs)) [
    | inl e ↦ rw e Steps-same
    | inr (j, e) ↦ elim (Result-cases (complete_record gateway_id j)) [
      | inl (j', c) ↦
          rw (e, c)
            (put-Steps job_id j'
              (rw e (complete_record-Moves job_id j (v.at_key job_id j e) gateway_id j' c)))
      | inr (x, c) ↦ rw (e, c) Steps-same
    ]
  ]

  interrupt-Steps :
      (job_id gateway_id attempt_token : String)
      → Steps s.jobs (interrupt job_id gateway_id attempt_token (lookup job_id s.jobs) s).1.jobs
  unfolding interrupt
  interrupt-Steps job_id gateway_id attempt_token = elim (Option-cases (lookup job_id s.jobs)) [
    | inl e ↦ rw e Steps-same
    | inr (j, e) ↦
        elim (Bool-cases
          (is_acknowledged j.state && option_beq j.ack_gateway_id (some gateway_id))) [
            | inl hit ↦
                rw (e, hit)
                  (put-Steps job_id (reset_job j)
                    (rw e (reset_job-Moves job_id j (v.at_key job_id j e) (ground arith))))
            | inr miss ↦ rw (e, miss) Steps-same
          ]
  ]

  reissue_one-Steps :
      (job_id gateway_id attempt_token : String)
      → Steps s.jobs (reissue_one job_id gateway_id attempt_token s).1.jobs
  unfolding reissue_one
  reissue_one-Steps job_id gateway_id attempt_token =
      elim (Bool-cases (contains (job_id, (gateway_id, attempt_token)) s.interrupted_attempts)) [
        | inl known ↦ rw known Steps-same
        | inr fresh ↦ rw fresh (interrupt-Steps job_id gateway_id attempt_token)
      ]

  reissue_orphaned-Steps :
      (now : DateTime) (unreachable : List String) (sla : ℕ)
      → Steps s.jobs (reissue_orphaned now unreachable sla s).1.jobs
  unfolding reissue_orphaned
  reissue_orphaned-Steps now unreachable sla = (
    reset_orphans-IsUnique now unreachable sla s.jobs v.unique,
    λ k. elim (Option-cases (lookup k s.jobs)) [
      | inl e ↦ rw (e, reset_orphans_none now unreachable sla k s.jobs e) tt
      | inr (j, e) ↦ elim (reset_orphans_some now unreachable sla k j s.jobs e) [
        | inl same ↦ rw (e, same) (v.at_key k j e, stay, λ p h. h)
        | inr (hit, gone) ↦
            rw (e, gone)
              (reset_job-Moves k j (v.at_key k j e) (orphaned_state now unreachable sla j hit))
      ]
    ],
  )

  reserved-Steps :
      (now : DateTime) (token : ℕ → String) (r : ClaimRequest) (chosen : Dict String JobRecord)
      → choose now r s.jobs ≡ ok chosen
      → Steps s.jobs (
          put_all
            (reserve_each r.gateway_id (later now s.reservation_ttl_seconds) token chosen)
            s.jobs)
  reserved-Steps now token r chosen c =
      let until = later now s.reservation_ttl_seconds in
      let changed = reserve_each r.gateway_id until token chosen in
      let unique : IsUnique changed =
        reserve_each-IsUnique r.gateway_id until token chosen
          (choose-IsUnique now r s.jobs v.unique c) in
      (
        put_all-IsUnique changed s.jobs v.unique,
        λ k. rw (lookup-put_all changed s.jobs unique k) (elim (Option-cases (lookup k chosen)) [
          | inl e ↦
              rw (lookup-reserve_each-none r.gateway_id until token k chosen e) (Evolves-same k)
          | inr (j, e) ↦
              let (i, f) = lookup-reserve_each r.gateway_id until token k chosen e in
              let (old, eligible) = choose_sound now r s.jobs v.unique k j c e in
              rw (f, old)
                (reserve-Moves k j (v.at_key k j old) r.gateway_id (token i) until now r.job_types
                  r.manifest_versions eligible)
        ]),
      )

  claim-Steps :
      (now : DateTime) (token : ℕ → String) (r : ClaimRequest)
      → Steps s.jobs (claim now token r s).1.jobs
  unfolding claim
  claim-Steps now token r = elim (Result-cases (choose now r s.jobs)) [
    | inr (x, c) ↦ rw c Steps-same
    | inl (chosen, c) ↦ rw c (reserved-Steps now token r chosen c)
  ]

  pub step-Steps : (op : Operation) → Keeps op → Steps s.jobs (step s op).jobs
  unfolding step set_fault take_fault
  step-Steps resets keeps = absurd keeps
  step-Steps (seeds n) keeps = seed-Steps n
  step-Steps (claims now token r) keeps = claim-Steps now token r
  step-Steps (acknowledges r) keeps = acknowledge-Steps r
  step-Steps (completes job_id gateway_id) keeps = mark_completed-Steps job_id gateway_id
  step-Steps (interrupts job_id gateway_id attempt_token) keeps =
      reissue_one-Steps job_id gateway_id attempt_token
  step-Steps (orphans now unreachable sla) keeps = reissue_orphaned-Steps now unreachable sla
  step-Steps (arms status retry_after) keeps = Steps-same
  step-Steps disarms keeps = Steps-same
