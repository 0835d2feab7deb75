-- ===== src/Api/Polling/Offers.antt =====
-- What a poll offers: the jobs that are now reserved for the gateway, and not more than it asked for.
use mathlib.Core.Path.{ap, sym, ◌∙◌}
use saas_job_api.Prelude.{
  ℕ, suc, ◌≤◌, String, ◌≡◌, refl, inl, inr, true, false, Option, none, some, List, [], ◌∷◌, arith,
  string_eq, ◌==◌, Bool-cases, Option-cases, beq_refl, length, All,
}
use saas_job_api.Prelude.Int.{pos_part}
use saas_job_api.Result.{Result, ok, Result-cases}
use saas_job_api.Time.{DateTime, later}
use saas_job_api.Dict.{Dict, lookup, values, IsUnique, put_all}
use saas_job_api.Dict.Laws.{lookup-put_all}
use saas_job_api.Health as Health
use saas_job_api.Jobs.{JobRecord, reserved}
use saas_job_api.Jobs.Store.{MemoryJobStore, take_fault}
use saas_job_api.Jobs.Claim.{ClaimRequest, choose, claim, reserve, reserve_each}
use saas_job_api.Jobs.Claim.Chosen.{length-choose-le, IsWithinSlots, choose-IsUnique, choose_sound}
use saas_job_api.Jobs.Claim.Reserved.{reserve_each-IsUnique}
use saas_job_api.Jobs.Lifecycle.{Inv}
use saas_job_api.GatewayConfig.{GatewayOperationalConfig}
use saas_job_api.Api.{App, Settings, bind_gateway_id}
use saas_job_api.Api.Polling.{
  JobMessage, PollRequest, PollDraws, PollResponse, offered, messages, message_with, is_disabled,
  holds, claim_request, offer, earliest, serve, poll_jobs,
}

-- The record of a job that is reserved for the gateway until the given time.
pub record IsReservedFor (gateway_id : String) (until : DateTime) (j : JobRecord) : Type 0 where
  pub held : j.state ≡ reserved
  pub holder : j.reserved_by ≡ some gateway_id
  pub expiry : j.reservation_until ≡ some until

-- What holds of all that a dict finds holds of its entries.
All-of_lookup :
    (P : String → JobRecord → Type 0) (d : Dict String JobRecord)
    → IsUnique d
    → ((k : String) (j : JobRecord) → lookup k d ≡ some j → P k j)
    → All (λ e. P e.0 e.1) d
unfolding lookup
All-of_lookup P [] u f = tt
All-of_lookup P ((k, j) ∷ d) u f = (
  f k j (rw (beq_refl {A = String} k)),
  All-of_lookup P d u.1 λ i x h. elim (Bool-cases (k == i)) [
    | inr miss ↦ f i x (rw miss h)
    | inl hit ↦
        let same : k ≡ i = (string_eq.eqb_iff k i).0 hit in cc (u.0, ap (λ key. lookup key d) same)
  ],
)

module _ (gateway_id : String) (until : DateTime) where
  reserve_each_entries :
      (token : ℕ → String) (chosen : Dict String JobRecord)
      → All (λ e. e.1.job_id ≡ e.0) chosen
      → All
          (λ e. (e.1.job_id ≡ e.0) × IsReservedFor gateway_id until e.1)
          (reserve_each gateway_id until token chosen)
  unfolding reserve_each reserve
  reserve_each_entries token [] h = tt
  reserve_each_entries token ((k, j) ∷ chosen) h = (
    (h.0, record { held = refl; holder = refl; expiry = refl }),
    reserve_each_entries (λ i. token (suc i)) chosen h.1,
  )

  length-reserve_each :
      (token : ℕ → String) (chosen : Dict String JobRecord)
      → length (reserve_each gateway_id until token chosen) ≡ length chosen
  unfolding reserve_each
  length-reserve_each token [] = refl
  length-reserve_each token (e ∷ chosen) =
      omega (arith, length-reserve_each (λ i. token (suc i)) chosen)

  -- A message tells of a stored job that is reserved for the gateway, with its token.
  abbrev pub TellsOf : Dict String JobRecord → JobMessage → Type 0
  TellsOf final m =
      (j : JobRecord) × (lookup m.job_id final ≡ some j)
      × IsReservedFor gateway_id until j
      × (j.receipt_token ≡ some m.receipt_token)

  message_tells :
      (final : Dict String JobRecord) (k : String) (j : JobRecord) (token : Option String)
      (m : JobMessage)
      → lookup k final ≡ some j
      → j.job_id ≡ k
      → IsReservedFor gateway_id until j
      → j.receipt_token ≡ token
      → message_with j token ≡ ok m
      → TellsOf final m
  message_tells final k j none m f key r t e = cc
  message_tells final k j (some token) m f key r t e =
      let id : m.job_id ≡ k = cc in
      let same : some token ≡ some m.receipt_token = cc in (j, rw id f, r, t ∙ same)

  messages_tell :
      (final d : Dict String JobRecord) (ms : List JobMessage)
      → All (λ e. lookup e.0 final ≡ some e.1) d
      → All (λ e. (e.1.job_id ≡ e.0) × IsReservedFor gateway_id until e.1) d
      → messages (values d) ≡ ok ms
      → All (TellsOf final) ms × (length ms ≡ length d)
  unfolding messages
  messages_tell final [] ms f r e = let nil : [] ≡ ms = cc in rw (← nil) (tt, refl)
  messages_tell final ((k, j) ∷ d) ms f r e = elim (Result-cases (message_with j j.receipt_token)) [
    | inr (x, c) ↦ cc (rw (c, messages) at e)
    | inl (m, c) ↦ elim (Result-cases (messages (values d))) [
      | inr (x, c') ↦ cc (rw (c, messages, c') at e)
      | inl (ms', c') ↦
          let (all, count) = messages_tell final d ms' f.1 r.1 c' in
          let cons : m ∷ ms' ≡ ms = cc (rw (c, messages, c') at e) in
          rw (← cons)
            ((message_tells final k j j.receipt_token m f.0 r.0.0 r.0.1 refl c, all), omega arith)
    ]
  ]

-- What a claim that returns has reserved, told to the gateway.
claim_tells :
    (now : DateTime) (token : ℕ → String) (r : ClaimRequest) (s : MemoryJobStore)
    (js : List JobRecord) (ms : List JobMessage)
    → Inv s
    → (claim now token r s).0 ≡ ok js
    → messages js ≡ ok ms
    → All
        (TellsOf r.gateway_id (later now s.reservation_ttl_seconds) (claim now token r s).1.jobs)
        ms
      × (length ms ≤ pos_part r.max_jobs)
      × IsWithinSlots (length ms) r.dispatch_slots
unfolding claim
claim_tells now token r s js ms v returned told = elim (Result-cases (choose now r s.jobs)) [
  | inr (e, c) ↦ cc (rw (c, claim) at returned)
  | inl (chosen, c) ↦
      let until = later now s.reservation_ttl_seconds in
      let changed = reserve_each r.gateway_id until token chosen in
      let u = choose-IsUnique now r s.jobs v.unique c in
      let cu : IsUnique changed = reserve_each-IsUnique r.gateway_id until token chosen u in
      let keyed : All (λ e. e.1.job_id ≡ e.0) chosen =
        All-of_lookup (λ k j. j.job_id ≡ k) chosen u
          (λ k j h. (v.at_key k j (choose_sound now r s.jobs v.unique k j c h).0).key) in
      let found : All (λ e. lookup e.0 (put_all changed s.jobs) ≡ some e.1) changed =
        All-of_lookup (λ k j. lookup k (put_all changed s.jobs) ≡ some j) changed cu
          (λ k j h. rw (lookup-put_all changed s.jobs cu k) (rw h refl)) in
      let told' : messages (values changed) ≡ ok ms = cc (rw (c, claim) at returned) in
      let (all, count) =
        messages_tell r.gateway_id until (put_all changed s.jobs) changed ms found
          (reserve_each_entries r.gateway_id until token chosen keyed) told' in
      let size : length ms ≡ length chosen =
        count ∙ length-reserve_each r.gateway_id until token chosen in
      let (few, within) = length-choose-le now r s.jobs c in (rw c all, rw size few, rw size within)
]

offer-messages :
    (settings : Settings) (body : PollRequest) (draws : PollDraws)
    (config : Option GatewayOperationalConfig) (js : List JobRecord) (resp : PollResponse)
    → offer settings body draws config js ≡ ok (offered resp)
    → messages js ≡ ok resp.jobs
unfolding offer
offer-messages settings body draws config [] resp h = cc h
offer-messages settings body draws config (job ∷ jobs) resp h =
    elim (Result-cases (messages (job ∷ jobs))) [
      | inr (e, c) ↦ cc (rw (c, offer) at h)
      | inl (ms, c) ↦ elim (Result-cases (earliest job.reservation_until jobs)) [
        | inr (e, d) ↦ cc (rw (c, offer, d) at h)
        | inl (until, d) ↦ c ∙ (cc (rw (c, offer, d) at h))
      ]
    ]

module _ (settings : Settings) (body : PollRequest) (gateway_id : String) (draws : PollDraws) where
  abbrev claimed : App → Result (List JobRecord) × MemoryJobStore
  claimed s = claim draws.claimed_at draws.token (claim_request gateway_id body) s.jobs

  -- A gateway that is served jobs has claimed them.
  serve_inv :
      (s : App) (resp : PollResponse)
      → (serve settings body gateway_id draws s).0 ≡ ok (offered resp)
      → (js : List JobRecord) × ((claimed s).0 ≡ ok js)
        × (messages js ≡ ok resp.jobs)
        × ((serve settings body gateway_id draws s).1.jobs ≡ (claimed s).1)
  unfolding serve Health.get
  serve_inv s resp h = elim (Bool-cases (is_disabled (lookup gateway_id s.configs))) [
    | inl off ↦ cc (rw off at h)
    | inr on ↦ elim (Result-cases (holds settings draws.now (lookup gateway_id s.health))) [
      | inr (e, c) ↦ cc (rw (on, c) at h)
      | inl (true, c) ↦ cc (rw (on, c) at h)
      | inl (false, c) ↦ elim (Result-cases (claimed s).0) [
        | inr (e, d) ↦ cc (rw (on, c, d) at h)
        | inl (js, d) ↦ (
          js,
          d,
          offer-messages settings body draws (lookup gateway_id s.configs) js resp
              (rw (on, c, d) at h),
          rw (on, c, d) refl,
        )
      ]
    ]
  ]

  -- A poll that is answered with jobs was bound, found no fault, and served the gateway.
  poll_jobs_inv :
      (s : App) (resp : PollResponse)
      → (poll_jobs settings body gateway_id draws s).0 ≡ ok (offered resp)
      → poll_jobs settings body gateway_id draws s
        ≡ serve settings body gateway_id draws
            (record s { jobs = record s.jobs { pending_fault = none } })
  unfolding poll_jobs take_fault
  poll_jobs_inv s resp h = elim (Result-cases (bind_gateway_id body.gateway_id gateway_id)) [
    | inr (e, b) ↦ cc (rw b at h)
    | inl (g, b) ↦ elim (Option-cases s.jobs.pending_fault) [
      | inl f ↦ rw (b, f) refl
      | inr (x, f) ↦ cc (rw (b, f) at h)
    ]
  ]

  -- In a consistent store, every job that a poll offers is then stored, under its id, as reserved
  -- for the polling gateway until the end of the reservation period, with the receipt token that
  -- the message has, and there are at most as many jobs as the gateway asked for and has slots.
  pub poll_jobs_offers :
      (s : App) (resp : PollResponse)
      → Inv s.jobs
      → (poll_jobs settings body gateway_id draws s).0 ≡ ok (offered resp)
      → All
          (TellsOf gateway_id
            (later draws.claimed_at s.jobs.reservation_ttl_seconds)
            (poll_jobs settings body gateway_id draws s).1.jobs.jobs)
          resp.jobs
        × (length resp.jobs ≤ pos_part body.max_jobs)
        × IsWithinSlots (length resp.jobs) body.available_dispatch_slots
  poll_jobs_offers s resp v h =
      let quiet : App = record s { jobs = record s.jobs { pending_fault = none } } in
      let same = poll_jobs_inv s resp h in
      let served : (serve settings body gateway_id draws quiet).0 ≡ ok (offered resp) =
        ap (λ ran. ran.0) (sym same) ∙ h in
      let (js, c, told, jobs) = serve_inv quiet resp served in
      let v' : Inv quiet.jobs = record { unique = v.unique; at_key = v.at_key } in
      let (all, few, within) =
        claim_tells draws.claimed_at draws.token (claim_request gateway_id body) quiet.jobs js
          resp.jobs v' c told in
      let final : (poll_jobs settings body gateway_id draws s).1.jobs ≡ (claimed quiet).1 =
        ap (λ ran. ran.1.jobs) same ∙ jobs in
      (rw final all, few, within)
