-- ===== src/Api/Polling/Laws.antt =====
-- For which gateways a poll reserves jobs, and what a poll leaves as it was.
use mathlib.Core.Path.{ap, sym}
use saas_job_api.Prelude.{
  ℕ, String, ◌≡◌, ◌≢◌, ◌⊎◌, ◌∙◌, refl, inl, inr, Option-cases, arith, true, false, none, some,
  string_eq, Bool-cases, ◌==◌,
}
use saas_job_api.Result.{ok, err, Result-cases, forbidden, type_error}
use saas_job_api.Time.{aware, naive}
use saas_job_api.Dict.{lookup}
use saas_job_api.Jobs.Store.{take_fault}
use saas_job_api.Health.{HealthState, GatewayStatus, derive_current_status, is_held, reports_failed}
use saas_job_api.GatewayConfig.{GatewayOperationalConfig}
use saas_job_api.Health as Health
use saas_job_api.Health.Laws.{derive_naive}
use saas_job_api.Api.{App, Settings, bind_gateway_id}
use saas_job_api.Api.Polling.{PollRequest, PollDraws, is_disabled, holds, serve, poll_jobs}

module _ (settings : Settings) (body : PollRequest) (gateway_id : String) (draws : PollDraws)
    (s : App) where
  -- Without an injected fault, a poll in the gateway's own name goes on to serve it.
  poll_jobs_serves :
      bind_gateway_id body.gateway_id gateway_id ≡ ok gateway_id
      → s.jobs.pending_fault ≡ none
      → poll_jobs settings body gateway_id draws s ≡ serve settings body gateway_id draws s
  unfolding poll_jobs take_fault
  poll_jobs_serves b f =
      let same : record s { jobs = record s.jobs { pending_fault = none } } ≡ s =
        ap (λ fault. record s { jobs = record s.jobs { pending_fault = fault } }) (sym f) in
      let taken : poll_jobs settings body gateway_id draws s
          ≡ serve settings body gateway_id draws
              (record s { jobs = record s.jobs { pending_fault = none } }) =
        rw (b, f) refl in
      taken ∙ ap (serve settings body gateway_id draws) same

  -- Nothing keeps jobs from the gateway: no configuration that disables it, and no health, as it
  -- is at the time of the poll, that holds them back.
  abbrev pub IsServed : Type 0
  IsServed =
      ((config : GatewayOperationalConfig)
        → lookup gateway_id s.configs ≡ some config
        → config.accept_new_jobs ≡ true)
      × ((status : GatewayStatus)
          → lookup gateway_id s.health ≡ some status
          → (h : HealthState) × (derive_current_status settings.thresholds draws.now status ≡ ok h)
            × (is_held h ≡ false))

  accepting :
      is_disabled (lookup gateway_id s.configs) ≡ false
      → (config : GatewayOperationalConfig) → lookup gateway_id s.configs ≡ some config
      → config.accept_new_jobs ≡ true
  accepting on config e = let on' = rw e at on in ground arith

  not_held :
      holds settings draws.now (lookup gateway_id s.health) ≡ ok false
      → (status : GatewayStatus) → lookup gateway_id s.health ≡ some status
      → (h : HealthState) × (derive_current_status settings.thresholds draws.now status ≡ ok h)
        × (is_held h ≡ false)
  unfolding holds
  not_held free status e =
      let free' = rw e at free in
      elim (Result-cases (derive_current_status settings.thresholds draws.now status)) [
        | inr (x, c) ↦ cc (rw (holds, c) at free')
        | inl (h, c) ↦ (h, c, cc (rw (holds, c) at free'))
      ]

  serve_gated : ((serve settings body gateway_id draws s).1 ≡ s) ⊎ IsServed
  unfolding serve Health.get
  serve_gated = elim (Bool-cases (is_disabled (lookup gateway_id s.configs))) [
    | inl d ↦ inl (rw d refl)
    | inr on ↦ elim (Result-cases (holds settings draws.now (lookup gateway_id s.health))) [
      | inr (x, c) ↦ inl (rw (on, c) refl)
      | inl (true, c) ↦ inl (rw (on, c) refl)
      | inl (false, c) ↦ inr (accepting on, not_held c)
    ]
  ]

  naive-serve :
      (now last : ℕ) (status : GatewayStatus)
      → is_disabled (lookup gateway_id s.configs) ≡ false
      → lookup gateway_id s.health ≡ some status
      → reports_failed status.last_reported_status ≡ false
      → status.last_heartbeat_at ≡ naive last
      → draws.now ≡ aware now
      → serve settings body gateway_id draws s ≡ (err type_error, s)
  unfolding serve Health.get holds
  naive-serve now last status d h r n t =
      let raised : holds settings draws.now (some status) ≡ err type_error =
        rw t (rw (derive_naive settings.thresholds status now last r n, holds) refl) in
      rw (d, h) (rw raised refl)

  own_name :
      (bound : String)
      → bind_gateway_id body.gateway_id gateway_id ≡ ok bound
      → bind_gateway_id body.gateway_id gateway_id ≡ ok gateway_id
  unfolding bind_gateway_id
  own_name bound b = ground arith

  -- A poll reserves jobs only for a gateway that may have them. Unless it leaves the jobs as they
  -- were, it comes in the name of the gateway that authenticated or in none, no fault was injected,
  -- the gateway's configuration, if it has one, accepts new jobs, and its health, if it sent a
  -- heartbeat, is at the time of the poll derived as one that does not hold jobs back.
  pub poll_jobs_gated :
      ((poll_jobs settings body gateway_id draws s).1.jobs.jobs ≡ s.jobs.jobs)
      ⊎ ((bind_gateway_id body.gateway_id gateway_id ≡ ok gateway_id)
          × (s.jobs.pending_fault ≡ none)
          × IsServed)
  unfolding poll_jobs take_fault
  poll_jobs_gated = elim (Result-cases (bind_gateway_id body.gateway_id gateway_id)) [
    | inr (e, b) ↦ inl (rw b refl)
    | inl (bound, b) ↦ elim (Option-cases s.jobs.pending_fault) [
      | inr (fault, f) ↦ inl (rw (b, f) refl)
      | inl f ↦
          let own = own_name bound b in
          elim serve_gated [
            | inl same ↦ inl (rw (poll_jobs_serves own f) (ap (λ x. x.jobs.jobs) same))
            | inr served ↦ inr (own, f, served)
          ]
    ]
  ]

  -- A poll in another gateway's name is forbidden and changes nothing.
  pub poll_jobs_forbidden :
      (other : String)
      → body.gateway_id ≡ some other
      → other ≢ gateway_id
      → poll_jobs settings body gateway_id draws s ≡ (err forbidden, s)
  unfolding poll_jobs bind_gateway_id
  poll_jobs_forbidden other e h = elim (Bool-cases (other == gateway_id)) [
    | inr miss ↦ rw e (rw miss refl)
    | inl hit ↦ absurd (h ((string_eq.eqb_iff other gateway_id).0 hit))
  ]

  -- A gateway whose last heartbeat has a naive time and reports no failure is stuck: at an aware
  -- time each of its polls fails with a type error, and it gets no job until its next heartbeat.
  pub poll_jobs-naive :
      (now last : ℕ) (status : GatewayStatus)
      → bind_gateway_id body.gateway_id gateway_id ≡ ok gateway_id
      → s.jobs.pending_fault ≡ none
      → is_disabled (lookup gateway_id s.configs) ≡ false
      → lookup gateway_id s.health ≡ some status
      → reports_failed status.last_reported_status ≡ false
      → status.last_heartbeat_at ≡ naive last
      → draws.now ≡ aware now
      → poll_jobs settings body gateway_id draws s ≡ (err type_error, s)
  poll_jobs-naive now last status b f d h r n t =
      poll_jobs_serves b f ∙ naive-serve now last status d h r n t
