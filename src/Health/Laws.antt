-- ===== src/Health/Laws.antt =====
-- How the derived health moves with time.
use saas_job_api.Prelude.{ℕ, ◌+◌, ◌≤◌, ◌<◌, ◌≡◌, ◌↔◌, false, arith}
use saas_job_api.Result.{ok, err, type_error}
use saas_job_api.Time.{aware, naive, elapsed_lt}
use saas_job_api.Health.{
  HealthState, healthy, degraded, unreachable, failed, GatewayStatus, Thresholds,
  derive_current_status, reports_failed,
}

-- How bad a state is.
abbrev pub severity : HealthState → ℕ
severity healthy = 0
severity degraded = 1
severity unreachable = 2
severity failed = 3

module _ (t : Thresholds) (status : GatewayStatus) where
  -- Without a new heartbeat the health never improves, whatever the thresholds are.
  pub derive_worsens :
      (now then' : ℕ) (h h' : HealthState)
      → now ≤ then'
      → derive_current_status t (aware now) status ≡ ok h
      → derive_current_status t (aware then') status ≡ ok h'
      → severity h ≤ severity h'
  unfolding derive_current_status elapsed_lt
  derive_worsens now then' h h' le e e' = ground arith

  -- A gateway that has been silent for all three periods is failed, whatever it reported.
  pub derive_silent :
      (now last : ℕ)
      → status.last_heartbeat_at ≡ aware last
      → last + t.degraded_after ≤ now
      → last + t.unreachable_after ≤ now
      → last + t.failed_after ≤ now
      → derive_current_status t (aware now) status ≡ ok failed
  unfolding derive_current_status elapsed_lt
  derive_silent now last e d u f = ground arith

  -- A gateway that has not reported a failure is healthy exactly if less than the first period has
  -- passed since its heartbeat.
  pub derive_healthy_iff :
      (now last : ℕ)
      → reports_failed status.last_reported_status ≡ false
      → status.last_heartbeat_at ≡ aware last
      → (derive_current_status t (aware now) status ≡ ok healthy) ↔ (now < last + t.degraded_after)
  unfolding derive_current_status elapsed_lt
  derive_healthy_iff now last r e = ground arith

  -- A heartbeat with a naive time, which reports no failure, leaves no health to derive: at every
  -- aware time there is a type error.
  pub derive_naive :
      (now last : ℕ)
      → reports_failed status.last_reported_status ≡ false
      → status.last_heartbeat_at ≡ naive last
      → derive_current_status t (aware now) status ≡ err type_error
  unfolding derive_current_status elapsed_lt
  derive_naive now last r e = ground arith
