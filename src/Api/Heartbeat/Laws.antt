-- ===== src/Api/Heartbeat/Laws.antt =====
-- What a heartbeat leaves in the store, also when it is answered by an error.
use saas_job_api.Prelude.{String, ◌≡◌, inl, inr, some, string_eq, beq_refl}
use saas_job_api.Result.{Result-cases, ok}
use saas_job_api.Time.{DateTime}
use saas_job_api.Dict.{lookup, put}
use saas_job_api.Dict.Laws.{lookup-put}
use saas_job_api.Health.{HealthState, derive_current_status, upsert, get}
use saas_job_api.Api.{App, Settings, bind_gateway_id}
use saas_job_api.Api.Heartbeat.{HeartbeatRequest, receive_heartbeat, parse_health, new_status}

-- A heartbeat in its own name and with a known status is stored, before its health is derived.
pub receive_heartbeat_stores :
    (settings : Settings) (body : HeartbeatRequest) (gateway_id : String) (now : DateTime) (s : App)
    (h : HealthState)
    → bind_gateway_id body.gateway_id gateway_id ≡ ok gateway_id
    → parse_health body.status ≡ ok h
    → lookup gateway_id (receive_heartbeat settings body gateway_id now s).1.health
      ≡ some (new_status gateway_id body h (lookup gateway_id s.health))
unfolding receive_heartbeat get upsert
receive_heartbeat_stores settings body gateway_id now s h b p =
    let status = new_status gateway_id body h (lookup gateway_id s.health) in
    let stored : lookup gateway_id (put gateway_id status s.health) ≡ some status =
      rw lookup-put (rw (beq_refl {A = String} gateway_id)) in
    rw (b, p)
      (elim (Result-cases (derive_current_status settings.thresholds now status)) [
        | inl (a, c) ↦ rw c stored
        | inr (e, c) ↦ rw c stored
      ])
