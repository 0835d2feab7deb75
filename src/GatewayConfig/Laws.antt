-- ===== src/GatewayConfig/Laws.antt =====
-- What saving a configuration does to its version, and what a failed audit leaves.
use saas_job_api.Prelude.{
  ◌+◌, ◌≤◌, String, ◌≡◌, ◌≢◌, refl, inl, inr, true, Option, none, some, [], ◌∷◌, arith, string_eq,
  ◌==◌, Bool-cases, beq_refl,
}
use saas_job_api.Result.{Error, Result, ok, err}
use saas_job_api.Dict.{lookup, put, remove}
use saas_job_api.Dict.Laws.{lookup-put}
use mathlib.Core.Path.{subst}
use saas_job_api.Audit.{AuditEvent}
use saas_job_api.GatewayConfig.{
  logged, save_over, GatewayOperationalConfig, MemoryGatewayOperationalConfigStore, AuditSink,
  Saving, Saved, save_with_previous, is_unchanged, next_config, version_of, tenant_mismatch,
  replace, restore,
}

-- Taking an assignment to a new key back restores the store.
remove-put :
    (k : String) (v : GatewayOperationalConfig) (d : MemoryGatewayOperationalConfigStore)
    → lookup k d ≡ none
    → remove k (put k v d) ≡ d
unfolding lookup put remove
remove-put k v [] h = rw (beq_refl {A = String} k)
remove-put k v ((j, w) ∷ d) h = elim (Bool-cases (j == k)) [
  | inl hit ↦ cc (rw hit at h)
  | inr miss ↦ rw miss (rw miss (rw (remove-put k v d (rw miss at h))))
]

-- So does assigning the previous value again.
put-put :
    (k : String) (v w : GatewayOperationalConfig) (d : MemoryGatewayOperationalConfigStore)
    → lookup k d ≡ some w
    → put k w (put k v d) ≡ d
unfolding lookup put
put-put k v w [] h = cc
put-put k v w ((j, u) ∷ d) h = elim (Bool-cases (j == k)) [
  | inl hit ↦ rw hit (rw hit (cc (rw hit at h)))
  | inr miss ↦ rw miss (rw miss (rw (put-put k v w d (rw miss at h))))
]

-- What a failed audit event restores is the store as it was.
pub restore-put :
    (k : String) (previous : Option GatewayOperationalConfig) (v : GatewayOperationalConfig)
    (d : MemoryGatewayOperationalConfigStore)
    → lookup k d ≡ previous
    → restore k previous (put k v d) ≡ d
restore-put k none v d h = remove-put k v d h
restore-put k (some w) v d h = put-put k v w d h

next_config-is_unchanged :
    (r : Saving) (previous : Option GatewayOperationalConfig)
    → is_unchanged r (next_config r previous) ≡ true
unfolding is_unchanged next_config
next_config-is_unchanged r previous = ground arith

module _ {S : Type 0} (r : Saving) (configs : MemoryGatewayOperationalConfigStore) where
  failed_log :
      (previous : Option GatewayOperationalConfig) (ran : Result AuditEvent × S) (e : Error)
      → lookup r.gateway_id configs ≡ previous
      → (logged r previous configs ran).0 ≡ err e
      → (logged r previous configs ran).1.0 ≡ configs
  failed_log none (ok a, log) e h f = cc
  failed_log none (err x, log) e h f = remove-put r.gateway_id (next_config r none) configs h
  failed_log (some p) (ok a, log) e h f = cc
  failed_log (some p) (err x, log) e h f = put-put r.gateway_id (next_config r (some p)) p configs h

  failed_replace :
      (sink : Option (AuditSink S)) (previous : Option GatewayOperationalConfig) (log : S)
      (e : Error)
      → lookup r.gateway_id configs ≡ previous
      → (replace sink r previous (configs, log)).0 ≡ err e
      → (replace sink r previous (configs, log)).1.0 ≡ configs
  unfolding replace
  failed_replace none previous log e h f = cc
  failed_replace (some sink) previous log e h f =
      failed_log previous (sink.append (sink.event previous (next_config r previous)) log) e h f

  failed_save :
      (sink : Option (AuditSink S)) (previous : Option GatewayOperationalConfig) (log : S)
      (e : Error)
      → lookup r.gateway_id configs ≡ previous
      → (save_over sink r previous (configs, log)).0 ≡ err e
      → (save_over sink r previous (configs, log)).1.0 ≡ configs
  failed_save sink none log e h f = failed_replace sink none log e h f
  failed_save sink (some p) log e h f = elim (Bool-cases (p.tenant_id == r.tenant_id)) [
    | inr other ↦ rw other refl
    | inl own ↦ elim (Bool-cases (is_unchanged r p)) [
      | inl same ↦ rw (own, same) refl
      | inr changed ↦
          rw (own, changed) (failed_replace sink (some p) log e h (rw (own, changed) at f))
    ]
  ]

  -- What a saving that returns says: the previous configuration, and the one that is stored now.
  abbrev pub IsSaved :
      Option GatewayOperationalConfig
      → Result Saved × (MemoryGatewayOperationalConfigStore × S)
      → Saved
      → Type 0
  IsSaved previous ran saved =
      (saved.0 ≡ previous)
      × (lookup r.gateway_id ran.1.0 ≡ some saved.1)
      × (is_unchanged r saved.1 ≡ true)
      × (version_of previous ≤ saved.1.config_version)
      × (saved.1.config_version ≤ version_of previous + 1)

  IsSaved-put :
      (previous : Option GatewayOperationalConfig) (log : S)
      → IsSaved previous
          (
            ok (previous, next_config r previous),
            (put r.gateway_id (next_config r previous) configs, log),
          )
          (previous, next_config r previous)
  unfolding next_config
  IsSaved-put previous log = (
    refl,
    rw lookup-put (rw (beq_refl {A = String} r.gateway_id)),
    next_config-is_unchanged r previous,
    omega arith,
    omega arith,
  )

  logged-IsSaved :
      (previous : Option GatewayOperationalConfig) (ran : Result AuditEvent × S) (saved : Saved)
      → (logged r previous configs ran).0 ≡ ok saved
      → IsSaved previous (logged r previous configs ran) saved
  logged-IsSaved previous (ok a, log) saved f =
      let same : (previous, next_config r previous) ≡ saved = cc in
      subst (IsSaved previous (logged r previous configs (ok a, log))) same
        (IsSaved-put previous log)
  logged-IsSaved previous (err x, log) saved f = cc

  replace-IsSaved :
      (sink : Option (AuditSink S)) (previous : Option GatewayOperationalConfig) (log : S)
      (saved : Saved)
      → (replace sink r previous (configs, log)).0 ≡ ok saved
      → IsSaved previous (replace sink r previous (configs, log)) saved
  unfolding replace
  replace-IsSaved none previous log saved f =
      let same : (previous, next_config r previous) ≡ saved = cc in
      subst (IsSaved previous (replace {S = S} none r previous (configs, log))) same
        (IsSaved-put previous log)
  replace-IsSaved (some sink) previous log saved f =
      logged-IsSaved previous (sink.append (sink.event previous (next_config r previous)) log) saved
        f

  save_over-IsSaved :
      (sink : Option (AuditSink S)) (previous : Option GatewayOperationalConfig) (log : S)
      (saved : Saved)
      → lookup r.gateway_id configs ≡ previous
      → (save_over sink r previous (configs, log)).0 ≡ ok saved
      → IsSaved previous (save_over sink r previous (configs, log)) saved
  save_over-IsSaved sink none log saved h f = replace-IsSaved sink none log saved f
  save_over-IsSaved sink (some p) log saved h f = elim (Bool-cases (p.tenant_id == r.tenant_id)) [
    | inr other ↦ cc
    | inl own ↦ elim (Bool-cases (is_unchanged r p)) [
      | inr changed ↦
          rw (own, changed) (replace-IsSaved sink (some p) log saved (rw (own, changed) at f))
      | inl same ↦
          let kept : (some p, p) ≡ saved = cc (rw (own, same) at f) in
          rw (own, same)
            (subst (λ (v : Saved). IsSaved (some p) (ok v, (configs, log)) v) kept
              (refl, h, same, omega arith, omega arith))
    ]
  ]

module _ {S : Type 0} (sink : Option (AuditSink S)) (r : Saving)
    (configs : MemoryGatewayOperationalConfigStore) (log : S) where
  -- A saving that fails, also because its event could not be logged, leaves the configurations as
  -- they were.
  pub save_failed :
      (e : Error)
      → (save_with_previous sink r (configs, log)).0 ≡ err e
      → (save_with_previous sink r (configs, log)).1.0 ≡ configs
  unfolding save_with_previous
  save_failed e f = failed_save r configs sink (lookup r.gateway_id configs) log e refl f

  -- A saving that returns answers the configuration that stood and the one that stands now, which
  -- has the values asked for and the same version as the previous one or the next.
  pub save_versions :
      (saved : Saved)
      → (save_with_previous sink r (configs, log)).0 ≡ ok saved
      → IsSaved r configs
          (lookup r.gateway_id configs)
          (save_with_previous sink r (configs, log))
          saved
  unfolding save_with_previous
  save_versions saved f =
      save_over-IsSaved r configs sink (lookup r.gateway_id configs) log saved refl f

  -- A gateway of another tenant is refused and nothing changes, the log included.
  pub save_mismatch :
      (p : GatewayOperationalConfig)
      → lookup r.gateway_id configs ≡ some p
      → p.tenant_id ≢ r.tenant_id
      → save_with_previous sink r (configs, log)
        ≡ (err (tenant_mismatch r.gateway_id), (configs, log))
  unfolding save_with_previous
  save_mismatch p h other = elim (Bool-cases (p.tenant_id == r.tenant_id)) [
    | inr miss ↦ rw (h, miss) refl
    | inl hit ↦ absurd (other ((string_eq.eqb_iff p.tenant_id r.tenant_id).0 hit))
  ]
