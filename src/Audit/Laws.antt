-- ===== src/Audit/Laws.antt =====
-- The log shows a tenant's events newest first.
use saas_job_api.Prelude.{
  ◌≤◌, String, ◌≡◌, ◌≢◌, inl, inr, true, false, Option, List, [], ◌∷◌, arith, string_eq, ◌==◌,
  Bool-cases, contains, length, take, All, All-take, length-take-le,
}
use saas_job_api.Prelude.Int.{ℤ, pos_part}
use saas_job_api.Result.{ok, bind_inv}
use saas_job_api.Sorting.{filter, sort}
use saas_job_api.Sorting.Order.{
  All-sort, All-weaken, filter_passes, Pairwise, Pairwise-sort, Pairwise-take,
}
use saas_job_api.Dict.Laws.{contains-add}
use saas_job_api.Audit.{AuditEvent, newer, is_visible, list_recent, ids}

newer-le : (a b : AuditEvent) → newer a b ≡ ok true → b.occurred_at.micros ≤ a.occurred_at.micros
unfolding newer
newer-le a b h = ground arith

not-newer-le :
    (a b : AuditEvent) → newer a b ≡ ok false → a.occurred_at.micros ≤ b.occurred_at.micros
unfolding newer
not-newer-le a b h = ground arith

-- A list of recent events has only those that the tenant's filter lets through, is not longer than
-- the limit, and has the latest first.
pub list_recent_visible :
    (tenant_id : Option String) (limit : ℤ) (events es : List AuditEvent)
    → (list_recent tenant_id limit events).0 ≡ ok es
    → All (λ e. is_visible tenant_id e ≡ true) es
      × (length es ≤ pos_part limit)
      × Pairwise (λ a b. b.occurred_at.micros ≤ a.occurred_at.micros) es
unfolding list_recent
list_recent_visible tenant_id limit events es h =
    let (found, f, h') = bind_inv (filter (λ e. ok (is_visible tenant_id e)) events) _ h in
    let (sorted, o, h'') = bind_inv (sort newer found) _ h' in
    let cut : es ≡ take (pos_part limit) sorted = cc in
    let seen : All (λ e. is_visible tenant_id e ≡ true) sorted =
      All-sort (λ e. is_visible tenant_id e ≡ true) newer found o
        (All-weaken (λ e. ok (is_visible tenant_id e) ≡ ok true)
          (λ e. is_visible tenant_id e ≡ true) (λ e p. cc) found
          (filter_passes (λ e. ok (is_visible tenant_id e)) events f)) in
    let latest =
      Pairwise-sort (λ (a b : AuditEvent). b.occurred_at.micros ≤ a.occurred_at.micros) newer
        (λ a b c h k. omega arith) newer-le not-newer-le found o in
    rw cut (
      All-take (λ e. is_visible tenant_id e ≡ true) (pos_part limit) sorted seen,
      length-take-le (pos_part limit) sorted,
      Pairwise-take _ (pos_part limit) sorted latest,
    )

-- The events whose id is `i`, and only those, are counted by the set of ids.
contains-ids :
    (i : String) (es : List AuditEvent)
    → contains i (ids es) ≡ true
    → ¬ All (λ e. e.event_id ≢ i) es
unfolding ids contains
contains-ids i [] h all = cc
contains-ids i (e ∷ es) h all = elim (Bool-cases (e.event_id == i)) [
  | inl hit ↦ all.0 ((string_eq.eqb_iff e.event_id i).0 hit)
  | inr miss ↦ contains-ids i es (rw (contains-add, miss) at h) all.1
]

length-ids-le : (es : List AuditEvent) → length (ids es) ≤ length es
unfolding ids
length-ids-le [] = omega arith
length-ids-le (e ∷ es) = ground (arith, length-ids-le es)
