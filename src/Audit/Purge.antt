-- ===== src/Audit/Purge.antt =====
-- A purge (`purge_expired` of src/saas_job_api/audit_store_memory.py) is bounded, and keeps what is
-- not out of date.
use mathlib.Core.Path.{ap, subst}
use saas_job_api.Prelude.{
  ◌⊎◌, ℕ, ◌≤◌, String, ◌≡◌, refl, inl, inr, true, false, List, [], ◌∷◌, arith, string_eq, ◌==◌,
  Bool-cases, contains, length, take, All, All-take, length-take-le, ltb,
}
use saas_job_api.Result.{ok, bind_inv, Result-cases}
use saas_job_api.Time.{DateTime, is_before}
use saas_job_api.Sorting.{filter, sort}
use saas_job_api.Sorting.Order.{All-sort, All-filter, filter_passes}
use saas_job_api.Dict.Laws.{contains-add}
use saas_job_api.Audit.{AuditEvent, ids, older, with_ids, without_ids, expired_ids, purge_expired}

length-ids-le : (es : List AuditEvent) → length (ids es) ≤ length es
unfolding ids
length-ids-le [] = omega arith
length-ids-le (e ∷ es) = ground (arith, length-ids-le es)

-- No event of the list has the id.
abbrev Lacks : String → List AuditEvent → Type 0
Lacks i es = All (λ (e : AuditEvent). e.event_id ≡ i → ⊥) es

lacking : (i : String) (es : List AuditEvent) → Lacks i es → contains i (ids es) ≡ false
unfolding ids contains
lacking i [] h = refl
lacking i (e ∷ es) (other, h) = elim (Bool-cases (e.event_id == i)) [
  | inl hit ↦ absurd (other ((string_eq.eqb_iff e.event_id i).0 hit))
  | inr miss ↦ rw (contains-add e.event_id i (ids es), miss) (lacking i es h)
]

-- The events of a list that has only events with some ids lack all other ids.
other_ids :
    (i : String) (wanted : List String) (es : List AuditEvent)
    → contains i wanted ≡ false
    → All (λ (e : AuditEvent). contains e.event_id wanted ≡ true) es
    → Lacks i es
other_ids i wanted [] none_has h = tt
other_ids i wanted (e ∷ es) none_has (known, h) =
    (λ same. cc (ap (λ k. contains k wanted) same), other_ids i wanted es none_has h)

with_ids-known :
    (wanted : List String) (es : List AuditEvent)
    → All (λ (e : AuditEvent). contains e.event_id wanted ≡ true) (with_ids wanted es)
unfolding with_ids
with_ids-known wanted [] = tt
with_ids-known wanted (e ∷ es) = elim (Bool-cases (contains e.event_id wanted)) [
  | inl known ↦ rw known (known, with_ids-known wanted es)
  | inr other ↦ rw other (with_ids-known wanted es)
]

-- Removing other ids keeps the events with the id.
with_ids-without_ids :
    (i : String) (unwanted : List String) (es : List AuditEvent)
    → contains i unwanted ≡ false
    → with_ids (i ∷ []) (without_ids unwanted es) ≡ with_ids (i ∷ []) es
unfolding with_ids without_ids contains
with_ids-without_ids i unwanted [] none_has = refl
with_ids-without_ids i unwanted (e ∷ es) none_has =
    let rest = with_ids-without_ids i unwanted es none_has in
    elim (Bool-cases (i == e.event_id)) [
      | inl hit ↦
          let same : i ≡ e.event_id = (string_eq.eqb_iff i e.event_id).0 hit in
          let kept : contains e.event_id unwanted ≡ false =
            subst (λ k. contains k unwanted ≡ false) same none_has in
          rw (kept, hit) (ap (λ r. e ∷ r) rest)
      | inr miss ↦ elim (Bool-cases (contains e.event_id unwanted)) [
        | inl dropped ↦ rw (dropped, miss) rest
        | inr kept ↦ rw (kept, miss) rest
      ]
    ]

module _ (before : DateTime) (i : String) where
  neither :
      (es : List AuditEvent)
      → All (λ (e : AuditEvent). e.event_id ≡ i → is_before e.occurred_at before ≡ ok false) es
      → All (λ (e : AuditEvent). is_before e.occurred_at before ≡ ok true) es
      → Lacks i es
  neither [] young old = tt
  neither (e ∷ es) (young, h) (old, k) = (λ same. cc (young same), neither es h k)

module _ (before : DateTime) (limit : ℕ) (events : List AuditEvent) where
  expired_ids_inv :
      {wanted : List String}
      → expired_ids before limit events ≡ ok wanted
      → (found : List AuditEvent) × (filter (λ e. is_before e.occurred_at before) events ≡ ok found)
        × (((wanted ≡ ids found) × (length (ids found) ≤ limit))
            ⊎ ((oldest : List AuditEvent) × (sort older (with_ids (ids found) events) ≡ ok oldest)
                × (wanted ≡ ids (take limit oldest))))
  unfolding expired_ids
  expired_ids_inv h =
      let (found, f, h') = bind_inv (filter (λ e. is_before e.occurred_at before) events) _ h in
      (
        found,
        f,
        elim (Bool-cases (ltb limit (length (ids found)))) [
          | inr few ↦ inl (cc (rw few at h'), ground arith)
          | inl many ↦
              let (oldest, o, z) =
                bind_inv (sort older (with_ids (ids found) events)) _ (rw many at h') in
              inr (oldest, o, cc z)
        ],
      )

  length-expired_ids-le :
      {wanted : List String} → expired_ids before limit events ≡ ok wanted → length wanted ≤ limit
  length-expired_ids-le h =
      let (found, f, way) = expired_ids_inv h in
      elim way [
        | inl (same, few) ↦ rw same few
        | inr (oldest, o, same) ↦
            rw same (omega (arith, length-ids-le (take limit oldest), length-take-le limit oldest))
      ]

  expired_ids-lack :
      (i : String) {wanted : List String}
      → expired_ids before limit events ≡ ok wanted
      → All (λ (e : AuditEvent). e.event_id ≡ i → is_before e.occurred_at before ≡ ok false) events
      → contains i wanted ≡ false
  expired_ids-lack i h kept =
      let (found, f, way) = expired_ids_inv h in
      let young =
        All-filter (λ (e : AuditEvent). e.event_id ≡ i → is_before e.occurred_at before ≡ ok false)
          (λ e. is_before e.occurred_at before) events f kept in
      let old = filter_passes (λ (e : AuditEvent). is_before e.occurred_at before) events f in
      let lacks : contains i (ids found) ≡ false =
        lacking i found (neither before i found young old) in
      elim way [
        | inl (same, few) ↦ rw same lacks
        | inr (oldest, o, same) ↦
            let known =
              All-sort (λ (e : AuditEvent). contains e.event_id (ids found) ≡ true) older
                (with_ids (ids found) events) o (with_ids-known (ids found) events) in
            rw same (
              lacking i (take limit oldest) (
                other_ids i (ids found) (take limit oldest) lacks (
                  All-take (λ (e : AuditEvent). contains e.event_id (ids found) ≡ true) limit oldest
                    known)))
      ]

  pub purge_expired_le : (n : ℕ) → (purge_expired before limit events).0 ≡ ok n → n ≤ limit
  unfolding purge_expired
  purge_expired_le n h = elim (Result-cases (expired_ids before limit events)) [
    | inr (e, c) ↦ cc (rw (c, purge_expired) at h)
    | inl ([], c) ↦ let none_old : 0 ≡ n = cc (rw (c, purge_expired) at h) in omega arith
    | inl (i ∷ more, c) ↦
        let count : length (i ∷ more) ≡ n = cc (rw (c, purge_expired) at h) in
        omega (arith, length-expired_ids-le c)
  ]

  pub purge_expired_keeps :
      (i : String)
      → All (λ (e : AuditEvent). e.event_id ≡ i → is_before e.occurred_at before ≡ ok false) events
      → with_ids (i ∷ []) (purge_expired before limit events).1 ≡ with_ids (i ∷ []) events
  unfolding purge_expired
  purge_expired_keeps i kept = elim (Result-cases (expired_ids before limit events)) [
    | inr (e, c) ↦ rw (c, purge_expired) refl
    | inl ([], c) ↦ rw (c, purge_expired) refl
    | inl (j ∷ more, c) ↦
        rw (c, purge_expired) (with_ids-without_ids i (j ∷ more) events (expired_ids-lack i c kept))
  ]
