-- ===== src/Inventory/Laws.antt =====
-- A result is stored once for an attempt, and a tenant sees only its own certificates.
use mathlib.Core.Path.{ap}
use saas_job_api.Prelude.{
  ℕ, suc, ◌≤◌, String, ◌≡◌, refl, inl, inr, true, false, none, some, List, [], ◌∷◌, arith,
  string_eq, pair_eq, Option-cases, Bool-cases, ◌==◌, beq_refl, option_beq, option_beq_iff, length,
  take, All, length-take-le, All-take,
}
use saas_job_api.Prelude.Int.{ℤ, pos_part}
use saas_job_api.Result.{ok, bind_inv}
use saas_job_api.Sorting.{filter, sort}
use saas_job_api.Sorting.Order.{
  All-sort, filter_passes, Pairwise, Pairwise-sort, Pairwise-take, All-weaken,
}
use saas_job_api.Dict.{lookup, values}
use saas_job_api.Dict.Laws.{lookup-put}
use saas_job_api.Inventory.{
  CertificateRecord, SubmitResultOutcome, MemoryInventoryStore, Submission, Certificate, build,
  submit_result, newest_first, list_by_tenant,
}

-- After a submission its marker holds the count that was answered.
pub submit_result_marks :
    (new_id : ℕ → String) (r : Submission) (s : MemoryInventoryStore) (first : SubmitResultOutcome)
    → (submit_result new_id r s).0 ≡ ok first
    → lookup (r.job_id, r.attempt_token) (submit_result new_id r s).1.markers
      ≡ some first.record_count
unfolding submit_result
submit_result_marks new_id r s first h =
    elim (Option-cases (lookup (r.job_id, r.attempt_token) s.markers)) [
      | inl e ↦ rw e (
          rw lookup-put
            (rw (beq_refl {A = String × String} (r.job_id, r.attempt_token)) (cc (rw e at h))))
      | inr (n, e) ↦ rw e (rw e (cc (rw e at h)))
    ]

-- A marker stays.
pub submit_result_keeps_marker :
    (new_id : ℕ → String) (r : Submission) (s : MemoryInventoryStore) (key : String × String)
    (n : ℕ)
    → lookup key s.markers ≡ some n
    → lookup key (submit_result new_id r s).1.markers ≡ some n
unfolding submit_result
submit_result_keeps_marker new_id r s key n h =
    elim (Option-cases (lookup (r.job_id, r.attempt_token) s.markers)) [
      | inr (m, e) ↦ rw e h
      | inl e ↦ rw e (
          rw lookup-put (elim (Bool-cases ((r.job_id, r.attempt_token) == key)) [
            | inr miss ↦ rw miss h
            | inl hit ↦
                let same : (r.job_id, r.attempt_token) ≡ key =
                  (pair_eq.eqb_iff (r.job_id, r.attempt_token) key).0 hit in
                cc
          ]))
    ]

pub submit_result_again :
    (new_id : ℕ → String) (r : Submission) (s : MemoryInventoryStore) (n : ℕ)
    → lookup (r.job_id, r.attempt_token) s.markers ≡ some n
    → submit_result new_id r s
      ≡ (ok (record { accepted = true; dedupe = true; record_count = n; records = [] }), s)
unfolding submit_result
submit_result_again new_id r s n e = rw e

newest_first-le :
    (a b : CertificateRecord)
    → newest_first a b ≡ ok true
    → b.received_at.micros ≤ a.received_at.micros
unfolding newest_first
newest_first-le a b h = ground arith

not-newest_first-le :
    (a b : CertificateRecord)
    → newest_first a b ≡ ok false
    → a.received_at.micros ≤ b.received_at.micros
unfolding newest_first
not-newest_first-le a b h = ground arith

-- A submission always returns.
pub submit_result_total :
    (new_id : ℕ → String) (r : Submission) (s : MemoryInventoryStore)
    → (first : SubmitResultOutcome) × ((submit_result new_id r s).0 ≡ ok first)
unfolding submit_result
submit_result_total new_id r s =
    elim (Option-cases (lookup (r.job_id, r.attempt_token) s.markers)) [
      | inl e ↦
          let n = length (build new_id r r.certificates) in
          (
            record {
              accepted = true;
              dedupe = false;
              record_count = n;
              records = build new_id r r.certificates;
            },
            rw e,
          )
      | inr (n, e) ↦
          (record { accepted = true; dedupe = true; record_count = n; records = [] }, rw e)
    ]

-- A result is stored once. After a submission, another for the same job and attempt, whatever it
-- holds, is answered as a duplicate with the first one's count, and changes nothing.
pub submit_result_once :
    (new_id new_id' : ℕ → String) (r r' : Submission) (s : MemoryInventoryStore)
    (first : SubmitResultOutcome)
    → r'.job_id ≡ r.job_id
    → r'.attempt_token ≡ r.attempt_token
    → (submit_result new_id r s).0 ≡ ok first
    → submit_result new_id' r' (submit_result new_id r s).1 ≡ (
      ok (record {
        accepted = true;
        dedupe = true;
        record_count = first.record_count;
        records = [];
      }),
      (submit_result new_id r s).1,
    )
submit_result_once new_id new_id' r r' s first j a h =
    let marked : lookup (r'.job_id, r'.attempt_token) (submit_result new_id r s).1.markers
        ≡ some first.record_count =
      rw (j, a) (submit_result_marks new_id r s first h) in
    submit_result_again new_id' r' (submit_result new_id r s).1 first.record_count marked

-- The records of a submission that is not a duplicate: one for each certificate, in order, under
-- the job, the attempt and the tenant of the submission.
pub build_records :
    (new_id : ℕ → String) (r : Submission) (cs : List Certificate)
    → (length (build new_id r cs) ≡ length cs)
      × All (λ c. (c.tenant_id ≡ r.tenant_id) × (c.job_id ≡ r.job_id)) (build new_id r cs)
unfolding build
build_records new_id r [] = (refl, tt)
build_records new_id r (c ∷ cs) =
    let (same, all) = build_records (λ i. new_id (suc i)) r cs in (omega arith, ((refl, refl), all))

-- A first submission stores one record for each certificate, all under the job and the tenant of
-- the submission, answers their number, and marks the job and the attempt.
pub submit_result_first :
    (new_id : ℕ → String) (r : Submission) (s : MemoryInventoryStore)
    → lookup (r.job_id, r.attempt_token) s.markers ≡ none
    → (answer : SubmitResultOutcome) × ((submit_result new_id r s).0 ≡ ok answer)
      × (answer.dedupe ≡ false)
      × (answer.record_count ≡ length r.certificates)
      × All (λ c. (c.tenant_id ≡ r.tenant_id) × (c.job_id ≡ r.job_id)) answer.records
      × (lookup (r.job_id, r.attempt_token) (submit_result new_id r s).1.markers
          ≡ some (length r.certificates))
unfolding submit_result
submit_result_first new_id r s e =
    let (count, all) = build_records new_id r r.certificates in
    let answer : SubmitResultOutcome = record {
      accepted = true;
      dedupe = false;
      record_count = length (build new_id r r.certificates);
      records = build new_id r r.certificates;
    } in
    (
      answer,
      rw e,
      refl,
      count,
      all,
      rw e (
          rw lookup-put
            (rw (beq_refl {A = String × String} (r.job_id, r.attempt_token)) (ap some count))),
    )

-- A list of certificates for a tenant has none of another tenant's, is not longer than the limit,
-- and has the most recently received first.
pub list_by_tenant_own :
    (tenant_id : String) (limit : ℤ) (s : MemoryInventoryStore) (cs : List CertificateRecord)
    → (list_by_tenant tenant_id limit s).0 ≡ ok cs
    → All (λ c. c.tenant_id ≡ some tenant_id) cs
      × (length cs ≤ pos_part limit)
      × Pairwise (λ a b. b.received_at.micros ≤ a.received_at.micros) cs
unfolding list_by_tenant
list_by_tenant_own tenant_id limit s cs h =
    let (found, f, h') =
      bind_inv (filter (λ c. ok (option_beq c.tenant_id (some tenant_id))) (values s.records)) _
        h in
    let (sorted, o, h'') = bind_inv (sort newest_first found) _ h' in
    let cut : cs ≡ take (pos_part limit) sorted = cc in
    let own : All (λ c. c.tenant_id ≡ some tenant_id) sorted =
      All-sort (λ c. c.tenant_id ≡ some tenant_id) newest_first found o
        (All-weaken (λ c. ok (option_beq c.tenant_id (some tenant_id)) ≡ ok true)
          (λ c. c.tenant_id ≡ some tenant_id)
          (λ c p. ground (arith, option_beq_iff c.tenant_id (some tenant_id))) found
          (filter_passes (λ c. ok (option_beq c.tenant_id (some tenant_id))) (values s.records)
            f)) in
    let newest =
      Pairwise-sort (λ (a b : CertificateRecord). b.received_at.micros ≤ a.received_at.micros)
        newest_first (λ a b c h k. omega arith) newest_first-le not-newest_first-le found o in
    rw cut (
      All-take (λ c. c.tenant_id ≡ some tenant_id) (pos_part limit) sorted own,
      length-take-le (pos_part limit) sorted,
      Pairwise-take _ (pos_part limit) sorted newest,
    )
