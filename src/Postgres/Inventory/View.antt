-- ===== src/Postgres/Inventory/View.antt =====
-- The tables of `PostgresInventoryStore` (src/saas_job_api/inventory_store_postgres.py) seen as a
-- `MemoryInventoryStore`.
use mathlib.Core.Path.{ap, sym, ◌∙◌}
use saas_job_api.Prelude.{
  ℕ, String, ◌≡◌, refl, inl, inr, none, List, [], ◌∷◌, All, string_eq, pair_eq, Option-cases,
}
use saas_job_api.Result.{ok}
use saas_job_api.Dict.{Dict, lookup, put}
use saas_job_api.Inventory.{
  Certificate, CertificateRecord, MemoryInventoryStore, Submission, build, store_all,
  certificate_record,
}
use saas_job_api.Inventory as Memory
use saas_job_api.Inventory.Laws.{build_records}
use saas_job_api.Postgres.{Driver, IsFaithful}
use saas_job_api.Postgres.Image.{image, lookup-image, image-put}
use saas_job_api.Postgres.Inventory.{
  PostgresInventoryStore, ResultRow, CertificateRow, certificate_row, row_to_certificate,
  insert_records, insert_result, submit_result, marker_row, marked,
}
use saas_job_api.Postgres.Jobs.View.{IsAware}

abbrev pub inventory_of : PostgresInventoryStore → MemoryInventoryStore
inventory_of s = record {
  markers = image (λ (row : ResultRow). row.record_count) s.job_results;
  records = image row_to_certificate s.certificate_records;
}

-- The datetimes of a record are aware.
abbrev pub IsAwareRecord : CertificateRecord → Type 0
IsAwareRecord c = IsAware c.valid_from × IsAware c.valid_to × IsAware c.received_at

-- The ids of the records are new, one after another.
abbrev pub AreFresh : Driver → List CertificateRecord → Dict String CertificateRow → Type 0
AreFresh driver [] rows = Unit
AreFresh driver (c ∷ cs) rows =
    (lookup c.record_id rows ≡ none)
    × AreFresh driver cs (put c.record_id (certificate_row driver c) rows)

module _ (driver : Driver) (faithful : IsFaithful driver) where
  certificate_row-back :
      (c : CertificateRecord) → IsAwareRecord c → row_to_certificate (certificate_row driver c) ≡ c
  unfolding row_to_certificate certificate_row
  certificate_row-back c ((from, f), (to, t), (at, a)) =
      rw
        (f, t, a, faithful.instant_aware from, faithful.instant_aware to, faithful.instant_aware at)
        refl

  insert_records-store_all :
      (cs : List CertificateRecord) (s : PostgresInventoryStore)
      → All IsAwareRecord cs
      → AreFresh driver cs s.certificate_records
      → ((insert_records driver cs s).0 ≡ ok tt)
        × (inventory_of (insert_records driver cs s).1 ≡ record (inventory_of s) {
          records = store_all cs (image row_to_certificate s.certificate_records);
        })
  unfolding insert_records store_all
  insert_records-store_all [] s h fresh = (refl, refl)
  insert_records-store_all (c ∷ cs) s h fresh =
      let next = record s {
        certificate_records = put c.record_id (certificate_row driver c) s.certificate_records;
      } in
      let (returns, same) = insert_records-store_all cs next h.1 fresh.1 in
      let stored =
        image-put row_to_certificate c.record_id (certificate_row driver c) s.certificate_records in
      rw fresh.0 (
        returns,
        same
            ∙ ap (λ d. record (inventory_of s) { records = store_all cs d })
                (stored ∙ rw (certificate_row-back c h.0) refl),
      )

  -- A submission that no other transaction disturbs. If the datetimes of its records are aware and
  -- the new ids are not taken, PostgresInventoryStore answers what the memory store answers and
  -- leaves tables that stand for what the memory store leaves. The driver stores an aware datetime
  -- as its instant.
  pub submit_result-view :
      (new_id : ℕ → String) (r : Submission) (s : PostgresInventoryStore)
      → All IsAwareRecord (build new_id r r.certificates)
      → AreFresh driver (build new_id r r.certificates) s.certificate_records
      → ((submit_result driver new_id r (λ t. t) s).0
          ≡ (Memory.submit_result new_id r (inventory_of s)).0)
        × (inventory_of (submit_result driver new_id r (λ t. t) s).1
            ≡ (Memory.submit_result new_id r (inventory_of s)).1)
  unfolding submit_result insert_result Memory.submit_result
  submit_result-view new_id r s h fresh =
      let key : String × String = (r.job_id, r.attempt_token) in
      let seen = lookup-image (λ (row : ResultRow). row.record_count) key s.job_results in
      elim (Option-cases (lookup key s.job_results)) [
        | inr (row, found) ↦ rw (seen, found) (refl, refl)
        | inl free ↦
            let built = build new_id r r.certificates in
            let (returns, same) = insert_records-store_all built (marked driver r s) h fresh in
            let counts : Dict (String × String) ℕ =
              image (λ (row : ResultRow). row.record_count) s.job_results in
            rw (seen, free, free, returns)
              (
                refl,
                same
                    ∙ ap
                        (λ m. record (inventory_of s) {
                          markers = m;
                          records =
                              store_all built (image row_to_certificate s.certificate_records);
                        })
                        (image-put (λ (row : ResultRow). row.record_count) key (marker_row driver r)
                            s.job_results
                          ∙ ap (λ n. put key n counts)
                              (sym (build_records new_id r r.certificates).0)),
              )
      ]
