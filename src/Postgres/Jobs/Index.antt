-- ===== src/Postgres/Jobs/Index.antt =====
-- The unique index `ix_jobs_receipt_token` (alembic/versions/001_initial_schema.py): tokens that
-- are new do not violate it.
use saas_job_api.Prelude.{
  ℕ, suc, String, ◌≡◌, refl, inl, inr, false, some, [], ◌∷◌, arith, string_eq, ◌==◌, All,
  option_beq, Bool-cases,
}
use saas_job_api.Dict.{Dict, put}
use saas_job_api.Postgres.Jobs.{JobRow}
use saas_job_api.Postgres.Jobs.Queries.{reserve_row, is_taken, violates_index}

-- No row has the token.
abbrev pub Unused : String → Dict String JobRow → Type 0
Unused token = All (λ entry. option_beq entry.1.receipt_token (some token) ≡ false)

-- The tokens that are drawn differ from each other and from those in the table.
abbrev pub IsFresh : (ℕ → String) → Dict String JobRow → Type 0
IsFresh token d = ((i j : ℕ) → token i ≡ token j → i ≡ j) × ((i : ℕ) → Unused (token i) d)

is_taken-Unused :
    (k token : String) (d : Dict String JobRow) → Unused token d → is_taken k token d ≡ false
unfolding is_taken
is_taken-Unused k token [] h = refl
is_taken-Unused k token ((i, row) ∷ d) h = ground (arith, is_taken-Unused k token d h.1)

put-Unused :
    (k token : String) (row : JobRow) (d : Dict String JobRow)
    → Unused token d
    → option_beq row.receipt_token (some token) ≡ false
    → Unused token (put k row d)
unfolding put
put-Unused k token row [] h new = (new, tt)
put-Unused k token row ((i, x) ∷ d) h new = elim (Bool-cases (i == k)) [
  | inl hit ↦ rw hit (new, h.1)
  | inr miss ↦ rw miss (h.0, put-Unused k token row d h.1 new)
]

pub violates_index-IsFresh :
    (gateway_id : String) (until : ℕ) (token : ℕ → String) (rows d : Dict String JobRow)
    → IsFresh token d
    → violates_index gateway_id until token rows d ≡ false
unfolding violates_index
violates_index-IsFresh gateway_id until token [] d fresh = refl
violates_index-IsFresh gateway_id until token ((k, row) ∷ rows) d (distinct, unused) =
    let other : (i : ℕ) → (token 0 == token (suc i)) ≡ false = (λ i.
      elim (Bool-cases (token 0 == token (suc i))) [
        | inl same ↦
            let e : 0 ≡ suc i =
              distinct 0 (suc i) ((string_eq.eqb_iff (token 0) (token (suc i))).0 same) in
            absurd (omega arith)
        | inr apart ↦ apart
      ]) in
    rw
      (
        is_taken-Unused k (token 0) d (unused 0),
        violates_index-IsFresh gateway_id until (λ i. token (suc i)) rows
            (put k (reserve_row gateway_id until (token 0) row) d)
            (
              λ i j e. let s : suc i ≡ suc j = distinct (suc i) (suc j) e in omega arith,
              λ i.
                  put-Unused k (token (suc i)) (reserve_row gateway_id until (token 0) row) d
                    (unused (suc i)) (unfold reserve_row in other i),
            ),
      )
      refl
