-- ===== src/Postgres/Jobs/Queries.antt =====
-- `PostgresJobStore` (src/saas_job_api/store_postgres.py): inserting, reading and claiming jobs.
-- What a method reads again after its transaction is as the transaction left it.
use Prim.Native.String.{◌++◌ as concat}
use mathlib.Core.Option
use saas_job_api.Prelude.{
  ℕ, suc, ◌+◌, String, Bool, true, false, not, Option, none, some, List, [], ◌∷◌, map, string_eq,
  leb, ltb, ◌==◌, ◌&&◌, ◌||◌, option_beq, nat_beq, is_none, if◌then◌else◌,
}
use saas_job_api.Prelude.Int.{ℤ, pos, negsuc, min_ℤ, ltb_ℤ, beq_ℤ}
use saas_job_api.Result.{Result, ok, err, value_error, database_error}
use saas_job_api.Exec.{Exec, pure, raise, lift, gets, modify, guard, ◌>>=◌, ◌>>◌}
use saas_job_api.Time.{DateTime, later}
use saas_job_api.Dict.{Dict, lookup, put, put_all, values}
use saas_job_api.Dict.Select.{select}
use saas_job_api.Sorting.{sort}
use saas_job_api.Jobs.{JobState, JobRecord, available, reserved, acknowledged, completed}
use saas_job_api.Jobs.Store.{PendingFault}
use saas_job_api.Jobs.Claim.{ClaimRequest}
use saas_job_api.Postgres.{Driver}
use saas_job_api.Postgres.Jobs.{JobRow, PostgresJobStore, inserted, row_to_record}

module _ (driver : Driver) where
  unfoldable pub seed : DateTime → JobRecord → Exec PostgresJobStore JobRecord
  unfolding inserted
  seed now job = do
    found ← gets (λ s. lookup job.job_id s.jobs)
    if is_none found
        then (do
          modify (λ s. record s { jobs = put job.job_id (inserted driver now job) s.jobs })
          pure job)
        else raise (value_error (concat "job_id already exists: " job.job_id))

-- The interruption receipts go with their jobs (ON DELETE CASCADE); the fault stays.
unfoldable pub reset : Exec PostgresJobStore (Unit {0})
reset = modify (λ s. record s { jobs = []; job_interruption_receipts = [] })

-- `ORDER BY created_at DESC`
unfoldable pub list_all : Driver → Exec PostgresJobStore (List JobRecord)
unfolding row_to_record
list_all driver s =
    (do
      sorted ←
          lift (sort (λ a b. ok (ltb b.created_at a.created_at)) (driver.unordered (values s.jobs)))
      pure (map row_to_record sorted))
      s

unfoldable pub get : String → Exec PostgresJobStore (Option JobRecord)
unfolding row_to_record
get job_id = gets (λ s. Option.map row_to_record (lookup job_id s.jobs))

unfoldable pub set_fault : ℕ → Option ℕ → Exec PostgresJobStore (Unit {0})
set_fault status_code retry_after = modify λ s. record s {
  pending_fault = some (record { status_code = status_code; retry_after_seconds = retry_after });
}

unfoldable pub take_fault : Exec PostgresJobStore (Option PendingFault)
take_fault = do
  fault ← gets (λ s. s.pending_fault)
  modify (λ s. record s { pending_fault = none })
  pure fault

-- `reservation_until <= $2`, which is not true of NULL.
abbrev pub has_ended : Option ℕ → ℕ → Bool
has_ended none now = false
has_ended (some until) now = leb until now

-- The WHERE clause of `claim`.
abbrev pub is_open_in : JobState → Option ℕ → ℕ → Bool
is_open_in available until now = true
is_open_in reserved until now = has_ended until now
is_open_in acknowledged until now = false
is_open_in completed until now = false

unfoldable pub is_open : ℕ → JobRow → Bool
is_open now row = is_open_in row.state row.reservation_until now

-- `ORDER BY priority DESC, scheduled_at ASC, job_id ASC`
unfoldable pub row_lt : Driver → JobRow → JobRow → Bool
row_lt driver a b =
    if not (beq_ℤ a.priority b.priority)
    then ltb_ℤ b.priority a.priority
    else if not (nat_beq a.scheduled_at b.scheduled_at)
    then ltb a.scheduled_at b.scheduled_at
    else driver.collate_lt a.job_id b.job_id

unfoldable pub limit_of : ℤ → Option ℤ → ℤ
unfolding min_ℤ
limit_of max_jobs none = max_jobs
limit_of max_jobs (some slots) = min_ℤ max_jobs slots

-- `LIMIT $1`: the database refuses a negative one.
abbrev pub limit_rows : ℤ → Result ℕ
limit_rows (pos n) = ok n
limit_rows (negsuc n) = err database_error

-- The rows that `claim` locks at the instant `now`.
unfoldable pub locked_rows : Driver → ℕ → ℕ → Dict String JobRow → Result (Dict String JobRow)
unfolding is_open row_lt
locked_rows driver now limit =
    select (λ row. ok (is_open now row)) (λ a b. ok (row_lt driver a b)) limit

-- The UPDATE of `claim`.
unfoldable pub reserve_row : String → ℕ → String → JobRow → JobRow
reserve_row gateway_id until token row = record row {
  state = reserved;
  reserved_by = some gateway_id;
  reservation_until = some until;
  receipt_token = some token;
  delivery_attempts = row.delivery_attempts + 1;
}

unfoldable pub reserve_rows : String → ℕ → (ℕ → String) → Dict String JobRow → Dict String JobRow
unfolding reserve_row
reserve_rows gateway_id until token [] = []
reserve_rows gateway_id until token ((k, row) ∷ rows) =
    (k, reserve_row gateway_id until (token 0) row)
    ∷ reserve_rows gateway_id until (λ i. token (suc i)) rows

-- Another row than the one under the key has the receipt token.
unfoldable pub is_taken : (k token : String) → Dict String JobRow → Bool
is_taken k token [] = false
is_taken k token ((i, row) ∷ d) =
    not (i == k) && option_beq row.receipt_token (some token) || is_taken k token d

-- One of the UPDATEs, one after another, violates the unique index on `receipt_token`.
unfoldable pub violates_index : String → ℕ → (ℕ → String) → (rows table : Dict String JobRow) → Bool
unfolding is_taken reserve_row
violates_index gateway_id until token [] table = false
violates_index gateway_id until token ((k, row) ∷ rows) table =
    is_taken k (token 0) table
    || violates_index gateway_id until (λ i. token (suc i)) rows
        (put k (reserve_row gateway_id until (token 0) row) table)

-- `job_types` and `manifest_versions` of the request are not read. A violated index rolls the
-- transaction back.
unfoldable pub claim :
    Driver → DateTime → (ℕ → String) → ClaimRequest → Exec PostgresJobStore (List JobRecord)
unfolding reserve_rows row_to_record limit_of violates_index
claim driver now token r = do
  store ← gets (λ s. s)
  limit ← lift (limit_rows (limit_of r.max_jobs r.dispatch_slots))
  rows ← lift (locked_rows driver (driver.instant now) limit store.jobs)
  let until = driver.instant (later now store.reservation_ttl_seconds)
  let changed = reserve_rows r.gateway_id until token rows
  guard (not (violates_index r.gateway_id until token rows store.jobs)) database_error
  modify (λ s. record s { jobs = put_all changed s.jobs })
  pure (map row_to_record (driver.unordered (values changed)))
