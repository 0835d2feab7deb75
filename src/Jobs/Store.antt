-- ===== src/Jobs/Store.antt =====
-- src/saas_job_api/store_memory.py: `MemoryJobStore`. A method runs under the store's lock, so it
-- is one step. Its clock reading and the tokens that it draws are arguments.
use Prim.Native.String.{◌++◌ as concat}
use saas_job_api.Prelude.{
  ℕ, String, Option, none, some, List, [], string_eq, pair_eq, is_none, if◌then◌else◌,
}
use saas_job_api.Result.{value_error}
use saas_job_api.Exec.{Exec, pure, raise, gets, modify, ◌>>=◌, ◌>>◌}
use saas_job_api.Dict.{Dict, lookup, put, values}
use saas_job_api.Jobs.{JobRecord}

pub record PendingFault : Type 0 where
  pub status_code : ℕ
  pub retry_after_seconds : Option ℕ

pub record MemoryJobStore : Type 0 where
  pub reservation_ttl_seconds : ℕ
  pub jobs : Dict String JobRecord
  pub pending_fault : Option PendingFault
  pub interrupted_attempts : List (String × (String × String))

unfoldable pub seed : JobRecord → Exec MemoryJobStore JobRecord
seed job = do
  found ← gets (λ s. lookup job.job_id s.jobs)
  if is_none found
      then (do modify (λ s. record s { jobs = put job.job_id job s.jobs }); pure job)
      else raise (value_error (concat "job_id already exists: " job.job_id))

unfoldable pub reset : Exec MemoryJobStore (Unit {0})
reset = modify (λ s. record s { jobs = []; interrupted_attempts = []; pending_fault = none })

unfoldable pub list_all : Exec MemoryJobStore (List JobRecord)
list_all = gets (λ s. values s.jobs)

unfoldable pub get : String → Exec MemoryJobStore (Option JobRecord)
get job_id = gets (λ s. lookup job_id s.jobs)

unfoldable pub set_fault : ℕ → Option ℕ → Exec MemoryJobStore (Unit {0})
set_fault status_code retry_after = modify λ s. record s {
  pending_fault = some (record { status_code = status_code; retry_after_seconds = retry_after });
}

unfoldable pub take_fault : Exec MemoryJobStore (Option PendingFault)
take_fault = do
  fault ← gets (λ s. s.pending_fault)
  modify (λ s. record s { pending_fault = none })
  pure fault
