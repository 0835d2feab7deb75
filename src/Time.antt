-- ===== src/Time.antt =====
-- Python's `datetime` and `timedelta`, as far as src/saas_job_api/ uses them. A `datetime` counts
-- microseconds from an origin before all of them: of UTC if it is aware of its time zone, of the
-- wall clock if it is naive. Python refuses to order or subtract an aware and a naive one
-- (`TypeError`), and finds them unequal. Durations, `timedelta(seconds=...)`, are microseconds.
use saas_job_api.Prelude.{ℕ, ◌+◌, Bool, true, false, ◌&&◌, not, ltb, leb, nat_beq, if◌then◌else◌}
use saas_job_api.Result.{Result, ok, err, type_error}

pub record DateTime : Type 0 where
  pub is_aware : Bool
  pub micros : ℕ

abbrev pub aware : ℕ → DateTime
aware t = record { is_aware = true; micros = t }

abbrev pub naive : ℕ → DateTime
naive t = record { is_aware = false; micros = t }

abbrev pub same_kind : DateTime → DateTime → Bool
same_kind a b = if a.is_aware then b.is_aware else not b.is_aware

-- `a == b`
abbrev pub at_once : DateTime → DateTime → Bool
at_once a b = same_kind a b && nat_beq a.micros b.micros

-- `a < b`
unfoldable pub is_before : DateTime → DateTime → Result Bool
is_before a b = if same_kind a b then ok (ltb a.micros b.micros) else err type_error

-- `a <= b`
unfoldable pub is_by : DateTime → DateTime → Result Bool
is_by a b = if same_kind a b then ok (leb a.micros b.micros) else err type_error

-- `t + timedelta(...)`
abbrev pub later : DateTime → ℕ → DateTime
later t d = record t { micros = t.micros + d }

-- `(now - t).total_seconds() < d`; a `t` after `now` has a negative difference.
unfoldable pub elapsed_lt : DateTime → DateTime → ℕ → Result Bool
elapsed_lt now t d = if same_kind now t then ok (ltb now.micros (t.micros + d)) else err type_error

-- `(now - t).total_seconds() >= d`
unfoldable pub elapsed_ge : DateTime → DateTime → ℕ → Result Bool
elapsed_ge now t d = if same_kind now t then ok (leb (t.micros + d) now.micros) else err type_error
