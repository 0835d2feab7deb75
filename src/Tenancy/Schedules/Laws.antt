-- ===== src/Tenancy/Schedules/Laws.antt =====
-- A due schedule fires once in its interval; one naive time stops all schedules.
use mathlib.Core.Path.{subst, sym, ◌∙◌}
use mathlib.Core.Option
use saas_job_api.Prelude.{
  ℕ, ◌+◌, ◌<◌, String, ◌≡◌, refl, inl, inr, Bool, true, none, some, List, [], ◌∷◌, arith, string_eq,
  ◌==◌, Bool-cases, Option-cases, All,
}
use saas_job_api.Result.{Error, ok, err, IsOk, IsOk-of_no_err, Result-cases}
use saas_job_api.Time.{DateTime, aware, naive}
use saas_job_api.Dict.{Dict, lookup, IsUnique, values}
use saas_job_api.Dict.Laws.{lookup-put_all, put_all-IsUnique, override}
use saas_job_api.Dict.Select.Selected.{select_sound, select-IsUnique, select_tests}
use saas_job_api.Dict.Select.Order.{select_total}
use saas_job_api.Tenancy.{Schedule}
use saas_job_api.Tenancy.Schedules.{
  MemoryScheduleStore, is_due, runs_before, advance, advance_each, due_schedules, claim_due,
}

module _ (now : DateTime) where
  lookup-advance_each :
      (k : String) (due : Dict String Schedule)
      → lookup k (advance_each now due) ≡ Option.map (advance now) (lookup k due)
  unfolding lookup advance_each
  lookup-advance_each k [] = refl
  lookup-advance_each k ((i, s) ∷ due) = elim (Bool-cases (i == k)) [
    | inl hit ↦ rw hit
    | inr miss ↦ rw miss (lookup-advance_each k due)
  ]

  advance_each-IsUnique :
      (due : Dict String Schedule) → IsUnique due → IsUnique (advance_each now due)
  unfolding advance_each
  advance_each-IsUnique [] u = tt
  advance_each-IsUnique ((i, s) ∷ due) u =
      (rw lookup-advance_each (rw u.0), advance_each-IsUnique due u.1)

module _ (now : DateTime) (limit : ℕ) (s : MemoryScheduleStore) (u : IsUnique s) where
  -- After a claim a schedule stands as it was, or advanced if it was claimed.
  pub lookup-claim_due :
      {due : MemoryScheduleStore} (k : String)
      → due_schedules now limit s ≡ ok due
      → lookup k (claim_due now limit s).1
        ≡ override (Option.map (advance now) (lookup k due)) (lookup k s)
  unfolding claim_due
  lookup-claim_due {due} k c =
      let unique : IsUnique (advance_each now due) =
        advance_each-IsUnique now due
          (unfold due_schedules in select-IsUnique (is_due now) runs_before limit s u c) in
      rw c (rw (lookup-put_all (advance_each now due) s unique k) (rw lookup-advance_each))

  claim_due-IsUnique : IsUnique (claim_due now limit s).1
  unfolding claim_due
  claim_due-IsUnique = elim (Result-cases (due_schedules now limit s)) [
    | inr (x, c) ↦ rw c u
    | inl (due, c) ↦ rw c (put_all-IsUnique _ s u)
  ]

advanced_not_due :
    (t t' : ℕ) (schedule : Schedule)
    → t' < t + schedule.interval_seconds
    → ¬ (is_due (aware t') (advance (aware t) schedule) ≡ ok true)
unfolding is_due advance
advanced_not_due t t' schedule h e = ground arith

module _ (t : ℕ) (k : String) (schedule : Schedule) where
  -- The schedule stands as the claim at the time t left it.
  abbrev IsAdvanced : MemoryScheduleStore → Type 0
  IsAdvanced s = IsUnique s × (lookup k s ≡ some (advance (aware t) schedule))

  advanced_not_taken :
      (t' limit : ℕ) (s due : MemoryScheduleStore)
      → IsAdvanced s
      → due_schedules (aware t') limit s ≡ ok due
      → t' < t + schedule.interval_seconds
      → lookup k due ≡ none
  unfolding due_schedules
  advanced_not_taken t' limit s due (u, moved) c before = elim (Option-cases (lookup k due)) [
    | inl e ↦ e
    | inr (again, e) ↦
        let (stored, is_due_again) =
          select_sound (is_due (aware t')) runs_before limit s u k again c e in
        let same : advance (aware t) schedule ≡ again = cc in
        absurd (
          advanced_not_due t t' schedule before
            (subst (λ x. is_due (aware t') x ≡ ok true) (sym same) is_due_again))
  ]

  claim_due-IsAdvanced :
      (t' limit : ℕ) (s : MemoryScheduleStore)
      → IsAdvanced s
      → t' < t + schedule.interval_seconds
      → IsAdvanced (claim_due (aware t') limit s).1
  unfolding claim_due
  claim_due-IsAdvanced t' limit s (u, moved) before =
      elim (Result-cases (due_schedules (aware t') limit s)) [
        | inr (x, c) ↦ rw c (u, moved)
        | inl (due, c) ↦ (
          claim_due-IsUnique (aware t') limit s u,
          lookup-claim_due (aware t') limit s u k c
              ∙ rw (advanced_not_taken t' limit s due (u, moved) c before) moved,
        )
      ]

-- Claims one after another, each at a time and with a limit.
unfoldable pub claims_due : MemoryScheduleStore → List (ℕ × ℕ) → MemoryScheduleStore
claims_due s [] = s
claims_due s ((t, limit) ∷ claims) = claims_due (claim_due (aware t) limit s).1 claims

claims_due-IsAdvanced :
    (t : ℕ) (k : String) (schedule : Schedule) (s : MemoryScheduleStore) (claims : List (ℕ × ℕ))
    → IsAdvanced t k schedule s
    → All (λ claim. claim.0 < t + schedule.interval_seconds) claims
    → IsAdvanced t k schedule (claims_due s claims)
unfolding claims_due
claims_due-IsAdvanced t k schedule s [] h before = h
claims_due-IsAdvanced t k schedule s ((t', limit) ∷ claims) h (before, rest) =
    claims_due-IsAdvanced t k schedule (claim_due (aware t') limit s).1 claims
      (claim_due-IsAdvanced t k schedule t' limit s h before) rest

-- A schedule fires once in its interval. If a claim at the time t takes a schedule, then a later
-- claim does not take it again, with any number of other claims in between and whatever the
-- limits, as long as the times of these claims are before t plus the schedule's interval.
pub claim_due_once :
    (t t' limit limit' : ℕ) (s due due' : MemoryScheduleStore) (k : String) (schedule : Schedule)
    (between : List (ℕ × ℕ))
    → IsUnique s
    → due_schedules (aware t) limit s ≡ ok due
    → lookup k due ≡ some schedule
    → All (λ claim. claim.0 < t + schedule.interval_seconds) between
    → due_schedules (aware t') limit' (claims_due (claim_due (aware t) limit s).1 between) ≡ ok due'
    → t' < t + schedule.interval_seconds
    → lookup k due' ≡ none
claim_due_once t t' limit limit' s due due' k schedule between u c h earlier c' before =
    let first = (claim_due (aware t) limit s).1 in
    let moved : lookup k first ≡ some (advance (aware t) schedule) =
      rw (lookup-claim_due (aware t) limit s u k c) (rw h) in
    advanced_not_taken t k schedule t' limit' (claims_due first between) due'
      (claims_due-IsAdvanced t k schedule first between
        (claim_due-IsUnique (aware t) limit s u, moved) earlier)
      c' before

naive_not_due :
    (t u : ℕ) (schedule : Schedule)
    → schedule.enabled ≡ true
    → schedule.next_run_at ≡ naive u
    → (o : Bool) → ¬ (is_due (aware t) schedule ≡ ok o)
unfolding is_due
naive_not_due t u schedule h n o e = cc (rw (h, n) at e)

-- The first run of a schedule may be set by the request that creates it. At an aware time, one
-- enabled schedule with a naive time stops every claim with an error: no schedule of any tenant
-- fires, and the store is left as it was.
pub naive_schedule_stops_claim :
    (t u limit : ℕ) (s : MemoryScheduleStore) (k : String) (schedule : Schedule)
    → lookup k s ≡ some schedule
    → schedule.enabled ≡ true
    → schedule.next_run_at ≡ naive u
    → (e : Error) × (claim_due (aware t) limit s ≡ (err e, s))
unfolding claim_due due_schedules
naive_schedule_stops_claim t u limit s k schedule h on n =
    elim (Result-cases (due_schedules (aware t) limit s)) [
      | inr (e, c) ↦ (e, rw c)
      | inl (due, c) ↦
          let (o, tested) = select_tests (is_due (aware t)) runs_before limit s k schedule c h in
          absurd (naive_not_due t u schedule on n o tested)
    ]

is_due_total :
    (t : ℕ) (schedule : Schedule)
    → schedule.next_run_at.is_aware ≡ true
    → IsOk (is_due (aware t) schedule)
unfolding is_due
is_due_total t schedule h = IsOk-of_no_err (is_due (aware t) schedule) (λ e f. ground arith)

runs_before_total :
    (a b : Schedule)
    → a.next_run_at.is_aware ≡ true
    → b.next_run_at.is_aware ≡ true
    → IsOk (runs_before a b)
unfolding runs_before
runs_before_total a b h k = IsOk-of_no_err (runs_before a b) (λ e f. ground arith)

-- At an aware time, and if the next runs of all schedules are aware, a claim returns.
pub claim_due_total :
    (t limit : ℕ) (s : MemoryScheduleStore)
    → All (λ entry. entry.1.next_run_at.is_aware ≡ true) s
    → IsOk (claim_due (aware t) limit s).0
unfolding claim_due due_schedules
claim_due_total t limit s h =
    let (due, c) =
      select_total (is_due (aware t)) runs_before (λ x. x.next_run_at.is_aware ≡ true)
        (is_due_total t) runs_before_total limit s h in
    (values (advance_each (aware t) due), rw c)
