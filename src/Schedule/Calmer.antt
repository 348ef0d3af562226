-- ===== src/Schedule/Calmer.antt =====
-- What happens to a job of src/registry/fleet-scheduler.mjs after its start never makes it active again, and
-- keeps its payload; the runs of schedules follow it.
use dsh_orbit.Common.{
  ℕ, zero, suc, ◌≡◌, refl, sym, ap, ◌∙◌, ◌⊎◌, inl, inr, Bool, true, false, ◌||◌, ◌==◌, Option, none,
  some, List, [], ◌∷◌, arith, if◌then◌else◌, length, Bool-cases,
}
use mathlib.Core.Option.{some-injective}
use dsh_orbit.Common.Text.{Text, Text-discrete}
use dsh_orbit.Common.JsMap.{get, put, get-put}
use dsh_orbit.Fleet.{Job, Outcome}
use dsh_orbit.Fleet.Execute.{
  Execution, Flight, task_of, mark_running, is_failed, is_failed_job, claim_next, claim, outcome_of,
  record_outcome, settle_flight, pick, settle, is_over, cancel_job, terminal_status, computed_total,
  Finish, finished, accounting_violation, completeness_violation, finish_job,
}
use dsh_orbit.Fleet.Accounting.{cancel}
use dsh_orbit.Fleet.Dispatch.{Ending}
use dsh_orbit.Fleet.Submit.{is_active_status}
use dsh_orbit.Fleet.Runs.{Event, claims, settles, cancels, step}
use dsh_orbit.Schedule.{Run}
use dsh_orbit.Schedule.JobRuns.{Jobs, active_in, Tied, Follows}

pub record Calmer (x y : Job) : Type 0 where
  pub quieter : is_active_status y.status ≡ true → is_active_status x.status ≡ true
  pub same_payload : y.payload ≡ x.payload

same : (x : Job) → Calmer x x
same x = record { quieter = λ h. h; same_payload = refl }

Calmer-if :
    {A : Type 0} {y z : A} (x : Job) (job : A → Job) (b : Bool)
    → Calmer x (job y)
    → Calmer x (job z)
    → Calmer x (job (if b then y else z))
Calmer-if x job true f g = f
Calmer-if x job false f g = g

claim_next-Calmer :
    (x : Execution) (now others : ℕ) (queue : List Text)
    → Calmer x.job (claim_next x now others queue).job
unfolding mark_running
claim_next-Calmer x now others [] = same x.job
claim_next-Calmer x now others (node ∷ queue) =
    Calmer-if x.job (λ (z : Execution). z.job) x.job.aborted (same x.job)
      (Calmer-if x.job (λ (z : Execution). z.job) (is_failed (task_of x.job node).outcome.status)
        (same x.job) (record { quieter = λ h. h; same_payload = refl }))

claim-Calmer : (x y : Execution) (now : ℕ) → claim x now ≡ some y → Calmer x.job y.job
unfolding claim
claim-Calmer x y now h = go x.free h
  where
    go :
        (n : ℕ)
        → elim n [ zero ↦ none | suc others ↦ some (claim_next x now others x.queue) ] ≡ some y
        → Calmer x.job y.job
    go zero h' = cc
    go (suc others) h' = rw (← some-injective _ _ h') (claim_next-Calmer x now others x.queue)

record_outcome-Calmer :
    (job : Job) (flight : Flight) (o : Outcome) (now : ℕ)
    → Calmer job (record_outcome job flight o now)
unfolding record_outcome
record_outcome-Calmer job flight o now =
    Calmer-if job (λ j. j) (job.aborted || is_failed (task_of job flight.node).outcome.status)
      (same job) (record { quieter = λ h. h; same_payload = refl })

settle-Calmer :
    (x y : Execution) (position : ℕ) (ending : Ending) (now : ℕ)
    → settle x position ending now ≡ some y
    → Calmer x.job y.job
unfolding settle
settle-Calmer x y position ending now h = go (pick position x.in_flight) h
  where
    go :
        (o : Option (Flight × List Flight))
        → settle_flight x ending now o ≡ some y
        → Calmer x.job y.job
    go none h' = cc
    go (some (flight, others)) h' =
        rw (← some-injective _ _ h') (record_outcome-Calmer x.job flight (outcome_of ending) now)

cancel_job-Calmer : (job : Job) (now : ℕ) → Calmer job (cancel_job job now).0
unfolding cancel_job
cancel_job-Calmer job now = elim (Bool-cases (is_over job.status)) [
  | inl e ↦ rw e (same job)
  | inr e ↦ rw e (record { quieter = λ h. cc; same_payload = refl })
]

pub step-Calmer : (x y : Execution) (e : Event) → step x e ≡ some y → Calmer x.job y.job
unfolding step cancel cancel_job
step-Calmer x y (claims now) h = claim-Calmer x y now h
step-Calmer x y (settles position ending now) h = settle-Calmer x y position ending now h
step-Calmer x y (cancels now) h = rw (← some-injective _ _ h) (cancel_job-Calmer x.job now)

-- The job as `executeJob` leaves it, when it returns and when it throws.
abbrev pub ended : Finish → Job
ended (finished job) = job
ended (accounting_violation job) = job
ended (completeness_violation job) = job

ended-Calmer :
    (job y : Job) → is_active_status y.status ≡ false → y.payload ≡ job.payload → Calmer job y
ended-Calmer job y over p = record { quieter = λ h. absurd cc; same_payload = p }

terminal_status-over : (job : Job) → is_active_status (terminal_status job) ≡ false
unfolding terminal_status
terminal_status-over job = elim (Bool-cases (job.aborted || is_failed_job job.status)) [
  | inl e ↦ rw e refl
  | inr e ↦ rw e (elim (Bool-cases (job.summary.completed == job.summary.total_targets)) [
    | inl f ↦ rw f refl
    | inr f ↦
        rw f
          (elim (Bool-cases (job.summary.completed == 0)) [ inl g ↦ rw g refl | inr g ↦ rw g refl ])
  ])
]

pub finish_job-Calmer : (job : Job) (later : ℕ) → Calmer job (ended (finish_job job later))
unfolding finish_job
finish_job-Calmer job later =
    elim (Bool-cases (computed_total job.summary == job.summary.total_targets)) [
      | inr e ↦ rw e (ended-Calmer job _ refl refl)
      | inl e ↦ rw e (elim (Bool-cases (length job.results == job.summary.total_targets)) [
        | inr f ↦ rw f (ended-Calmer job _ refl refl)
        | inl f ↦ rw f (ended-Calmer job _ (terminal_status-over job) refl)
      ])
    ]

-- A run follows the table of jobs when an entry is put into it that is not the run's, or that is calmer.
abbrev pub Old : Jobs → Text → Execution → Type 0
Old jobs k y = (x : Execution) × (get Text-discrete k jobs ≡ some x) × Calmer x.job y.job

put_cases :
    (jobs : Jobs) (k j : Text) (y : Execution)
    → (get Text-discrete j (put Text-discrete k y jobs) ≡ get Text-discrete j jobs)
      ⊎ ((k ≡ j) × (get Text-discrete j (put Text-discrete k y jobs) ≡ some y))
put_cases jobs k j y = elim (Text-discrete k j) [
  | yes e ↦ inr (e, ground (arith, get-put Text-discrete k j y jobs))
  | no d ↦ inl (ground (arith, get-put Text-discrete k j y jobs))
]

pub put-Follows :
    (jobs : Jobs) (k : Text) (y : Execution) (r : Run)
    → (r.job_id ≡ some k → Old jobs k y)
    → Follows jobs (put Text-discrete k y jobs) r
put-Follows jobs k y r old = record { quieter = λ a. quieter_at r.job_id refl a; tied = tied_at }
  where
    quieter_at :
        (o : Option Text)
        → r.job_id ≡ o
        → active_in (put Text-discrete k y jobs) o ≡ true
        → active_in jobs o ≡ true
    quieter_at none e a = a
    quieter_at (some j) e a = elim (put_cases jobs k j y) [
      | inl still ↦ rw still at a
      | inr (same_key, there) ↦
          let (x, was, calmer) = old (e ∙ ap some (sym same_key)) in
          rw (← same_key, was) (calmer.quieter (rw there at a))
    ]

    tied_at : Tied jobs r → Tied (put Text-discrete k y jobs) r
    tied_at t j z e found = elim (put_cases jobs k j y) [
      | inl still ↦ t j z e (sym still ∙ found)
      | inr (same_key, there) ↦
          let (x, was, calmer) = old (e ∙ ap some (sym same_key)) in
          rw (← some-injective y z (sym there ∙ found), calmer.same_payload)
            (t k x (e ∙ ap some (sym same_key)) was)
    ]
