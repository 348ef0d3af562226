-- ===== src/Schedule/Exclusive.antt =====
-- One `dispatchScheduleRun` of src/registry/schedule-engine.mjs under the concurrency policy `forbid`, and the
-- jobs of the runs.
use dsh_orbit.Common.{
  ℕ, ◌≤◌, ◌≡◌, ◌≢◌, refl, sym, ap, ◌∙◌, ◌⊎◌, inl, inr, true, false, ◌&&◌, none, some, List, [], ◌∷◌,
  ◌++◌, arith, Bool-cases, any, All,
}
use mathlib.Core.Option.{some-injective}
use dsh_orbit.Common.Text.{Text, Text-discrete, text, text_eq}
use dsh_orbit.Common.JsMap.{get, put, get-put_self}
use dsh_orbit.Flows.Scope.{text_eq→eq}
use dsh_orbit.Fleet.Payload.{get_field, valid_json_payload, json_clone}
use dsh_orbit.Fleet.Target.{Resolved, resolved, rejected, validate_fleet_target_spec}
use dsh_orbit.Fleet.Execute.{Execution, begin_execution}
use dsh_orbit.Fleet.Submit.{
  Scheduler, Request, is_text, is_object, allowed_task_types, new_job, submit_to, submit_new,
  submit_job, has_active_job, has_active_job_for_schedule,
}
use dsh_orbit.Schedule.{forbid, RunStatus, TriggerType, Schedule, Run, Engine, Helpers}
use dsh_orbit.Schedule.Dispatch.{
  is_forbidden, Submission, submission, job_request, new_run, skip_run, record_run, start_run,
  dispatch_schedule_run,
}
use dsh_orbit.Schedule.Tagged.{tagged_payload-carries, begin_execution-IsOf, text_eq_same}
use dsh_orbit.Schedule.JobRuns.{
  Jobs, active_in, active_runs, active_runs-append, run_weight, Tied, AllTied, AllTied-append,
  AllFollow, AllFollow-tied, AllFollow-fewer, none_active,
}
use dsh_orbit.Schedule.Calmer.{Old, put-Follows}

-- No run has this job: it is a new one.
abbrev pub IsFreshJob : Text → List Run → Type 0
IsFreshJob job_id runs = All (λ r. r.job_id ≢ some job_id) runs

-- A schedule has at most one active job, and the jobs of all runs carry the ids of their schedules.
pub record IsExclusive (id : Text) (e : Engine) : Type 0 where
  pub at_most_one : active_runs id e.fleet.jobs e.runs ≤ 1
  pub all_tied : AllTied e.fleet.jobs e.runs

all_follow :
    (jobs : Jobs) (k : Text) (y : Execution) (runs : List Run)
    → All (λ r. r.job_id ≡ some k → Old jobs k y) runs
    → AllFollow jobs (put Text-discrete k y jobs) runs
all_follow jobs k y [] h = tt
all_follow jobs k y (r ∷ runs) (old, h) = (put-Follows jobs k y r old, all_follow jobs k y runs h)

fresh_follow :
    (jobs : Jobs) (k : Text) (y : Execution) (runs : List Run)
    → IsFreshJob k runs
    → AllFollow jobs (put Text-discrete k y jobs) runs
fresh_follow jobs k y [] h = tt
fresh_follow jobs k y (r ∷ runs) (fresh, h) =
    (put-Follows jobs k y r (λ e. absurd (fresh e)), fresh_follow jobs k y runs h)

pub known_follow :
    (jobs : Jobs) (k : Text) (y : Execution) (runs : List Run)
    → Old jobs k y
    → AllFollow jobs (put Text-discrete k y jobs) runs
known_follow jobs k y [] old = tt
known_follow jobs k y (r ∷ runs) old =
    (put-Follows jobs k y r (λ e. old), known_follow jobs k y runs old)

-- The submission put a job into the table that carries the schedule's id, under the new id.
record Starts (id k : Text) (s : Scheduler) (sub : Submission) : Type 0 where
  execution : Execution
  jobs : sub.fleet.jobs ≡ put Text-discrete k execution s.jobs
  named : sub.job_id ≡ some k
  carries : is_text (get_field (text "_fleetScheduleId") execution.job.payload) id ≡ true

StartsOrNot : Text → Text → Scheduler → Submission → Type 0
StartsOrNot id k s sub = ((sub.fleet.jobs ≡ s.jobs) × (sub.job_id ≡ none)) ⊎ Starts id k s sub

module _ (id : Text) (s : Scheduler) (r : Request) (k : Text) (now : ℕ)
    (carries : is_text (get_field (text "_fleetScheduleId") (json_clone r.payload)) id ≡ true) where
  submit_to-Starts :
      (nodes : Resolved) → StartsOrNot id k s (submission s (submit_to s r k now nodes))
  unfolding StartsOrNot new_job
  submit_to-Starts (rejected e) = inl (refl, refl)
  submit_to-Starts (resolved nodes) =
      elim (Bool-cases (is_object r.payload && valid_json_payload 0 r.payload)) [
        | inr e ↦ rw e (inl (refl, refl))
        | inl e ↦
            let kept =
              begin_execution-IsOf s.registry s.max_concurrent_dispatches (new_job r k nodes now)
                now in
            rw e (
              inr (record {
                execution =
                    begin_execution s.registry s.max_concurrent_dispatches (new_job r k nodes now)
                      now;
                jobs = refl;
                named = ap some kept.same_id;
                carries = rw kept.same_payload carries;
              }))
      ]

  submit_new-Starts : StartsOrNot id k s (submission s (submit_new s r k now))
  unfolding StartsOrNot submit_new
  submit_new-Starts = elim (Bool-cases (any (text_eq r.task_type) allowed_task_types)) [
    | inl e ↦ rw e (submit_to-Starts (validate_fleet_target_spec s.registry r.target_spec))
    | inr e ↦ rw e (inl (refl, refl))
  ]

start_run-Starts :
    (fleet : Scheduler) (s : Schedule) (run_id job_id : Text) (now : ℕ)
    → StartsOrNot s.schedule_id job_id fleet
        (submission fleet (submit_job fleet (job_request s run_id) job_id now))
unfolding submit_job job_request
start_run-Starts fleet s run_id job_id now =
    submit_new-Starts s.schedule_id fleet (job_request s run_id) job_id now
      (rw (tagged_payload-carries s run_id) (text_eq_same s.schedule_id))

weight_le : (id : Text) (jobs : Jobs) (r : Run) → run_weight id jobs r ≤ 1
weight_le id jobs r = elim (Bool-cases (text_eq r.schedule_id id && active_in jobs r.job_id)) [
  | inl e ↦ rw e (omega arith)
  | inr e ↦ rw e (omega arith)
]

weight_inactive :
    (id : Text) (jobs : Jobs) (r : Run) → active_in jobs r.job_id ≡ false → run_weight id jobs r ≡ 0
weight_inactive id jobs r h = rw h (ground arith)

weight_other :
    (id : Text) (jobs : Jobs) (r : Run)
    → text_eq r.schedule_id id ≡ false
    → run_weight id jobs r ≡ 0
weight_other id jobs r h = rw h refl

same_follow : (jobs : Jobs) (runs : List Run) → AllFollow jobs jobs runs
same_follow jobs [] = tt
same_follow jobs (r ∷ runs) = (record { quieter = λ h. h; tied = λ t. t }, same_follow jobs runs)

-- A run is added.
one_more :
    (id : Text) (jobs later : Jobs) (r : Run) (runs : List Run)
    → AllFollow jobs later runs
    → (run_weight id later r ≡ 0) ⊎ (active_runs id jobs runs ≡ 0)
    → active_runs id jobs runs ≤ 1
    → active_runs id later (runs ++ r ∷ []) ≤ 1
one_more id jobs later r runs f (inl nothing) h =
    omega (arith, active_runs-append id later r runs, AllFollow-fewer id jobs later runs f)
one_more id jobs later r runs f (inr free) h = omega (
  arith,
  active_runs-append id later r runs,
  AllFollow-fewer id jobs later runs f,
  weight_le id later r,
)

add_run :
    (id : Text) (e : Engine) (later : Jobs) (r : Run)
    → IsExclusive id e
    → AllFollow e.fleet.jobs later e.runs
    → (run_weight id later r ≡ 0) ⊎ (active_runs id e.fleet.jobs e.runs ≡ 0)
    → Tied later r
    → (active_runs id later (e.runs ++ r ∷ []) ≤ 1) × AllTied later (e.runs ++ r ∷ [])
add_run id e later r before f room tied = (
  one_more id e.fleet.jobs later r e.runs f room before.at_most_one,
  AllTied-append later r e.runs (AllFollow-tied e.fleet.jobs later e.runs f before.all_tied) tied,
)

add_idle_run :
    (id : Text) (e : Engine) (r : Run)
    → IsExclusive id e
    → r.job_id ≡ none
    → (active_runs id e.fleet.jobs (e.runs ++ r ∷ []) ≤ 1) × AllTied e.fleet.jobs (e.runs ++ r ∷ [])
add_idle_run id e r before idle =
    add_run id e e.fleet.jobs r before (same_follow e.fleet.jobs e.runs)
      (inl (weight_inactive id e.fleet.jobs r (ap (active_in e.fleet.jobs) idle)))
      (λ j x h there. cc)

module _ (c : Helpers) (e : Engine) (s : Schedule) (trigger : TriggerType) (run_id job_id : Text)
    (now : ℕ) (id : Text) (before : IsExclusive id e) where
  skip_run-IsExclusive : IsExclusive id (skip_run c e s trigger run_id now)
  unfolding skip_run
  skip_run-IsExclusive =
      let added =
        add_idle_run id e
          (new_run run_id s none trigger RunStatus.skipped (some (text "concurrency-forbid")) now)
          before refl in
      record { at_most_one = added.0; all_tied = added.1 }

  record_run-IsExclusive :
      (sub : Submission)
      → IsFreshJob job_id e.runs
      → (s.schedule_id ≡ id → active_runs id e.fleet.jobs e.runs ≡ 0)
      → StartsOrNot s.schedule_id job_id e.fleet sub
      → IsExclusive id (record_run c e s trigger run_id now sub)
  unfolding record_run StartsOrNot
  record_run-IsExclusive sub fresh free (inl (same_jobs, no_job)) =
      let added =
        add_idle_run id e (new_run run_id s sub.job_id trigger sub.status sub.error_code now) before
          no_job in
      record { at_most_one = rw same_jobs added.0; all_tied = rw same_jobs added.1 }
  record_run-IsExclusive sub fresh free (inr started) = record {
    at_most_one = rw started.jobs added.0;
    all_tied = rw started.jobs added.1;
  }
    where
      later : Jobs
      later = put Text-discrete job_id started.execution e.fleet.jobs

      r : Run
      r = new_run run_id s sub.job_id trigger sub.status sub.error_code now

      tied : Tied later r
      tied j x h there =
          let same_id : job_id ≡ j = some-injective job_id j (sym started.named ∙ h) in
          let same_job : started.execution ≡ x = some-injective started.execution x (
            sym (get-put_self Text-discrete job_id started.execution e.fleet.jobs)
            ∙ ap (λ i. get Text-discrete i later) same_id
            ∙ there) in
          rw (← same_job) started.carries

      room : (run_weight id later r ≡ 0) ⊎ (active_runs id e.fleet.jobs e.runs ≡ 0)
      room = elim (Bool-cases (text_eq s.schedule_id id)) [
        | inl mine ↦ inr (free (text_eq→eq s.schedule_id id mine))
        | inr other ↦ inl (weight_other id later r other)
      ]

      added : (active_runs id later (e.runs ++ r ∷ []) ≤ 1) × AllTied later (e.runs ++ r ∷ [])
      added =
          add_run id e later r before
            (fresh_follow e.fleet.jobs job_id started.execution e.runs fresh) room tied

  pub dispatch-IsExclusive :
      (s.schedule_id ≡ id → s.concurrency_policy ≡ forbid)
      → IsFreshJob job_id e.runs
      → IsExclusive id (dispatch_schedule_run c e s trigger run_id job_id now)
  unfolding dispatch_schedule_run start_run has_active_job_for_schedule
  dispatch-IsExclusive policy fresh =
      elim (Bool-cases
        (is_forbidden s.concurrency_policy && has_active_job s.schedule_id e.fleet.jobs)) [
          | inl taken ↦ rw taken skip_run-IsExclusive
          | inr going ↦ rw going (
              record_run-IsExclusive _ fresh (no_active going)
                (start_run-Starts e.fleet s run_id job_id now))
        ]
    where
      no_active :
          is_forbidden s.concurrency_policy && has_active_job s.schedule_id e.fleet.jobs ≡ false
          → s.schedule_id ≡ id
          → active_runs id e.fleet.jobs e.runs ≡ 0
      no_active going mine =
          let forbids : has_active_job s.schedule_id e.fleet.jobs ≡ false =
            rw (policy mine) at going in
          none_active id e.fleet.jobs e.runs before.all_tied (rw mine at forbids)
