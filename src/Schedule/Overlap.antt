-- ===== src/Schedule/Overlap.antt =====
-- The concurrency policy `forbid` of src/registry/schedule-engine.mjs, over sequences of dispatches and of what
-- happens to their jobs.
mod Tests
use dsh_orbit.Common.{
  ℕ, ◌+◌, ◌≤◌, ◌≡◌, ◌≢◌, refl, sym, ap, ◌∙◌, ◌⊎◌, inl, inr, Bool, true, false, ◌&&◌, Option, none,
  some, List, [], ◌∷◌, ◌++◌, arith, if◌then◌else◌, Bool-cases, Option-cases, any, map, All,
}
use mathlib.Core.Option.{some-injective}
use dsh_orbit.Common.Text.{Text, Text-discrete, text, text_eq}
use dsh_orbit.Common.JsMap.{get, put, get-put_self}
use dsh_orbit.Flows.Scope.{text_eq→eq}
use dsh_orbit.Fleet.{Job}
use dsh_orbit.Fleet.Payload.{get_field, valid_json_payload, json_clone}
use dsh_orbit.Fleet.Target.{Resolved, resolved, rejected, validate_fleet_target_spec}
use dsh_orbit.Fleet.Execute.{Execution, begin_execution, finish_job}
use dsh_orbit.Fleet.Runs.{Event, step}
use dsh_orbit.Fleet.Submit.{
  Scheduler, Request, Submitted, is_text, is_object, allowed_task_types, new_job, submit_to,
  submit_new, submit_job, has_active_job, has_active_job_for_schedule,
}
use dsh_orbit.Schedule.{forbid, RunStatus, TriggerType, Schedule, Run, Engine, Helpers}
use dsh_orbit.Schedule.Dispatch.{
  is_forbidden, Submission, submission, job_request, new_run, skip_run, record_run, start_run,
  dispatch_schedule_run, job_ended, run_status, duration,
}
use dsh_orbit.Schedule.Tagged.{tagged_payload-carries, begin_execution-IsOf, text_eq_same}
use dsh_orbit.Schedule.JobRuns.{
  Jobs, active_in, active_runs, active_runs-append, run_weight, Tied, AllTied, AllTied-append,
  Follows, AllFollow, AllFollow-tied, AllFollow-fewer, none_active,
}
use dsh_orbit.Schedule.Calmer.{ended, Old, put-Follows, step-Calmer, finish_job-Calmer}
use dsh_orbit.Schedule.Exclusive.{IsFreshJob, IsExclusive, known_follow, dispatch-IsExclusive}

abbrev pub with_job : Engine → Text → Execution → Engine
with_job e k x = record e { fleet = record (e.fleet) { jobs = put Text-discrete k x e.fleet.jobs } }

-- A step of the program: a dispatch of any schedule by any trigger, which takes the policy `forbid` if it is one
-- of the schedule `id`; a step of the workers of a job, or its cancellation; the end of a job; and the update of
-- a run when its job has ended.
pub data Step (id : Text) (e : Engine) : Engine → Type 0 where
  dispatches :
      (c : Helpers) (s : Schedule) (trigger : TriggerType) (run_id job_id : Text) (now : ℕ)
      → (s.schedule_id ≡ id → s.concurrency_policy ≡ forbid)
      → IsFreshJob job_id e.runs
      → Step id e (dispatch_schedule_run c e s trigger run_id job_id now)
  works :
      (k : Text) (x y : Execution) (event : Event)
      → get Text-discrete k e.fleet.jobs ≡ some x
      → step x event ≡ some y
      → Step id e (with_job e k y)
  finishes :
      (k : Text) (x : Execution) (later : ℕ)
      → get Text-discrete k e.fleet.jobs ≡ some x
      → Step id e (with_job e k (record x { job = ended (finish_job x.job later) }))
  updates : (run_id : Text) (job : Job) → Step id e (job_ended e run_id job)

pub data Steps (id : Text) (e : Engine) : Engine → Type 0 where
  start : Steps id e e
  then_step : {f g : Engine} → Steps id e f → Step id f g → Steps id e g

moved-IsExclusive :
    (id : Text) (e : Engine) (k : Text) (y : Execution)
    → Old e.fleet.jobs k y
    → IsExclusive id e
    → IsExclusive id (with_job e k y)
moved-IsExclusive id e k y old before = record {
  at_most_one = omega (arith, before.at_most_one, AllFollow-fewer id e.fleet.jobs _ e.runs follow);
  all_tied = AllFollow-tied e.fleet.jobs _ e.runs follow before.all_tied;
}
  where
    follow : AllFollow e.fleet.jobs (put Text-discrete k y e.fleet.jobs) e.runs
    follow = known_follow e.fleet.jobs k y e.runs old

-- An update of the runs that leaves their schedules and their jobs alone.
record IsSameRun (r q : Run) : Type 0 where
  same_schedule : q.schedule_id ≡ r.schedule_id
  same_job : q.job_id ≡ r.job_id

module _ (id : Text) (jobs : Jobs) (f : Run → Run) (same : (r : Run) → IsSameRun r (f r)) where
  active_runs-map : (runs : List Run) → active_runs id jobs (map f runs) ≡ active_runs id jobs runs
  unfolding active_runs
  active_runs-map [] = refl
  active_runs-map (r ∷ runs) =
      rw ((same r).same_schedule, (same r).same_job, active_runs-map runs) refl

  AllTied-map : (runs : List Run) → AllTied jobs runs → AllTied jobs (map f runs)
  AllTied-map [] h = tt
  AllTied-map (r ∷ runs) (t, h) = (
    (λ j x e there. rw (same r).same_schedule (t j x (sym (same r).same_job ∙ e) there)),
    AllTied-map runs h,
  )

updated-IsExclusive :
    (id : Text) (e : Engine) (run_id : Text) (job : Job)
    → IsExclusive id e
    → IsExclusive id (job_ended e run_id job)
unfolding job_ended
updated-IsExclusive id e run_id job before = record {
  at_most_one = rw (active_runs-map id e.fleet.jobs _ same e.runs) before.at_most_one;
  all_tied = AllTied-map id e.fleet.jobs _ same e.runs before.all_tied;
}
  where
    same :
        (r : Run)
        → IsSameRun r (
            if text_eq r.run_id run_id
            then record r {
              status = run_status job.status;
              duration_ms = duration job.finished_at job.started_at;
            }
            else r)
    same r = elim (Bool-cases (text_eq r.run_id run_id)) [
      | inl h ↦ simp h (record { same_schedule = refl; same_job = refl })
      | inr h ↦ simp h (record { same_schedule = refl; same_job = refl })
    ]

Step-IsExclusive : (id : Text) (e f : Engine) → Step id e f → IsExclusive id e → IsExclusive id f
Step-IsExclusive id e _ (dispatches c s trigger run_id job_id now policy fresh) before =
    dispatch-IsExclusive c e s trigger run_id job_id now id before policy fresh
Step-IsExclusive id e _ (works k x y event there h) before =
    moved-IsExclusive id e k y (x, there, step-Calmer x y event h) before
Step-IsExclusive id e _ (finishes k x later there) before =
    moved-IsExclusive id e k _ (x, there, finish_job-Calmer x.job later) before
Step-IsExclusive id e _ (updates run_id job) before = updated-IsExclusive id e run_id job before

Steps-IsExclusive : (id : Text) (e f : Engine) → Steps id e f → IsExclusive id e → IsExclusive id f
Steps-IsExclusive id e _ start before = before
Steps-IsExclusive id e f (then_step steps last) before =
    Step-IsExclusive id _ f last (Steps-IsExclusive id e _ steps before)

no_jobs-active : (id : Text) (runs : List Run) → active_runs id [] runs ≡ 0
unfolding active_runs get
no_jobs-active id [] = refl
no_jobs-active id (r ∷ runs) = elim (Option-cases r.job_id) [
  | inl none_given ↦ rw (none_given, no_jobs-active id runs) (ground arith)
  | inr (j, given) ↦ rw (given, no_jobs-active id runs) (ground arith)
]

no_jobs-AllTied : (runs : List Run) → AllTied [] runs
unfolding get
no_jobs-AllTied [] = tt
no_jobs-AllTied (r ∷ runs) = ((λ j x e there. cc), no_jobs-AllTied runs)

no_jobs-IsExclusive : (id : Text) (e : Engine) → e.fleet.jobs ≡ [] → IsExclusive id e
no_jobs-IsExclusive id e none_yet = record {
  at_most_one = rw none_yet (omega (arith, no_jobs-active id e.runs));
  all_tied = rw none_yet (no_jobs-AllTied e.runs);
}

-- A schedule with the policy `forbid` never has two runs whose jobs are pending or running: after a start of the
-- scheduler without jobs, in every order of dispatches of the schedules, steps and ends of their jobs and updates
-- of their runs, at most one run in the table has such a job. The job of a dispatch gets a new id.
pub forbid_no_overlap :
    (id : Text) (e f : Engine)
    → e.fleet.jobs ≡ []
    → Steps id e f
    → active_runs id f.fleet.jobs f.runs ≤ 1
forbid_no_overlap id e f none_yet steps =
    (Steps-IsExclusive id e f steps (no_jobs-IsExclusive id e none_yet)).at_most_one
