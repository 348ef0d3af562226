-- ===== src/Schedule/Dispatch.antt =====
-- `dispatchScheduleRun` of src/registry/schedule-engine.mjs, and the update of a run when its job ends.
-- The listener that is told of a dispatch, the summaries and the messages of errors are left out.
use dsh_orbit.Common.{
  ℕ, ◌+◌, ◌-◌, Bool, true, false, ◌&&◌, Option, none, some, [], ◌∷◌, ◌++◌, ltb, leb, if◌then◌else◌,
  map,
}
use dsh_orbit.Common.Text.{Text, text, text_eq}
use dsh_orbit.Fleet.{FleetJobStatus, Job}
use dsh_orbit.Fleet.Payload.{JsValue, object, string, JsFields, end, field}
use dsh_orbit.Fleet.Target.{SpecError}
use dsh_orbit.Fleet.Submit.{
  Scheduler, Request, Submitted, known, begun, refused, SubmitError, submit_job,
  has_active_job_for_schedule,
}
use dsh_orbit.Schedule.{
  ScheduleStatus, ConcurrencyPolicy, forbid, allow, TriggerType, RunStatus, Schedule, Run, Engine,
  Helpers, NextRun, next_at, throws, next_run_of, update,
}

-- A property of an object literal that follows a spread: the value of an existing key is replaced.
unfoldable pub set_field : Text → JsValue → JsFields → JsFields
set_field k v end = field k v end
set_field k v (field j w fs) =
    let rest = set_field k v fs in if text_eq j k then field j v fs else field j w rest

abbrev pub fields_of : JsValue → JsFields
fields_of (object fs) = fs
fields_of _ = end

-- `clonedPayload`; the payload of a schedule is an object, or null for none.
unfoldable pub tagged_payload : Schedule → Text → JsValue
unfolding set_field
tagged_payload s run_id = object (
    set_field (text "_fleetScheduleRunId") (string run_id)
      (set_field (text "_fleetScheduleId") (string s.schedule_id) (fields_of s.payload)))

unfoldable pub job_request : Schedule → Text → Request
unfolding tagged_payload
job_request s run_id = record {
  job_id = none;
  task_type = s.task_type;
  payload = tagged_payload s run_id;
  target_spec = s.target_spec;
  required_capabilities = s.required_capabilities;
  timeout_ms = s.timeout_ms;
  operator_principal = text "schedule:" ++ s.created_by;
}

-- The next run of the row, and its status if the calculation throws.
abbrev pub next_columns : NextRun → ScheduleStatus → ScheduleStatus × Option ℕ
next_columns throws status = (ScheduleStatus.error, none)
next_columns (next_at t) status = (status, t)

unfoldable pub skip_columns : Helpers → Schedule → ℕ → ScheduleStatus × Option ℕ
skip_columns c s now = next_columns (next_run_of c s now) s.status

abbrev pub runs_out : Option ℕ → ℕ → Bool
runs_out none total = false
runs_out (some max) total = ltb 0 max && leb max total

-- Step "metrics": a schedule that has had its last run is completed.
unfoldable pub run_columns : Helpers → Schedule → ℕ → ScheduleStatus × Option ℕ
run_columns c s now =
    if runs_out s.max_runs (s.total_runs + 1)
    then (ScheduleStatus.completed, none)
    else next_columns (next_run_of c s now) s.status

-- The update of a row that was skipped, and of one that was run.
abbrev pub set_skipped : ScheduleStatus × Option ℕ → ℕ → Schedule → Schedule
set_skipped (status, next) now row = record row {
  status = status;
  next_run_at = next;
  updated_at = now;
}

abbrev pub set_run : ScheduleStatus × Option ℕ → ℕ → ℕ → Schedule → Schedule
set_run (status, next) total now row = record row {
  total_runs = total;
  last_run_at = some now;
  next_run_at = next;
  status = status;
  updated_at = now;
}

abbrev pub new_run : Text → Schedule → Option Text → TriggerType → RunStatus → Option Text → ℕ → Run
new_run run_id s job trigger status code now = record {
  run_id = run_id;
  schedule_id = s.schedule_id;
  job_id = job;
  triggered_at = now;
  trigger_type = trigger;
  status = status;
  duration_ms = none;
  error_code = code;
}

unfoldable pub skip_run : Helpers → Engine → Schedule → TriggerType → Text → ℕ → Engine
unfolding skip_columns update
skip_run c e s trigger run_id now = record e {
  runs =
      e.runs
      ++ new_run run_id s none trigger RunStatus.skipped (some (text "concurrency-forbid")) now
        ∷ [];
  schedules = update s.schedule_id (set_skipped (skip_columns c s now) now) e.schedules;
}

-- `err.code` of a submission that throws.
abbrev pub target_code : SpecError → Text
target_code SpecError.wildcard_prohibited = text "wildcard-prohibited"
target_code SpecError.invalid_target_spec = text "invalid-target-spec"
target_code SpecError.empty_target_set = text "empty-target-set"
target_code SpecError.invalid_target_node = text "invalid-target-node"
target_code SpecError.target_not_found = text "target-not-found"
target_code SpecError.invalid_capability_spec = text "invalid-capability-spec"
target_code SpecError.unknown_target_mode = text "unknown-target-mode"

abbrev pub code_of : SubmitError → Text
code_of SubmitError.invalid_job_id = text "invalid-job-id"
code_of SubmitError.invalid_task_type = text "invalid-task-type"
code_of SubmitError.invalid_payload = text "invalid-payload"
code_of (SubmitError.invalid_target e) = target_code e

-- What the submission gives: the fleet scheduler, the job's id, the status and the error's code.
pub record Submission : Type 0 where
  pub fleet : Scheduler
  pub job_id : Option Text
  pub status : RunStatus
  pub error_code : Option Text

abbrev pub submission : Scheduler → Submitted → Submission
submission fleet (known x) = record {
  fleet = fleet;
  job_id = some x.job.job_id;
  status = RunStatus.dispatched;
  error_code = none;
}
submission fleet (begun fleet' x) = record {
  fleet = fleet';
  job_id = some x.job.job_id;
  status = RunStatus.dispatched;
  error_code = none;
}
submission fleet (refused why) = record {
  fleet = fleet;
  job_id = none;
  status = RunStatus.failed;
  error_code = some (code_of why);
}

unfoldable pub record_run :
    Helpers → Engine → Schedule → TriggerType → Text → ℕ → Submission → Engine
unfolding run_columns update
record_run c e s trigger run_id now sub = record e {
  fleet = sub.fleet;
  runs = e.runs ++ new_run run_id s sub.job_id trigger sub.status sub.error_code now ∷ [];
  schedules =
      update s.schedule_id (set_run (run_columns c s now) (s.total_runs + 1) now) e.schedules;
}

unfoldable pub start_run : Helpers → Engine → Schedule → TriggerType → Text → Text → ℕ → Engine
unfolding record_run job_request submit_job
start_run c e s trigger run_id job_id now =
    record_run c e s trigger run_id now
      (submission e.fleet (submit_job e.fleet (job_request s run_id) job_id now))

abbrev pub is_forbidden : ConcurrencyPolicy → Bool
is_forbidden forbid = true
is_forbidden allow = false

-- `run_id` and `job_id` are the generated ids.
unfoldable pub dispatch_schedule_run :
    Helpers → Engine → Schedule → TriggerType → Text → Text → ℕ → Engine
unfolding skip_run start_run has_active_job_for_schedule
dispatch_schedule_run c e s trigger run_id job_id now =
    if is_forbidden s.concurrency_policy && has_active_job_for_schedule e.fleet s.schedule_id
    then skip_run c e s trigger run_id now
    else start_run c e s trigger run_id job_id now

abbrev pub run_status : FleetJobStatus → RunStatus
run_status FleetJobStatus.completed = RunStatus.completed
run_status FleetJobStatus.failed = RunStatus.failed
run_status FleetJobStatus.partial = RunStatus.partial
run_status _ = RunStatus.failed

abbrev pub duration : Option ℕ → Option ℕ → Option ℕ
duration (some finished) (some started) = some (finished - started)
duration _ _ = none

-- The run of a job that has ended. The table takes no `pending` or `running`: such a row is failed.
unfoldable pub job_ended : Engine → Text → Job → Engine
job_ended e run_id job = record e {
  runs =
      map
        (λ r.
          if text_eq r.run_id run_id
          then record r {
            status = run_status job.status;
            duration_ms = duration job.finished_at job.started_at;
          }
          else r)
        e.runs;
}
