-- ===== src/Schedule/Tests.antt =====
-- Runs of the schedule engine, and its theorems at concrete schedules.
use dsh_orbit.Common.{◌+◌, ◌≡◌, refl, true, false, none, some, [], ◌∷◌, ℕ_discrete}
use dsh_orbit.Common.Text.{Text, Text-discrete, text, text_eq, trim}
use dsh_orbit.Common.JsMap.{get, put}
use dsh_orbit.Flows.{string}
use dsh_orbit.Fleet.Payload.{JsValue, end}
use dsh_orbit.Fleet.Target.{spec, array, is_wildcard}
use dsh_orbit.Fleet.Submit.{Scheduler}
use dsh_orbit.Schedule.{
  interval, once, ScheduleStatus, forbid, skip, TriggerType, Schedule, Engine, Helpers,
  calculate_next_run_at, update,
}
use dsh_orbit.Schedule.Create.{
  Definition, created, schedule_type_of, create_schedule, new_schedule, validate_target,
  matches_schedule_id,
}
use dsh_orbit.Schedule.Dispatch.{dispatch_schedule_run}
use dsh_orbit.Schedule.Loops.{is_due}
use dsh_orbit.Schedule.Bounds.{
  AllHaveRunsLeft, put-AllHaveRunsLeft, IsCurrent, dispatch_schedule_run-AllHaveRunsLeft,
}
use dsh_orbit.Schedule.Timing.{once_never_due}

-- A parser that gives the next minute.
abbrev helpers : Helpers
helpers = record {
  parses = λ e. true;
  next_occurrence = λ e now. some (now + 60000);
  scrub_string = λ s. s;
}

abbrev fleet : Scheduler
fleet = record {
  registry = none;
  max_concurrent_dispatches = 8;
  default_timeout_ms = 30000;
  jobs = [];
}

abbrev empty : Engine
empty = record { schedules = []; runs = []; fleet = fleet; running = true; evaluating = false }

abbrev definition : Text → Definition
definition type = record {
  schedule_id = none;
  name = text " nightly ";
  description = none;
  schedule_type = type;
  cron_expression = none;
  interval_ms = some 1000;
  task_type = text "command";
  payload = JsValue.object end;
  target_spec = spec (record {
    mode = text "explicit";
    node_ids = array (string (text "x") ∷ []);
    capability = none;
  });
  required_capabilities = [];
  timeout_ms = none;
  concurrency_policy = text "forbid";
  missed_run_policy = text "skip";
  max_runs = some 2;
  created_by = text "operator";
}

schedules : Unit {0}
unfolding create_schedule new_schedule validate_target matches_schedule_id calculate_next_run_at
    is_wildcard text_eq trim get put Text-discrete ℕ_discrete update
schedules = tt

abbrev sched : Schedule
sched = record {
  schedule_id = text "s";
  name = text "nightly";
  description = none;
  schedule_type = interval;
  cron_expression = none;
  interval_ms = some 1000;
  task_type = text "command";
  payload = JsValue.object end;
  target_spec = (definition []).target_spec;
  required_capabilities = [];
  timeout_ms = none;
  status = ScheduleStatus.active;
  concurrency_policy = forbid;
  missed_run_policy = skip;
  created_at = 5;
  updated_at = 5;
  created_by = text "operator";
  next_run_at = some 1005;
  last_run_at = none;
  total_runs = 0;
  max_runs = some 2;
}

abbrev filled : Engine
filled = record empty { schedules = (text "s", sched) ∷ [] }

creates :
    create_schedule helpers empty (definition (text "interval")) (text "s") 5 ≡ created filled sched
unfolding schedules
creates = refl

abbrev once_row : Schedule
once_row = record sched { schedule_type = once; next_run_at = none }

creates_once :
    create_schedule helpers empty (definition (text "once")) (text "s") 5
    ≡ created (record empty { schedules = (text "s", once_row) ∷ [] }) once_row
unfolding schedules
creates_once = refl

once_type : schedule_type_of (text "once") ≡ some once
unfolding text_eq
once_type = refl

once_never_due_example : is_due 7 once_row ≡ false
once_never_due_example =
    once_never_due helpers empty (record empty { schedules = (text "s", once_row) ∷ [] })
      (definition (text "once")) (text "s") 5 once_row once_type creates_once 7

sched-IsCurrent : IsCurrent filled.schedules sched
unfolding schedules
sched-IsCurrent = record {
  row = sched;
  there = refl;
  same_status = refl;
  same_total = refl;
  same_max = refl;
}

filled-AllHaveRunsLeft : AllHaveRunsLeft filled.schedules
unfolding schedules
filled-AllHaveRunsLeft = put-AllHaveRunsLeft [] (text "s") sched refl none_yet
  where
    nothing : (s : Schedule) → none ≡ some s → ⊥
    nothing s found = cc

    none_yet : AllHaveRunsLeft []
    none_yet = record { row = λ id s found. absurd (nothing s found) }

abbrev dispatched : Engine
dispatched =
    dispatch_schedule_run helpers filled sched TriggerType.scheduled (text "r") (text "j") 1005

dispatch_schedule_run-AllHaveRunsLeft_example : AllHaveRunsLeft dispatched.schedules
dispatch_schedule_run-AllHaveRunsLeft_example =
    dispatch_schedule_run-AllHaveRunsLeft helpers filled sched TriggerType.scheduled (text "r")
      (text "j") 1005 sched-IsCurrent filled-AllHaveRunsLeft
