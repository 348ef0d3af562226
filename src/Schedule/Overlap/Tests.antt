-- ===== src/Schedule/Overlap/Tests.antt =====
-- The policy `forbid` of src/registry/schedule-engine.mjs on two dispatches of one schedule.
use dsh_orbit.Common.{◌+◌, true, ◌≤◌, ◌≡◌, refl, false, none, some, [], ◌∷◌, map, ℕ_discrete}
use dsh_orbit.Common.Text.{
  Text-discrete, text, text_eq, trim, to_lower, includes, starts_with, is_space,
}
use dsh_orbit.Common.JsMap.{get, put}
use dsh_orbit.Flows.{
  string, validate_target_scope, strip_node, is_hex, is_broadcast, normalized, scope_of_trimmed,
  matches_node_id,
}
use dsh_orbit.Fleet.{NodeRow, Registry}
use dsh_orbit.Fleet.Payload.{JsValue, end, valid_json_payload, json_clone, get_field, find_field}
use dsh_orbit.Fleet.Target.{
  spec, array, is_wildcard, is_found, resolve_explicit, validate_fleet_target_spec,
}
use dsh_orbit.Fleet.Execute.{skip_reason, filter_nodes, begin_execution}
use dsh_orbit.Fleet.Submit.{
  matches_job_id, new_job, submit_new, submit_job, has_active_job, has_active_job_for_schedule,
}
use dsh_orbit.Schedule.{
  interval, ScheduleStatus, forbid, skip, TriggerType, Schedule, Engine, Helpers,
  calculate_next_run_at, update,
}
use dsh_orbit.Schedule.Dispatch.{
  set_field, tagged_payload, job_request, skip_columns, run_columns, skip_run, record_run,
  start_run, dispatch_schedule_run,
}
use dsh_orbit.Schedule.JobRuns.{active_runs}
use dsh_orbit.Schedule.Exclusive.{IsFreshJob}
use dsh_orbit.Schedule.Overlap.{start, then_step, dispatches, forbid_no_overlap}

abbrev helpers : Helpers
helpers = record {
  parses = λ e. true;
  next_occurrence = λ e now. some (now + 60000);
  scrub_string = λ s. s;
}

abbrev row : NodeRow
row = record {
  state = text "active";
  capabilities_stale = false;
  capabilities = some [];
  route_mode = text "reverse";
}

abbrev registry : Registry
registry = record { get_node_row = λ n. some row; list_nodes = [] }

abbrev sched : Schedule
sched = record {
  schedule_id = text "s";
  name = text "nightly";
  description = none;
  schedule_type = interval;
  cron_expression = none;
  interval_ms = some 1000;
  task_type = text "command";
  payload = JsValue.object end;
  target_spec = spec (record {
    mode = text "explicit";
    node_ids = array (string (text "0123456789abcdef0123456789abcdef") ∷ []);
    capability = none;
  });
  required_capabilities = [];
  timeout_ms = none;
  status = ScheduleStatus.active;
  concurrency_policy = forbid;
  missed_run_policy = skip;
  created_at = 5;
  updated_at = 5;
  created_by = text "operator";
  next_run_at = some 1005;
  last_run_at = none;
  total_runs = 0;
  max_runs = none;
}

abbrev idle : Engine
idle = record {
  schedules = (text "s", sched) ∷ [];
  runs = [];
  fleet = record {
    registry = some registry;
    max_concurrent_dispatches = 8;
    default_timeout_ms = 30000;
    jobs = [];
  };
  running = true;
  evaluating = false;
}

abbrev first_dispatch : Engine
first_dispatch =
    dispatch_schedule_run helpers idle sched TriggerType.scheduled (text "r") (text "j") 1005

abbrev second_dispatch : Engine
second_dispatch =
    dispatch_schedule_run helpers first_dispatch sched TriggerType.manual (text "q") (text "i") 1010

dispatches_run : Unit {0}
unfolding dispatch_schedule_run start_run record_run run_columns skip_run skip_columns update
    calculate_next_run_at has_active_job_for_schedule has_active_job submit_job submit_new new_job
    job_request tagged_payload set_field json_clone get_field find_field begin_execution
    filter_nodes skip_reason valid_json_payload matches_job_id validate_fleet_target_spec
    is_wildcard resolve_explicit is_found validate_target_scope strip_node is_hex is_broadcast
    normalized scope_of_trimmed matches_node_id trim to_lower includes starts_with is_space text_eq
    get put Text-discrete ℕ_discrete
dispatches_run = tt

-- The second dispatch finds the job of the first, and is skipped.
second_skipped : map (λ r. r.job_id) second_dispatch.runs ≡ some (text "j") ∷ none ∷ []
unfolding dispatches_run
second_skipped = refl

one_active : active_runs (text "s") second_dispatch.fleet.jobs second_dispatch.runs ≡ 1
unfolding dispatches_run active_runs
one_active = refl

new_job_id : IsFreshJob (text "i") first_dispatch.runs
unfolding dispatches_run
new_job_id = ((λ h. cc), tt)

forbid_no_overlap_example :
    active_runs (text "s") second_dispatch.fleet.jobs second_dispatch.runs ≤ 1
forbid_no_overlap_example = forbid_no_overlap (text "s") idle second_dispatch refl (
    then_step
      (then_step start
        (dispatches helpers sched TriggerType.scheduled (text "r") (text "j") 1005 (λ e. refl) tt))
      (dispatches helpers sched TriggerType.manual (text "q") (text "i") 1010 (λ e. refl)
        new_job_id))
