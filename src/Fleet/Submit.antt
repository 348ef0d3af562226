-- ===== src/Fleet/Submit.antt =====
-- `submitJob` and the queries of src/registry/fleet-scheduler.mjs. The abort controller is the flag
-- `aborted`; the credentials that `getJob` blanks out are left out.
use dsh_orbit.Common.{
  ℕ, Bool, true, false, ◌&&◌, ◌||◌, Option, none, some, List, [], ◌∷◌, ltb, ◌==◌, if◌then◌else◌,
  length, any, all, min, max,
}
use dsh_orbit.Common.Text.{Text, Text-discrete, text, text_eq}
use dsh_orbit.Common.JsMap.{get, put}
use dsh_orbit.Flows.{is_hex}
use dsh_orbit.Fleet.{FleetJobStatus, NodeResult, Job, Registry}
use dsh_orbit.Fleet.Payload.{
  JsValue, object, string, valid_json_payload, json_clone, get_field, payload_timeout,
}
use dsh_orbit.Fleet.Target.{
  SpecValue, SpecError, Resolved, resolved, rejected, validate_fleet_target_spec,
}
use dsh_orbit.Fleet.Execute.{Execution, blank, begin_execution}

pub record Scheduler : Type 0 where
  pub registry : Option Registry
  pub max_concurrent_dispatches : ℕ
  pub default_timeout_ms : ℕ
  pub jobs : List (Text × Execution)

-- The constructor.
unfoldable pub create :
    Option Registry → (max_concurrent_dispatches default_timeout_ms : ℕ) → Scheduler
create registry dispatches timeout = record {
  registry = registry;
  max_concurrent_dispatches = max 1 (min 128 dispatches);
  default_timeout_ms = max 100 timeout;
  jobs = [];
}

pub data SubmitError : Type 0 where
  invalid_job_id invalid_task_type invalid_payload : SubmitError
  invalid_target : SpecError → SubmitError

pub data Submitted : Type 0 where
  known : Execution → Submitted
  begun : Scheduler → Execution → Submitted
  refused : SubmitError → Submitted

pub record Request : Type 0 where
  pub job_id : Option Text
  pub task_type : Text
  pub payload : JsValue
  pub target_spec : SpecValue
  pub required_capabilities : List Text
  pub timeout_ms : Option ℕ
  pub operator_principal : Text

-- `JOB_ID_PATTERN`.
unfoldable pub matches_job_id : Text → Bool
unfolding is_hex
matches_job_id (j ∷ o ∷ b ∷ u ∷ s) =
    text_eq (j ∷ o ∷ b ∷ u ∷ []) (text "job_") && length s == 32 && all is_hex s
matches_job_id _ = false

abbrev pub allowed_task_types : List Text
allowed_task_types =
    text "command" ∷ text "diagnostic" ∷ text "health-check" ∷ text "package-audit" ∷ []

abbrev pub is_object : JsValue → Bool
is_object (object fs) = true
is_object _ = false

abbrev pub or_operator : Text → Text
or_operator [] = text "operator"
or_operator (c ∷ s) = c ∷ s

abbrev pub positive_or : Option ℕ → Option ℕ → Option ℕ
positive_or none p = p
positive_or (some n) p = if ltb 0 n then some n else p

abbrev pub blank_results : List Text → List (Text × NodeResult)
blank_results [] = []
blank_results (n ∷ ns) = (n, blank n) ∷ blank_results ns

unfoldable pub new_job : Request → Text → List Text → ℕ → Job
new_job r id nodes now = record {
  job_id = id;
  task_type = r.task_type;
  payload = json_clone r.payload;
  required_capabilities = r.required_capabilities;
  timeout_ms = positive_or r.timeout_ms (payload_timeout (json_clone r.payload));
  operator_principal = or_operator r.operator_principal;
  created_at = now;
  started_at = none;
  finished_at = none;
  status = FleetJobStatus.pending;
  summary = record {
    total_targets = length nodes;
    completed = 0;
    failed = 0;
    skipped = 0;
    timeout = 0;
    unreachable = 0;
  };
  results = blank_results nodes;
  aborted = false;
}

abbrev pub begin : Scheduler → Text → Execution → Submitted
begin s id x = begun (record s { jobs = put Text-discrete id x s.jobs }) x

abbrev pub submit_to : Scheduler → Request → Text → ℕ → Resolved → Submitted
submit_to s r id now (rejected e) = refused (invalid_target e)
submit_to s r id now (resolved nodes) =
    if is_object r.payload && valid_json_payload 0 r.payload
    then begin s id
        (begin_execution s.registry s.max_concurrent_dispatches (new_job r id nodes now) now)
    else refused invalid_payload

unfoldable pub submit_new : Scheduler → Request → Text → ℕ → Submitted
unfolding new_job begin_execution validate_fleet_target_spec
submit_new s r id now =
    if any (text_eq r.task_type) allowed_task_types
    then submit_to s r id now (validate_fleet_target_spec s.registry r.target_spec)
    else refused invalid_task_type

abbrev pub submit_known : Scheduler → Request → Text → ℕ → Option Execution → Submitted
submit_known s r id now none = submit_new s r id now
submit_known s r id now (some x) = known x

-- A job id that is given again names the job that is there. `random` is the generated id.
abbrev pub submit_with_id : Scheduler → Request → Text → ℕ → Option Text → Submitted
submit_with_id s r random now none = submit_new s r random now
submit_with_id s r random now (some id) =
    if matches_job_id id
    then submit_known s r id now (get Text-discrete id s.jobs)
    else refused invalid_job_id

unfoldable pub submit_job : Scheduler → Request → Text → ℕ → Submitted
unfolding submit_new matches_job_id
submit_job s r random now = submit_with_id s r random now r.job_id

abbrev pub is_active_status : FleetJobStatus → Bool
is_active_status FleetJobStatus.pending = true
is_active_status FleetJobStatus.running = true
is_active_status _ = false

abbrev pub is_text : Option JsValue → Text → Bool
is_text (some (string s)) t = text_eq s t
is_text _ t = false

unfoldable pub has_active_job : Text → List (Text × Execution) → Bool
has_active_job schedule [] = false
has_active_job schedule ((id, x) ∷ jobs) =
    is_text (get_field (text "_fleetScheduleId") x.job.payload) schedule
      && is_active_status x.job.status
    || has_active_job schedule jobs

unfoldable pub has_active_job_for_schedule : Scheduler → Text → Bool
unfolding has_active_job
has_active_job_for_schedule s schedule = has_active_job schedule s.jobs
