-- ===== src/Schedule/Create.antt =====
-- `createSchedule` and `validateTarget` of src/registry/schedule-engine.mjs.
use dsh_orbit.Common.{
  ℕ, Bool, true, false, ◌&&◌, not, Option, none, some, List, [], ◌∷◌, ltb, leb, if◌then◌else◌,
  length, all,
}
use dsh_orbit.Common.Text.{Text, Text-discrete, text, text_eq, trim}
use dsh_orbit.Common.JsMap.{get, put}
use dsh_orbit.Flows.{is_hex}
use dsh_orbit.Fleet.Payload.{JsValue}
use dsh_orbit.Fleet.Target.{
  SpecValue, bare_star, no_object, spec, NodeIds, array, SpecError, wildcard_prohibited,
  invalid_target_spec, empty_target_set, invalid_capability_spec, unknown_target_mode, is_wildcard,
}
use dsh_orbit.Schedule.{
  ScheduleType, cron, interval, once, ScheduleStatus, ConcurrencyPolicy, forbid, allow,
  MissedRunPolicy, skip, run_once, Schedule, Engine, Helpers, NextRun, next_at, throws,
  calculate_next_run_at,
}

pub data TargetCheck : Type 0 where
  valid : TargetCheck
  invalid : SpecError → TargetCheck

abbrev pub check_ids : NodeIds → TargetCheck
check_ids (array (t ∷ ts)) = valid
check_ids _ = invalid empty_target_set

abbrev pub check_name : Text → TargetCheck
check_name [] = invalid invalid_capability_spec
check_name (c ∷ cap) = valid

abbrev pub check_capability : Option Text → TargetCheck
check_capability none = invalid invalid_capability_spec
check_capability (some cap) = check_name (trim cap)

unfoldable pub validate_target : SpecValue → TargetCheck
unfolding is_wildcard trim
validate_target bare_star = invalid wildcard_prohibited
validate_target no_object = invalid invalid_target_spec
validate_target (spec s) =
    if is_wildcard s
    then invalid wildcard_prohibited
    else if text_eq s.mode (text "explicit")
    then check_ids s.node_ids
    else if text_eq s.mode (text "capability")
    then check_capability s.capability
    else invalid unknown_target_mode

-- `SCHEDULE_ID_PATTERN`.
unfoldable pub matches_schedule_id : Text → Bool
unfolding is_hex
matches_schedule_id (s ∷ c ∷ h ∷ e ∷ d ∷ u ∷ t) =
    text_eq (s ∷ c ∷ h ∷ e ∷ d ∷ u ∷ []) (text "sched_")
    && leb 16 (length t)
    && leb (length t) 64
    && all is_hex t
matches_schedule_id _ = false

abbrev pub schedule_type_of : Text → Option ScheduleType
schedule_type_of t =
    if text_eq t (text "cron")
    then some cron
    else if text_eq t (text "interval")
    then some interval
    else if text_eq t (text "once")
    then some once
    else none

abbrev pub concurrency_policy_of : Text → Option ConcurrencyPolicy
concurrency_policy_of t =
    if text_eq t (text "forbid")
    then some forbid
    else if text_eq t (text "allow")
    then some allow
    else none

abbrev pub missed_run_policy_of : Text → Option MissedRunPolicy
missed_run_policy_of t =
    if text_eq t (text "skip")
    then some skip
    else if text_eq t (text "run-once")
    then some run_once
    else none

pub record Definition : Type 0 where
  pub schedule_id : Option Text
  pub name : Text
  pub description : Option Text
  pub schedule_type : Text
  pub cron_expression : Option Text
  pub interval_ms : Option ℕ
  pub task_type : Text
  pub payload : JsValue
  pub target_spec : SpecValue
  pub required_capabilities : List Text
  pub timeout_ms : Option ℕ
  pub concurrency_policy : Text
  pub missed_run_policy : Text
  pub max_runs : Option ℕ
  pub created_by : Text

pub data CreateError : Type 0 where
  invalid_schedule_id invalid_schedule_name invalid_schedule_type : CreateError
  invalid_concurrency_policy invalid_missed_run_policy : CreateError
  schedule_parse_error invalid_interval id_taken : CreateError
  invalid_target : SpecError → CreateError

pub data Created : Type 0 where
  created : Engine → Schedule → Created
  refused : CreateError → Created

abbrev pub trimmed : Option Text → Option Text
trimmed none = none
trimmed (some []) = none
trimmed (some (c ∷ s)) = some (trim (c ∷ s))

abbrev pub id_ok : Option Text → Bool
id_ok none = true
id_ok (some id) = matches_schedule_id id

abbrev pub or_random : Option Text → Text → Text
or_random none random = random
or_random (some id) random = id

abbrev pub is_blank : Text → Bool
is_blank [] = true
is_blank (c ∷ s) = false

-- The checks of a schedule by its type.
abbrev pub cron_check : Helpers → Option Text → Option CreateError
cron_check c none = some schedule_parse_error
cron_check c (some e) = if c.parses e then none else some schedule_parse_error

abbrev pub interval_check : Option ℕ → Option CreateError
interval_check none = some invalid_interval
interval_check (some ms) = if ltb ms 1000 then some invalid_interval else none

abbrev pub type_check : Helpers → ScheduleType → Definition → Option CreateError
type_check c cron d = cron_check c d.cron_expression
type_check c interval d = interval_check d.interval_ms
type_check c once d = none

unfoldable pub new_schedule :
    Definition → Text → ScheduleType → ConcurrencyPolicy → MissedRunPolicy → Option ℕ → ℕ → Schedule
unfolding trim
new_schedule d id type concurrency missed next now = record {
  schedule_id = id;
  name = trim d.name;
  description = trimmed d.description;
  schedule_type = type;
  cron_expression = trimmed d.cron_expression;
  interval_ms = d.interval_ms;
  task_type = d.task_type;
  payload = d.payload;
  target_spec = d.target_spec;
  required_capabilities = d.required_capabilities;
  timeout_ms = d.timeout_ms;
  status = ScheduleStatus.active;
  concurrency_policy = concurrency;
  missed_run_policy = missed;
  created_at = now;
  updated_at = now;
  created_by = d.created_by;
  next_run_at = next;
  last_run_at = none;
  total_runs = 0;
  max_runs = d.max_runs;
}

abbrev pub insert : Engine → Schedule → Option Schedule → Created
insert e s (some taken) = refused id_taken
insert e s none = created (record e { schedules = put Text-discrete s.schedule_id s e.schedules }) s

abbrev pub insert_next :
    Engine
    → Definition
    → Text
    → ScheduleType
    → ConcurrencyPolicy
    → MissedRunPolicy
    → ℕ
    → NextRun
    → Created
insert_next e d id type concurrency missed now throws = refused schedule_parse_error
insert_next e d id type concurrency missed now (next_at next) =
    insert e (new_schedule d id type concurrency missed next now) (get Text-discrete id e.schedules)

abbrev pub create_target :
    Helpers
    → Engine
    → Definition
    → Text
    → ScheduleType
    → ConcurrencyPolicy
    → MissedRunPolicy
    → ℕ
    → TargetCheck
    → Created
create_target c e d id type concurrency missed now (invalid why) = refused (invalid_target why)
create_target c e d id type concurrency missed now valid =
    insert_next e d id type concurrency missed now
      (calculate_next_run_at c type d.cron_expression d.interval_ms now)

abbrev pub create_typed :
    Helpers
    → Engine
    → Definition
    → Text
    → ScheduleType
    → ConcurrencyPolicy
    → MissedRunPolicy
    → ℕ
    → Option CreateError
    → Created
create_typed c e d id type concurrency missed now (some why) = refused why
create_typed c e d id type concurrency missed now none =
    create_target c e d id type concurrency missed now (validate_target d.target_spec)

abbrev pub create_checked :
    Helpers
    → Engine
    → Definition
    → Text
    → ℕ
    → Option ScheduleType
    → Option ConcurrencyPolicy
    → Option MissedRunPolicy
    → Created
create_checked c e d id now none concurrency missed = refused invalid_schedule_type
create_checked c e d id now (some type) none missed = refused invalid_concurrency_policy
create_checked c e d id now (some type) (some concurrency) none = refused invalid_missed_run_policy
create_checked c e d id now (some type) (some concurrency) (some missed) =
    create_typed c e d id type concurrency missed now (type_check c type d)

-- `random` is the generated id.
unfoldable pub create_schedule : Helpers → Engine → Definition → Text → ℕ → Created
unfolding new_schedule validate_target matches_schedule_id calculate_next_run_at
create_schedule c e d random now =
    if not (id_ok d.schedule_id)
    then refused invalid_schedule_id
    else if is_blank (trim d.name)
    then refused invalid_schedule_name
    else create_checked c e d (or_random d.schedule_id random) now
        (schedule_type_of d.schedule_type) (concurrency_policy_of d.concurrency_policy)
        (missed_run_policy_of d.missed_run_policy)
