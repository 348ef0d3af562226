-- ===== src/Schedule/Cron/Tests.antt =====
-- Cron expressions of src/registry/schedule-parser.mjs on concrete texts and times.
use dsh_orbit.Common.{
  ℕ, ◌+◌, ◌-◌, ◌*◌, ◌≡◌, ◌↔◌, refl, inl, inr, true, false, ◌&&◌, Option, none, some, [], ◌∷◌, leb,
  if◌then◌else◌, arith, ℕ_discrete,
}
use dsh_orbit.Common.Text.{Text, Text-discrete, text, text_eq, trim, split, is_space}
use dsh_orbit.Common.JsMap.{get, put}
use dsh_orbit.Flows.{string}
use dsh_orbit.Fleet.Payload.{JsValue, end}
use dsh_orbit.Fleet.Target.{spec, array}
use dsh_orbit.Fleet.Submit.{has_active_job, has_active_job_for_schedule}
use dsh_orbit.Schedule.{
  ScheduleType, ScheduleStatus, forbid, skip, TriggerType, Schedule, Engine, calculate_next_run_at,
  update,
}
use dsh_orbit.Schedule.Dispatch.{dispatch_schedule_run, start_run, record_run, run_columns}
use dsh_orbit.Schedule.Loops.{is_due}
use dsh_orbit.Schedule.Bounds.{IsCurrent}
use dsh_orbit.Schedule.Calendar.{date_of, date_at}
use dsh_orbit.Schedule.Cron.{
  invalid_cron_step, invalid_cron_bounds, invalid_cron_range, invalid_cron_fields_count, Numeral,
  no_integer, natural, Cron, parse_cron_field, parse_cron_expression, first_minute, next_minute,
  get_next_cron_occurrence,
}
use dsh_orbit.Schedule.Cron.Steps.{IsIn}
use dsh_orbit.Schedule.Cron.Meaning.{SomeMeans, parse_cron_field_lem}
use dsh_orbit.Schedule.Cron.Search.{Least, next_minute-Least}
use dsh_orbit.Schedule.Cron.Parser.{cron_helpers, next_of, never_dispatched_twice}

-- Digits; what else `Number` accepts is left out here.
abbrev digits_of : ℕ → Text → Numeral
digits_of n [] = natural n
digits_of n (c ∷ s) =
    let rest = digits_of (n * 10 + (c - b'0')) s in
    if leb b'0' c && leb c b'9' then rest else no_integer

abbrev number : Text → Numeral
number s = digits_of 0 s

parser : Unit {0}
unfolding parse_cron_field parse_cron_expression get_next_cron_occurrence date_of text_eq trim split
    is_space
parser = tt

weekdays : parse_cron_field number (text "1-5") 0 6 true ≡ inr (1 ∷ 2 ∷ 3 ∷ 4 ∷ 5 ∷ [])
unfolding parser
weekdays = refl

sundays : parse_cron_field number (text "5-7,*/3") 0 6 true ≡ inr (5 ∷ 6 ∷ 0 ∷ 3 ∷ [])
unfolding parser
sundays = refl

stepped_number : parse_cron_field number (text "50/4") 0 59 false ≡ inr (50 ∷ 54 ∷ 58 ∷ [])
unfolding parser
stepped_number = refl

no_step : parse_cron_field number (text "*/0") 0 59 false ≡ inl invalid_cron_step
unfolding parser
no_step = refl

backwards : parse_cron_field number (text "9-5") 0 23 false ≡ inl invalid_cron_bounds
unfolding parser
backwards = refl

half_range : parse_cron_field number (text "9-") 0 23 false ≡ inl invalid_cron_range
unfolding parser
half_range = refl

four_fields : parse_cron_expression number (text "* * * *") ≡ inl invalid_cron_fields_count
unfolding parser
four_fields = refl

abbrev next : Text → ℕ → Option ℕ
next e from = next_of (parse_cron_expression number e) from

-- 1970-01-01 was a Thursday.
office_hours : next (text "*/15 9-17 * * 1-5") 0 ≡ some (9 * 3600000)
unfolding parser
office_hours = refl

next_sunday : next (text " 30 4  * * 7 ") 0 ≡ some ((3 * 24 + 4) * 3600000 + 30 * 60000)
unfolding parser
next_sunday = refl

leap_day : next (text "0 0 29 2 *") 0 ≡ some (789 * 24 * 3600000)
unfolding parser
leap_day = refl

abbrev quarters : Cron
quarters = record {
  raw = text "*/15 * * * *";
  minutes = 0 ∷ 15 ∷ 30 ∷ 45 ∷ [];
  hours = 1 ∷ [];
  doms = 1 ∷ [];
  months = 1 ∷ [];
  dows = 4 ∷ [];
}

next_minute-Least_example :
    Least quarters
      ((date_at (first_minute 61000)).year + 5)
      (first_minute 61000)
      (next_minute quarters 61000)
next_minute-Least_example = next_minute-Least quarters 61000

parse_cron_field_lem_example :
    IsIn 0 (5 ∷ 6 ∷ 0 ∷ 3 ∷ []) ↔ SomeMeans number 0 6 true (split b',' (trim (text "5-7,*/3"))) 0
parse_cron_field_lem_example =
    parse_cron_field_lem number 0 6 true (text "5-7,*/3") (5 ∷ 6 ∷ 0 ∷ 3 ∷ []) (omega arith) sundays
      0

abbrev hourly : Schedule
hourly = record {
  schedule_id = text "s";
  name = text "hourly";
  description = none;
  schedule_type = ScheduleType.cron;
  cron_expression = some (text "0 * * * *");
  interval_ms = none;
  task_type = text "command";
  payload = JsValue.object end;
  target_spec = spec (record {
    mode = text "explicit";
    node_ids = array (string (text "x") ∷ []);
    capability = none;
  });
  required_capabilities = [];
  timeout_ms = none;
  status = ScheduleStatus.active;
  concurrency_policy = forbid;
  missed_run_policy = skip;
  created_at = 5;
  updated_at = 5;
  created_by = text "operator";
  next_run_at = some 3600000;
  last_run_at = none;
  total_runs = 0;
  max_runs = none;
}

abbrev engine : Engine
engine = record {
  schedules = (text "s", hourly) ∷ [];
  runs = [];
  fleet = record {
    registry = none;
    max_concurrent_dispatches = 8;
    default_timeout_ms = 30000;
    jobs = [];
  };
  running = true;
  evaluating = false;
}

hourly-IsCurrent : IsCurrent engine.schedules hourly
unfolding get Text-discrete ℕ_discrete
hourly-IsCurrent = record {
  row = hourly;
  there = refl;
  same_status = refl;
  same_total = refl;
  same_max = refl;
}

abbrev after : Schedule
after = record hourly {
  updated_at = 3600000;
  next_run_at = some 7200000;
  last_run_at = some 3600000;
  total_runs = 1;
}

is_after :
    get Text-discrete
      (text "s")
      (dispatch_schedule_run
        (cron_helpers number (λ s. s))
        engine
        hourly
        TriggerType.scheduled
        (text "r")
        (text "j")
        3600000).schedules
    ≡ some after
unfolding parser cron_helpers get put update Text-discrete ℕ_discrete calculate_next_run_at
    dispatch_schedule_run start_run record_run run_columns has_active_job_for_schedule
    has_active_job
is_after = refl

never_dispatched_twice_example : is_due 3600000 after ≡ false
never_dispatched_twice_example =
    never_dispatched_twice number (λ s. s) engine hourly after TriggerType.scheduled (text "r")
      (text "j") 3600000 hourly-IsCurrent is_after
