-- ===== src/Schedule.antt =====
-- src/registry/schedule-engine.mjs (ScheduledWorkflowEngine): persistent schedules and their runs. The
-- two tables are values of the engine; a time is a number of milliseconds, whose ISO form has the same
-- order up to the year 9999. One call reads one value of the clock.
pub mod Calendar
pub mod Cron
pub mod Create
pub mod Dispatch
pub mod Loops
pub mod Bounds
pub mod Tagged
pub mod JobRuns
pub mod Calmer
pub mod Exclusive
pub mod Overlap
pub mod Timing
mod Tests
use dsh_orbit.Common.{
  ℕ, ◌+◌, Bool, true, false, ◌&&◌, Option, none, some, List, [], ◌∷◌, ltb, if◌then◌else◌,
}
use dsh_orbit.Common.Text.{Text, Text-discrete, text, text_eq, trim}
use dsh_orbit.Common.JsMap.{get, put}
use dsh_orbit.Fleet.Payload.{JsValue}
use dsh_orbit.Fleet.Target.{SpecValue}
use dsh_orbit.Fleet.Scrub.{scrub_sensitive_credentials}
use dsh_orbit.Fleet.Submit.{Scheduler}

pub data ScheduleType : Type 0 where
  cron interval once : ScheduleType

pub data ScheduleStatus : Type 0 where
  active paused completed error : ScheduleStatus

pub data ConcurrencyPolicy : Type 0 where
  forbid allow : ConcurrencyPolicy

pub data MissedRunPolicy : Type 0 where
  skip run_once : MissedRunPolicy

pub data TriggerType : Type 0 where
  scheduled manual catch_up : TriggerType

pub data RunStatus : Type 0 where
  dispatched completed failed partial skipped cancelled : RunStatus

-- A row of `fleet_schedules`.
pub record Schedule : Type 0 where
  pub schedule_id : Text
  pub name : Text
  pub description : Option Text
  pub schedule_type : ScheduleType
  pub cron_expression : Option Text
  pub interval_ms : Option ℕ
  pub task_type : Text
  pub payload : JsValue
  pub target_spec : SpecValue
  pub required_capabilities : List Text
  pub timeout_ms : Option ℕ
  pub status : ScheduleStatus
  pub concurrency_policy : ConcurrencyPolicy
  pub missed_run_policy : MissedRunPolicy
  pub created_at : ℕ
  pub updated_at : ℕ
  pub created_by : Text
  pub next_run_at : Option ℕ
  pub last_run_at : Option ℕ
  pub total_runs : ℕ
  pub max_runs : Option ℕ

-- A row of `fleet_schedule_runs`; the error is its code.
pub record Run : Type 0 where
  pub run_id : Text
  pub schedule_id : Text
  pub job_id : Option Text
  pub triggered_at : ℕ
  pub trigger_type : TriggerType
  pub status : RunStatus
  pub duration_ms : Option ℕ
  pub error_code : Option Text

pub record Engine : Type 0 where
  pub schedules : List (Text × Schedule)
  pub runs : List Run
  pub fleet : Scheduler
  pub running : Bool
  pub evaluating : Bool

-- What the engine uses of other modules. Of src/registry/schedule-parser.mjs: whether a cron expression
-- parses, and its next occurrence after a time, `none` where the call throws. Of
-- src/registry/fleet-scheduler.mjs: the patterns of `scrubString`.
pub record Helpers : Type 0 where
  pub parses : Text → Bool
  pub next_occurrence : Text → ℕ → Option ℕ
  pub scrub_string : Text → Text

pub data NextRun : Type 0 where
  next_at : Option ℕ → NextRun
  throws : NextRun

abbrev pub found_next : Option ℕ → NextRun
found_next none = throws
found_next (some t) = next_at (some t)

abbrev pub cron_next : Helpers → Option Text → ℕ → NextRun
cron_next c none now = throws
cron_next c (some e) now = found_next (c.next_occurrence e now)

-- `getNextIntervalOccurrence`.
abbrev pub interval_next : Option ℕ → ℕ → NextRun
interval_next none now = throws
interval_next (some ms) now = if ltb ms 1000 then throws else next_at (some (now + ms))

-- `calculateNextRunAt`, by the columns that it reads.
unfoldable pub calculate_next_run_at : Helpers → ScheduleType → Option Text → Option ℕ → ℕ → NextRun
calculate_next_run_at c cron expression ms now = cron_next c expression now
calculate_next_run_at c interval expression ms now = interval_next ms now
calculate_next_run_at c once expression ms now = next_at none

abbrev pub next_run_of : Helpers → Schedule → ℕ → NextRun
next_run_of c s now = calculate_next_run_at c s.schedule_type s.cron_expression s.interval_ms now

-- `hydrateScheduleRow`: the payload of a row is scrubbed.
unfoldable pub hydrate_schedule_row : Helpers → Schedule → Schedule
unfolding scrub_sensitive_credentials
hydrate_schedule_row c row = record row {
  payload = scrub_sensitive_credentials c.scrub_string row.payload;
}

-- `UPDATE fleet_schedules SET ... WHERE schedule_id = ?`
abbrev pub update_row :
    Text → (Schedule → Schedule) → List (Text × Schedule) → Option Schedule → List (Text × Schedule)
update_row id f table none = table
update_row id f table (some s) = put Text-discrete id (f s) table

unfoldable pub update :
    Text → (Schedule → Schedule) → List (Text × Schedule) → List (Text × Schedule)
update id f table = update_row id f table (get Text-discrete id table)
