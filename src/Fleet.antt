-- ===== src/Fleet.antt =====
-- src/registry/fleet-scheduler.mjs: the data of fleet jobs. A job has a result for each of its
-- target nodes and a summary that counts the outcomes.
pub mod Target
pub mod Payload
pub mod Dispatch
pub mod Execute
pub mod Submit
pub mod Counting
pub mod Accounting
pub mod Runs
pub mod Termination
pub mod Progress
pub mod Resolution
pub mod Routes
pub mod Scrub
mod Tests
use dsh_orbit.Common.{
  ℕ, ◌+◌, Bool, true, false, Option, none, some, List, [], ◌∷◌, if◌then◌else◌, ◌==◌,
}
use dsh_orbit.Common.Text.{Text}
use Payload.{JsValue}

pub data NodeTaskStatus : Type 0 where
  pending running completed failed timeout unreachable skipped : NodeTaskStatus
  unlisted : Text → NodeTaskStatus

pub data FleetJobStatus : Type 0 where
  pending running completed failed partial : FleetJobStatus

-- What a dispatch resolves to; the error is its code.
pub record Outcome : Type 0 where
  pub status : NodeTaskStatus
  pub exit_code : Option ℕ
  pub stdout : Option Text
  pub stderr : Option Text
  pub error : Option Text

-- The result of one node in a job.
pub record NodeResult : Type 0 where
  pub node_id : Text
  pub outcome : Outcome
  pub reason : Option Text
  pub started_at : Option ℕ
  pub finished_at : Option ℕ
  pub duration_ms : Option ℕ

pub record Summary : Type 0 where
  pub total_targets : ℕ
  pub completed : ℕ
  pub failed : ℕ
  pub skipped : ℕ
  pub timeout : ℕ
  pub unreachable : ℕ

pub record Job : Type 0 where
  pub job_id : Text
  pub task_type : Text
  pub payload : JsValue
  pub required_capabilities : List Text
  pub timeout_ms : Option ℕ
  pub operator_principal : Text
  pub created_at : ℕ
  pub started_at : Option ℕ
  pub finished_at : Option ℕ
  pub status : FleetJobStatus
  pub summary : Summary
  pub results : List (Text × NodeResult)
  pub aborted : Bool

abbrev pub bare : NodeTaskStatus → Option Text → Outcome
bare s code = record { status = s; exit_code = none; stdout = none; stderr = none; error = code }

-- A row of the node table, and an entry of `listNodes`. A capability counts by its name; `none` for
-- stored capabilities that are no JSON.
pub record NodeRow : Type 0 where
  pub state : Text
  pub capabilities_stale : Bool
  pub capabilities : Option (List Text)
  pub route_mode : Text

pub record NodeInfo : Type 0 where
  pub node_id : Text
  pub state : Text
  pub capabilities : List Text
  pub capabilities_stale : Bool

-- What the scheduler uses of the node registry.
pub record Registry : Type 0 where
  pub get_node_row : Text → Option NodeRow
  pub list_nodes : List NodeInfo
