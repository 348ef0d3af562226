-- ===== src/Fleet/Tests.antt =====
-- Runs of the model of src/registry/fleet-scheduler.mjs, and its theorems at concrete jobs.
use dsh_orbit.Common.{
  ℕ, ◌+◌, ◌≤◌, ◌*◌, ◌≡◌, refl, ap, length, sym, ◌∙◌, Bool, true, false, Option, none, some, List,
  [], ◌∷◌, ◌++◌, arith, ℕ_discrete,
}
use dsh_orbit.Common.Text.{
  Text, Text-discrete, text, text_eq, trim, to_lower, includes, starts_with, is_space,
}
use dsh_orbit.Common.JsMap.{get, put}
use dsh_orbit.Flows.{
  string, validate_target_scope, strip_node, is_hex, is_broadcast, normalized, scope_of_trimmed,
  matches_node_id,
}
use dsh_orbit.Fleet.{FleetJobStatus, NodeRow, Registry}
use dsh_orbit.Fleet.Payload.{JsValue, object, field, end}
use dsh_orbit.Fleet.Scrub.{
  scrub_sensitive_credentials, is_sensitive_key, is_sensitive_lower, ends_with, contains, redacted,
  IsClean, scrubbed-IsClean,
}
use dsh_orbit.Fleet.Target.{
  array, Spec, SpecValue, spec, resolved, resolve_explicit, is_wildcard, is_found,
  validate_fleet_target_spec,
}
use dsh_orbit.Fleet.Dispatch.{
  resolves, throws, SessionInfo, executed, on_session, reverse_checks, dispatch_to_row,
  default_dispatch,
}
use dsh_orbit.Fleet.Execute.{
  Execution, filter_nodes, skip_reason, begin_execution, task_of, mark_running, claim,
  count_outcome, record_outcome, pick, settle, cancel_results, cancel_job, terminal_status,
  computed_total, finish_job, finished,
}
use dsh_orbit.Fleet.Submit.{Request, new_job}
use dsh_orbit.Fleet.Counting.{open_count, occurrences}
use dsh_orbit.Fleet.Accounting.{cancel}
use dsh_orbit.Fleet.Runs.{Event, claims, settles, cancels, step, Runs, stays, after}
use dsh_orbit.Fleet.Termination.{IsQuiet, every_run_balances}
use dsh_orbit.Fleet.Progress.{work_left, total_effort, work_is_bounded, run_can_end}
use dsh_orbit.Fleet.Resolution.{IsTargetSet, explicit_targets}
use dsh_orbit.Fleet.Routes.{Reaches, reverse_dispatch}

abbrev node : Text
node = text "node_" ++ hex
  where
    hex : Text
    hex = text "0123456789abcdef0123456789abcdef"

abbrev request : Request
request = record {
  job_id = none;
  task_type = text "command";
  payload = JsValue.null;
  target_spec = SpecValue.bare_star;
  required_capabilities = [];
  timeout_ms = none;
  operator_principal = [];
}

abbrev nodes : List Text
nodes = text "a" ∷ text "bb" ∷ []

single : (n : Text) → occurrences n nodes ≤ 1
unfolding occurrences
single n = elim (Text-discrete (text "a") n) [
  | yes a ↦ elim (Text-discrete (text "bb") n) [
    | yes b ↦ absurd (a_not_b (a ∙ sym b))
    | no b ↦ ground arith
  ]
  | no a ↦ elim (Text-discrete (text "bb") n) [ yes b ↦ ground arith | no b ↦ ground arith ]
]
  where
    a_not_b : text "a" ≡ text "bb" → ⊥
    a_not_b e = let sizes = ap length e in absurd (omega arith)

abbrev start : Execution
start = begin_execution none 1 (new_job request (text "job") nodes 5) 6

-- One node completes, then the job is cancelled.
abbrev events : List Event
events =
    claims 7
    ∷ settles 0 (resolves executed) 9
    ∷ claims 10
    ∷ cancels 11
    ∷ settles 0 (throws none) 12
    ∷ claims 13
    ∷ []

run : Execution → List Event → Option Execution
unfolding step
run x [] = some x
run x (e ∷ es) = elim (step x e) [ none ↦ none | some y ↦ run y es ]

abbrev after_all : Execution
after_all = from (run start events)
  where
    from : Option Execution → Execution
    from none = start
    from (some x) = x

fleet : Unit {0}
unfolding begin_execution filter_nodes skip_reason new_job run step claim settle mark_running
    task_of record_outcome count_outcome pick cancel cancel_job cancel_results finish_job
    terminal_status computed_total open_count get put Text-discrete ℕ_discrete
fleet = tt

cancelled_job :
    (after_all.job.status ≡ FleetJobStatus.failed)
    × (after_all.job.summary.completed ≡ 1)
    × (after_all.job.summary.failed ≡ 1)
    × (after_all.in_flight ≡ [])
    × (after_all.free ≡ 0)
unfolding fleet
cancelled_job = (refl, refl, refl, refl, refl)

the_run : Runs start after_all 6
unfolding fleet
the_run =
    after (claims 13)
      (after (settles 0 (throws none) 12)
        (after (cancels 11)
          (after (claims 10)
            (after (settles 0 (resolves executed) 9) (after (claims 7) stays tt refl) refl refl) tt
            refl)
          tt refl)
        refl refl)
      tt refl

quiet : IsQuiet after_all
unfolding fleet
quiet = record { no_worker = refl; no_flight = refl }

every_run_balances_example :
    (finish_job after_all.job 14
      ≡ finished (record (after_all.job) {
        finished_at = some 14;
        status = terminal_status after_all.job;
      }))
    × (open_count after_all.job.results ≡ 0)
every_run_balances_example =
    every_run_balances none 1 6 request (text "job") nodes 5 single (omega arith) after_all 6 14
      the_run quiet

work_is_bounded_example : total_effort the_run + work_left after_all ≤ work_left start
work_is_bounded_example = work_is_bounded start after_all 6 the_run

run_can_end_example : (z : Execution) × (m : ℕ) × Runs start z m × IsQuiet z
run_can_end_example = run_can_end start start 0 stays

abbrev row : NodeRow
row = record {
  state = text "active";
  capabilities_stale = false;
  capabilities = some [];
  route_mode = text "reverse";
}

abbrev rows : Text → Option NodeRow
rows n = some row

abbrev registry : Registry
registry = record { get_node_row = rows; list_nodes = [] }

abbrev twice : Spec
twice = record {
  mode = text "explicit";
  node_ids = array (string node ∷ string (text "0123456789abcdef0123456789abcdef") ∷ []);
  capability = none;
}

resolves_once : validate_fleet_target_spec (some registry) (spec twice) ≡ resolved (node ∷ [])
unfolding validate_fleet_target_spec is_wildcard resolve_explicit is_found validate_target_scope
    strip_node is_hex is_broadcast normalized scope_of_trimmed matches_node_id trim to_lower
    includes starts_with is_space text_eq
resolves_once = refl

explicit_targets_example : IsTargetSet (some registry) (node ∷ [])
explicit_targets_example = explicit_targets (some registry) twice (node ∷ []) refl resolves_once

abbrev session : Text → Option SessionInfo
session n = some (record { reverse_session_id = text "s"; route_ready = true })

abbrev has_channel : Text → Text → Bool
has_channel n s = true

reverse_dispatch_example : (100 ≤ 32 * 1024) × Reaches session has_channel node
unfolding default_dispatch dispatch_to_row reverse_checks on_session text_eq
reverse_dispatch_example = reverse_dispatch registry row session has_channel node 100 refl refl refl

no_scrub : Text → Text
no_scrub s = s

hides_token :
    scrub_sensitive_credentials no_scrub (
      object
        (field (text "API_Key") (JsValue.number 1) (field (text "nodeId") (JsValue.number 2) end)))
    ≡ object (field (text "API_Key") redacted (field (text "nodeId") (JsValue.number 2) end))
unfolding scrub_sensitive_credentials is_sensitive_key is_sensitive_lower to_lower text_eq
    starts_with ends_with contains
hides_token = refl

scrubbed-IsClean_example :
    IsClean (scrub_sensitive_credentials no_scrub (object (field (text "token") JsValue.null end)))
scrubbed-IsClean_example =
    scrubbed-IsClean no_scrub (object (field (text "token") JsValue.null end))
