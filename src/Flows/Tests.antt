-- ===== src/Flows/Tests.antt =====
-- Runs of the flow tracker, and the theorems at concrete inputs.
use dsh_orbit.Common.{◌+◌, ◌≡◌, refl, none, some, List, [], ◌∷◌, length}
use dsh_orbit.Common.Text.{
  Text, text, Text-discrete, trim, text_eq, to_lower, includes, starts_with,
}
use dsh_orbit.Common.JsMap.{get, put, remove}
use dsh_orbit.Flows.{
  Tracker, tracked, refused, at, new_tracker, string, acts, invalid_action, in_scope,
  invalid_target_scope, validate_target_scope, validate_scoped_action, track_flow, end_flow,
  get_active_flow_count, node_flow_capacity_exceeded, add_flow,
}
use dsh_orbit.Flows.Scope.{IsNodeId, validate_target_scope_idempotent}
use dsh_orbit.Flows.Accounting.{Inv, WithinLimit}
use dsh_orbit.Flows.Operations.{Op, tracks, ends, step, run, run-Inv, track_flow-limit}
use dsh_orbit.Flows.RoundTrip.{end_flow-track_flow}

flows : Unit {0}
unfolding new_tracker validate_target_scope validate_scoped_action track_flow end_flow
    get_active_flow_count get put remove Text-discrete trim text_eq to_lower includes starts_with
    run step
flows = tt

abbrev hex : Text
hex = text "00112233445566778899aabbccddeeff"

abbrev node : Text
node = text "node_00112233445566778899aabbccddeeff"

abbrev tracker : Tracker
tracker = new_tracker (at 1) (at 8)

abbrev flow : Text
flow = text "flow_1"

bare_hex : validate_target_scope (string hex) ≡ in_scope node
unfolding flows
bare_hex = refl

wildcards :
    (validate_target_scope (string (text " ALL ")) ≡ invalid_target_scope)
    × (validate_target_scope (string (text "a,b")) ≡ invalid_target_scope)
    × (validate_scoped_action (some (string node, some (text "Open"))) ≡ acts node (text "open"))
    × (validate_scoped_action (some (string node, some (text "reboot"))) ≡ invalid_action)
unfolding flows
wildcards = (refl, refl, refl, refl)

tracked_once :
    track_flow tracker (string hex) (some flow) [] ≡ tracked (add_flow tracker node flow) flow
unfolding flows
tracked_once = refl

full :
    track_flow (add_flow tracker node flow) (string hex) none (text "flow_2")
    ≡ refused node_flow_capacity_exceeded
unfolding flows
full = refl

empty-Inv : Inv tracker
unfolding run
empty-Inv = (run-Inv (at 1) (at 8) []).0

validate_target_scope_idempotent_example :
    IsNodeId node × (validate_target_scope (string node) ≡ in_scope node)
validate_target_scope_idempotent_example =
    validate_target_scope_idempotent (string hex) node bare_hex

abbrev ops : List Op
ops = tracks (string hex) none flow ∷ ends flow ∷ []

run-Inv_example :
    Inv (run (new_tracker (at 1) (at 8)) ops)
    × WithinLimit (length (run (new_tracker (at 1) (at 8)) ops).flow_to_node) (at 8)
run-Inv_example = run-Inv (at 1) (at 8) ops

track_flow-limit_example :
    (get_active_flow_count (add_flow tracker node flow) (string hex)
      ≡ get_active_flow_count tracker (string hex) + 1)
    × WithinLimit (get_active_flow_count (add_flow tracker node flow) (string hex)) (at 1)
unfolding new_tracker
track_flow-limit_example =
    track_flow-limit tracker (add_flow tracker node flow) (string hex) (some flow) [] flow empty-Inv
      tracked_once

end_flow-track_flow_example : end_flow (add_flow tracker node flow) flow ≡ tracker
end_flow-track_flow_example =
    end_flow-track_flow tracker (add_flow tracker node flow) (string hex) (some flow) [] flow
      empty-Inv tracked_once
