-- ===== src/Flows/RoundTrip.antt =====
-- `endFlow` of src/registry/flow-tracker.mjs undoes `trackFlow`.
use dsh_orbit.Common.{ℕ, ◌≡◌, refl, inl, inr, Option, none, List, [], ◌∷◌, arith, Option-cases, ◌≢◌}
use dsh_orbit.Common.Text.{Text, Text-discrete, trim}
use dsh_orbit.Common.JsMap.{get, put, get-put_self}
use dsh_orbit.Common.JsMap.Keys.{remove-put_new, put-put_self}
use dsh_orbit.Flows.{
  Tracker, tracked, node_flows, add_flow, track_flow, drop_flow, end_on_node, end_flow, Target,
  string, nothing, other, in_scope, validate_target_scope, scope_of_trimmed, normalized,
}
use dsh_orbit.Flows.Accounting.{Flows, Inv, not_listed}
use dsh_orbit.Flows.Operations.{track_on_node_lem, track_flow_lem}

normalized-ne-nil : (c : ℕ) (s : Text) → normalized (c ∷ s) ≢ []
unfolding normalized
normalized-ne-nil c s = ground arith

scope_cons :
    (target : Target) (node : Text) → validate_target_scope target ≡ in_scope node → node ≢ []
unfolding validate_target_scope scope_of_trimmed
scope_cons nothing node h e = cc
scope_cons other node h e = cc
scope_cons (string s) node h e = go (trim s) h
  where
    go : (u : Text) → scope_of_trimmed u ≡ in_scope node → ⊥
    go [] h' = cc
    go (c ∷ u) h' = ground (arith, normalized-ne-nil c u)

module _ (t : Tracker) (c : ℕ) (rest flow : Text) (v : Inv t)
    (fresh : get Text-discrete flow t.flow_to_node ≡ none) where
  abbrev node : Text
  node = c ∷ rest

  abbrev added : List (Text × Flows)
  added =
      put Text-discrete node (put Text-discrete flow tt (node_flows t node)) t.active_flows_by_node

  drop-added : drop_flow node flow added ≡ t.active_flows_by_node
  unfolding drop_flow node_flows
  drop-added =
      let there =
        get-put_self Text-discrete node (put Text-discrete flow tt (node_flows t node))
          t.active_flows_by_node in
      let back =
        remove-put_new Text-discrete flow tt (node_flows t node)
          (not_listed t.active_flows_by_node t.flow_to_node node flow v fresh node) in
      elim (Option-cases (get Text-discrete node t.active_flows_by_node)) [
        | inl missing ↦
            let gone =
              remove-put_new Text-discrete node (put Text-discrete flow tt [])
                t.active_flows_by_node missing in
            ground arith
        | inr (s, found) ↦
            let some_ = v.never_empty node s found in
            let same =
              put-put_self Text-discrete node (put Text-discrete flow tt s) s t.active_flows_by_node
                found in
            ground arith
      ]

  end_flow-add_flow : end_flow (add_flow t node flow) flow ≡ t
  unfolding end_flow add_flow end_on_node
  end_flow-add_flow =
      rw (get-put_self Text-discrete flow node t.flow_to_node, end_flow)
        (rw (drop-added, remove-put_new Text-discrete flow node t.flow_to_node fresh) refl)

-- Ending a flow that `trackFlow` has just begun gives back the tracker as it was before, with the
-- order of its maps.
pub end_flow-track_flow :
    (t t' : Tracker) (target : Target) (explicit : Option Text) (random id : Text)
    → Inv t
    → track_flow t target explicit random ≡ tracked t' id
    → end_flow t' id ≡ t
end_flow-track_flow t t' target explicit random id v h =
    let (node, scope, on) = track_flow_lem t t' target explicit random id h in
    let (room, node_room, fresh, same, name) = track_on_node_lem t t' node _ id on in
    rw (same, name) (go node (scope_cons target node scope) _ fresh)
  where
    go :
        (n : Text)
        → n ≢ []
        → (flow : Text) → get Text-discrete flow t.flow_to_node ≡ none
        → end_flow (add_flow t n flow) flow ≡ t
    go [] some_ flow fresh = absurd (some_ refl)
    go (c ∷ rest) some_ flow fresh = end_flow-add_flow t c rest flow v fresh
