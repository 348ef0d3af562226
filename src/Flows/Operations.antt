-- ===== src/Flows/Operations.antt =====
-- The operations of src/registry/flow-tracker.mjs on trackers whose accounts are right.
use dsh_orbit.Common.{
  ℕ, ◌+◌, ◌≤◌, ◌≡◌, refl, ◌⊎◌, inl, inr, false, Option, none, some, List, [], ◌∷◌, arith, length,
  Option-cases,
}
use dsh_orbit.Common.Text.{Text, Text-discrete}
use dsh_orbit.Common.JsMap.{get, length-put_new, get-put_self, length-remove-le}
use dsh_orbit.Common.JsMap.Keys.{total}
use dsh_orbit.Flows.{
  Tracker, Tracked, tracked, refused, Limit, at, infinity, reached, node_flows, is_active, add_flow,
  track_on_node, track_flow, end_on_node, end_flow, new_tracker, Target, in_scope,
  invalid_target_scope, validate_target_scope, clear, get_active_flow_count, chosen, ScopeResult,
  FlowError,
}
use dsh_orbit.Flows.Accounting.{Accounts, Inv, WithinLimit, not_listed, add-Accounts, set_held}
use dsh_orbit.Flows.Ending.{drop-Accounts}

-- What a success of `trackFlow` says: the scope, the guards that it passed and the new tracker.
pub track_on_node_lem :
    (t t' : Tracker) (node flow id : Text)
    → track_on_node t node flow ≡ tracked t' id
    → (reached (length t.flow_to_node) t.max_total_flows ≡ false)
      × (reached (length (node_flows t node)) t.max_flows_per_node ≡ false)
      × (get Text-discrete flow t.flow_to_node ≡ none)
      × (t' ≡ add_flow t node flow)
      × (id ≡ flow)
unfolding track_on_node is_active
track_on_node_lem t t' node flow id h =
    (ground arith, ground arith, ground arith, ground arith, ground arith)

pub track_flow_lem :
    (t t' : Tracker) (target : Target) (explicit : Option Text) (random id : Text)
    → track_flow t target explicit random ≡ tracked t' id
    → (node : Text) × (validate_target_scope target ≡ in_scope node)
      × (track_on_node t node (chosen explicit random) ≡ tracked t' id)
unfolding track_flow
track_flow_lem t t' target explicit random id h = go (validate_target_scope target) refl
  where
    go :
        (r : ScopeResult)
        → validate_target_scope target ≡ r
        → (node : Text) × (validate_target_scope target ≡ in_scope node)
          × (track_on_node t node (chosen explicit random) ≡ tracked t' id)
    go invalid_target_scope e = let bad = rw (e, track_flow) at h in cc
    go (in_scope node) e = (node, e, rw (e, track_flow) at h)

add_flow-Inv :
    (t : Tracker) (node flow : Text)
    → Inv t
    → get Text-discrete flow t.flow_to_node ≡ none
    → Inv (add_flow t node flow)
unfolding add_flow
add_flow-Inv t node flow v fresh =
    add-Accounts t.active_flows_by_node t.flow_to_node node flow v fresh

end_on_node-Inv :
    (t : Tracker) (node flow : Text)
    → Inv t
    → get Text-discrete flow t.flow_to_node ≡ some node
    → Inv (end_on_node t node flow)
unfolding end_on_node
end_on_node-Inv t [] flow v held = v
end_on_node-Inv t (c ∷ node) flow v held =
    let (s, found) = set_held t.active_flows_by_node t.flow_to_node (c ∷ node) flow v held in
    drop-Accounts t.active_flows_by_node t.flow_to_node (c ∷ node) flow v held s found

end_flow-Inv : (t : Tracker) (flow : Text) → Inv t → Inv (end_flow t flow)
unfolding end_flow
end_flow-Inv t flow v = elim (Option-cases (get Text-discrete flow t.flow_to_node)) [
  | inl missing ↦ rw (missing, end_flow) v
  | inr (node, held) ↦ rw (held, end_flow) (end_on_node-Inv t node flow v held)
]

empty-Accounts : Accounts [] []
unfolding get total
empty-Accounts = record {
  nodes_distinct = tt;
  flows_distinct = tt;
  sets_distinct = λ node. tt;
  owned = λ flow node h. cc;
  owner_of = λ flow node h. cc;
  never_empty = λ node s h. cc;
  counted = refl;
}

-- The operations, `trackFlow` with its target, its optional flow id and the random id at hand.
pub data Op : Type 0 where
  tracks : (target : Target) (explicit : Option Text) (random : Text) → Op
  ends : (flow : Text) → Op
  clears : Op

abbrev after : Tracker → Tracked → Tracker
after t (tracked t' id) = t'
after t (refused e) = t

unfoldable pub step : Tracker → Op → Tracker
step t (tracks target explicit random) = after t (track_flow t target explicit random)
step t (ends flow) = end_flow t flow
step t clears = clear t

unfoldable pub run : Tracker → List Op → Tracker
run t [] = t
run t (o ∷ os) = run (step t o) os

track_flow_cases :
    (t : Tracker) (target : Target) (explicit : Option Text) (random : Text)
    → ((t' : Tracker) × (id : Text) × (track_flow t target explicit random ≡ tracked t' id))
      ⊎ ((e : FlowError) × (track_flow t target explicit random ≡ refused e))
track_flow_cases t target explicit random = go (track_flow t target explicit random) refl
  where
    go :
        (r : Tracked)
        → track_flow t target explicit random ≡ r
        → ((t' : Tracker) × (id : Text) × (track_flow t target explicit random ≡ tracked t' id))
          ⊎ ((e : FlowError) × (track_flow t target explicit random ≡ refused e))
    go (tracked t' id) h = inl (t', id, h)
    go (refused e) h = inr (e, h)

node_flows-add_flow :
    (t : Tracker) (node flow : Text)
    → Inv t
    → get Text-discrete flow t.flow_to_node ≡ none
    → length (node_flows (add_flow t node flow) node) ≡ length (node_flows t node) + 1
unfolding node_flows add_flow
node_flows-add_flow t node flow v fresh =
    let new = not_listed t.active_flows_by_node t.flow_to_node node flow v fresh node in
    rw (get-put_self Text-discrete node _ t.active_flows_by_node)
      (length-put_new Text-discrete flow tt _ new)

-- Invariant and limit, as one operation keeps them.
abbrev Good : Limit → Tracker → Type 0
Good l t = Inv t × WithinLimit (length t.flow_to_node) l × (t.max_total_flows ≡ l)

not-reached : (n m : ℕ) (l : Limit) → reached n l ≡ false → m ≤ n + 1 → WithinLimit m l
unfolding reached
not-reached n m infinity h k = tt
not-reached n m (at x) h k = ground arith

WithinLimit-mono : (m n : ℕ) (l : Limit) → m ≤ n → WithinLimit n l → WithinLimit m l
WithinLimit-mono m n infinity h k = tt
WithinLimit-mono m n (at x) h k = omega arith

WithinLimit-zero : (l : Limit) → WithinLimit 0 l
WithinLimit-zero infinity = tt
WithinLimit-zero (at x) = omega arith

track-Good :
    (l : Limit) (t t' : Tracker) (node flow id : Text)
    → track_on_node t node flow ≡ tracked t' id
    → Good l t
    → Good l t'
unfolding add_flow
track-Good l t t' node flow id h (v, small, limit) =
    let (room, node_room, fresh, same, name) = track_on_node_lem t t' node flow id h in
    rw same (
      add_flow-Inv t node flow v fresh,
      not-reached (length t.flow_to_node) _ l (rw limit at room)
          (omega (arith, length-put_new Text-discrete flow node t.flow_to_node fresh)),
      limit,
    )

end_on_node-Good :
    (l : Limit) (t : Tracker) (node flow : Text)
    → get Text-discrete flow t.flow_to_node ≡ some node
    → Good l t
    → Good l (end_on_node t node flow)
unfolding end_on_node
end_on_node-Good l t [] flow held g = g
end_on_node-Good l t (c ∷ node) flow held (v, small, limit) = (
  end_on_node-Inv t (c ∷ node) flow v held,
  WithinLimit-mono _ _ l (length-remove-le Text-discrete flow t.flow_to_node) small,
  limit,
)

end-Good : (l : Limit) (t : Tracker) (flow : Text) → Good l t → Good l (end_flow t flow)
unfolding end_flow
end-Good l t flow g = elim (Option-cases (get Text-discrete flow t.flow_to_node)) [
  | inl missing ↦ rw (missing, end_flow) g
  | inr (node, held) ↦ rw (held, end_flow) (end_on_node-Good l t node flow held g)
]

step-Good : (l : Limit) (t : Tracker) (o : Op) → Good l t → Good l (step t o)
unfolding step clear
step-Good l t (tracks target explicit random) g = elim (track_flow_cases t target explicit random) [
  | inl (t', id, h) ↦
      let (node, scope, on) = track_flow_lem t t' target explicit random id h in
      rw h (track-Good l t t' node (chosen explicit random) id on g)
  | inr (e, h) ↦ rw h g
]
step-Good l t (ends flow) g = end-Good l t flow g
step-Good l t clears (v, small, limit) = (empty-Accounts, WithinLimit-zero l, limit)

run-Good : (l : Limit) (t : Tracker) (os : List Op) → Good l t → Good l (run t os)
unfolding run
run-Good l t [] g = g
run-Good l t (o ∷ os) g = run-Good l (step t o) os (step-Good l t o g)

-- After any sequence of operations on a new tracker, refused ones included: a flow id is in the set
-- of a node exactly when it is mapped to that node, the sets are free of repetitions and none is
-- empty, the sizes of the sets add up to the number of flows, and that number is within the limit
-- on all flows that the tracker was made with.
pub run-Inv :
    (per_node total_flows : Limit) (os : List Op)
    → Inv (run (new_tracker per_node total_flows) os)
      × WithinLimit (length (run (new_tracker per_node total_flows) os).flow_to_node) total_flows
unfolding new_tracker
run-Inv per_node total_flows os =
    let (v, small, limit) =
      run-Good total_flows (new_tracker per_node total_flows) os
        (empty-Accounts, WithinLimit-zero total_flows, refl) in
    (v, small)

-- `trackFlow` succeeds only below the limit of the node: afterwards the node has one flow more than
-- before, and its number of flows is within that limit.
pub track_flow-limit :
    (t t' : Tracker) (target : Target) (explicit : Option Text) (random id : Text)
    → Inv t
    → track_flow t target explicit random ≡ tracked t' id
    → (get_active_flow_count t' target ≡ get_active_flow_count t target + 1)
      × WithinLimit (get_active_flow_count t' target) t.max_flows_per_node
unfolding get_active_flow_count
track_flow-limit t t' target explicit random id v h =
    let (node, scope, on) = track_flow_lem t t' target explicit random id h in
    let (room, node_room, fresh, same, name) = track_on_node_lem t t' node _ id on in
    let grown = node_flows-add_flow t node (chosen explicit random) v fresh in
    rw (scope, get_active_flow_count, same, grown)
      (refl, not-reached _ _ t.max_flows_per_node node_room (omega arith))
