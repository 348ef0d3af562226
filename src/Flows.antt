-- ===== src/Flows.antt =====
-- src/registry/flow-tracker.mjs: which single node a request may target, and how many browser flows
-- are active on each node.
pub mod Scope
pub mod Accounting
pub mod Ending
pub mod Operations
pub mod RoundTrip
mod Tests
use dsh_orbit.Common.{
  ℕ, suc, Bool, true, false, ◌&&◌, ◌||◌, not, Option, none, some, List, [], ◌∷◌, ◌++◌, ◌≤◌, leb,
  ◌==◌, if◌then◌else◌, length, all, any, map, arith,
}
use dsh_orbit.Common.Text.{
  Text, Text-discrete, text, trim, text_eq, to_lower, includes, starts_with,
}
use dsh_orbit.Common.JsMap.{get, put, remove}

unfoldable pub is_hex : ℕ → Bool
is_hex c = leb b'0' c && leb c b'9' || leb b'a' c && leb c b'f'

-- `NODE_ID_PATTERN`: `node_` and 32 lower-case hexadecimal digits.
unfoldable pub hex_tail : Text → Bool
unfolding is_hex
hex_tail s = length s == 32 && all is_hex s

unfoldable pub strip_node : Text → Option Text
strip_node (n ∷ o ∷ d ∷ e ∷ u ∷ s) =
    if text_eq (n ∷ o ∷ d ∷ e ∷ u ∷ []) (text "node_") then some s else none
strip_node _ = none

unfoldable pub matches_node_id : Text → Bool
unfolding strip_node hex_tail
matches_node_id s = elim (strip_node s) [ none ↦ false | some rest ↦ hex_tail rest ]

-- A value that JavaScript code hands over as a target.
pub data Target : Type 0 where
  nothing : Target
  other : Target
  string : Text → Target

pub data ScopeResult : Type 0 where
  in_scope : (node_id : Text) → ScopeResult
  invalid_target_scope : ScopeResult

unfoldable pub is_broadcast : Text → Bool
is_broadcast trimmed =
    any (text_eq (to_lower trimmed))
      (text "*" ∷ text "all" ∷ text "any" ∷ text "broadcast" ∷ text "cluster" ∷ [])
    || includes b',' trimmed
    || includes b' ' trimmed
    || includes b';' trimmed

unfoldable pub normalized : Text → Text
normalized trimmed = if starts_with (text "node_") trimmed then trimmed else text "node_" ++ trimmed

unfoldable pub scope_of_trimmed : Text → ScopeResult
unfolding is_broadcast normalized matches_node_id
scope_of_trimmed [] = invalid_target_scope
scope_of_trimmed (c ∷ s) =
    if is_broadcast (c ∷ s)
    then invalid_target_scope
    else if matches_node_id (normalized (c ∷ s))
    then in_scope (normalized (c ∷ s))
    else invalid_target_scope

unfoldable pub validate_target_scope : Target → ScopeResult
unfolding scope_of_trimmed
validate_target_scope nothing = invalid_target_scope
validate_target_scope other = invalid_target_scope
validate_target_scope (string s) = scope_of_trimmed (trim s)

pub data ScopedAction : Type 0 where
  acts : (node_id action : Text) → ScopedAction
  bad_request scope_error invalid_action : ScopedAction

abbrev pub allowed_scoped_actions : List Text
allowed_scoped_actions = text "open" ∷ text "status" ∷ text "disconnect" ∷ text "refresh" ∷ []

-- `none` for an action that is no string. The one test that an empty action needs is the list's.
unfoldable pub check_action : Text → Option Text → ScopedAction
check_action node none = invalid_action
check_action node (some action) =
    if any (text_eq (to_lower (trim action))) allowed_scoped_actions
    then acts node (to_lower (trim action))
    else invalid_action

-- `none` for a payload that is no object; its two fields otherwise.
unfoldable pub validate_scoped_action : Option (Target × Option Text) → ScopedAction
unfolding validate_target_scope check_action
validate_scoped_action none = bad_request
validate_scoped_action (some (target, action)) = elim (validate_target_scope target) [
  | invalid_target_scope ↦ scope_error
  | in_scope node ↦ check_action node action
]

-- A limit that may be `Infinity`.
pub data Limit : Type 0 where
  infinity : Limit
  at : ℕ → Limit

unfoldable pub reached : ℕ → Limit → Bool
reached n infinity = false
reached n (at m) = leb m n

-- `active_flows_by_node` holds a set of flow ids for each node.
pub record Tracker : Type 0 where
  pub max_flows_per_node : Limit
  pub max_total_flows : Limit
  pub active_flows_by_node : List (Text × List (Text × Unit {0}))
  pub flow_to_node : List (Text × Text)

unfoldable pub new_tracker : Limit → Limit → Tracker
new_tracker per_node total = record {
  max_flows_per_node = per_node;
  max_total_flows = total;
  active_flows_by_node = [];
  flow_to_node = [];
}

pub data FlowError : Type 0 where
  target_scope flow_capacity_exceeded node_flow_capacity_exceeded duplicate_flow_id : FlowError

pub data Tracked : Type 0 where
  tracked : (t : Tracker) (flow_id : Text) → Tracked
  refused : FlowError → Tracked

abbrev pub or_empty : Option (List (Text × Unit {0})) → List (Text × Unit {0})
or_empty none = []
or_empty (some s) = s

unfoldable pub node_flows : Tracker → Text → List (Text × Unit {0})
node_flows t node = or_empty (get Text-discrete node t.active_flows_by_node)

unfoldable pub is_active : Tracker → Text → Bool
is_active t flow = elim (get Text-discrete flow t.flow_to_node) [ none ↦ false | some n ↦ true ]

unfoldable pub add_flow : Tracker → Text → Text → Tracker
unfolding node_flows
add_flow t node flow = record t {
  active_flows_by_node =
      put Text-discrete node (put Text-discrete flow tt (node_flows t node)) t.active_flows_by_node;
  flow_to_node = put Text-discrete flow node t.flow_to_node;
}

-- The flow id is the caller's, or the random one that is handed in.
unfoldable pub track_on_node : Tracker → Text → Text → Tracked
unfolding reached node_flows is_active add_flow
track_on_node t node flow =
    if reached (length t.flow_to_node) t.max_total_flows
    then refused flow_capacity_exceeded
    else if reached (length (node_flows t node)) t.max_flows_per_node
    then refused node_flow_capacity_exceeded
    else if is_active t flow
    then refused duplicate_flow_id
    else tracked (add_flow t node flow) flow

abbrev chosen : Option Text → Text → Text
chosen none random = random
chosen (some id) random = id

unfoldable pub track_flow : Tracker → Target → Option Text → Text → Tracked
unfolding track_on_node
track_flow t target explicit random = elim (validate_target_scope target) [
  | invalid_target_scope ↦ refused target_scope
  | in_scope node ↦ track_on_node t node (chosen explicit random)
]

-- What `endFlow` does to the set of one node: an emptied set goes from the map.
unfoldable pub drop_flow :
    Text → Text → List (Text × List (Text × Unit {0})) → List (Text × List (Text × Unit {0}))
drop_flow node flow m = elim (get Text-discrete node m) [
  | none ↦ m
  | some flows ↦
      if length (remove Text-discrete flow flows) == 0
      then remove Text-discrete node m
      else put Text-discrete node (remove Text-discrete flow flows) m
]

unfoldable pub end_on_node : Tracker → Text → Text → Tracker
unfolding drop_flow
end_on_node t [] flow = t
end_on_node t (c ∷ node) flow = record t {
  active_flows_by_node = drop_flow (c ∷ node) flow t.active_flows_by_node;
  flow_to_node = remove Text-discrete flow t.flow_to_node;
}

unfoldable pub end_flow : Tracker → Text → Tracker
unfolding end_on_node
end_flow t flow = elim (get Text-discrete flow t.flow_to_node) [
  | none ↦ t
  | some node ↦ end_on_node t node flow
]

-- The callback of `trackFlow`: its own flag, and the tracker.
unfoldable pub end_once : Bool × Tracker → Text → Bool × Tracker
unfolding end_flow
end_once (true, t) flow = (true, t)
end_once (false, t) flow = (true, end_flow t flow)

unfoldable pub get_active_flow_count : Tracker → Target → ℕ
unfolding node_flows
get_active_flow_count t target = elim (validate_target_scope target) [
  | invalid_target_scope ↦ 0
  | in_scope node ↦ length (node_flows t node)
]

unfoldable pub get_total_active_flow_count : Tracker → ℕ
get_total_active_flow_count t = length t.flow_to_node

unfoldable pub get_active_node_count : Tracker → ℕ
get_active_node_count t = length t.active_flows_by_node

unfoldable pub get_active_node_ids : Tracker → List Text
get_active_node_ids t = map (λ p. p.0) t.active_flows_by_node

pub record Snapshot : Type 0 where
  pub total_flows : ℕ
  pub distinct_nodes : ℕ
  pub nodes : List (Text × ℕ)

unfoldable pub get_snapshot : Tracker → Snapshot
get_snapshot t = record {
  total_flows = length t.flow_to_node;
  distinct_nodes = length t.active_flows_by_node;
  nodes = map (λ p. (p.0, length p.1)) t.active_flows_by_node;
}

unfoldable pub clear : Tracker → Tracker
clear t = record t { active_flows_by_node = []; flow_to_node = [] }
