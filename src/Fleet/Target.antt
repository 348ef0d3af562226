-- ===== src/Fleet/Target.antt =====
-- `validateFleetTargetSpec` of src/registry/fleet-scheduler.mjs: the nodes that a job is for.
use dsh_orbit.Common.{
  Bool, true, false, ◌&&◌, ◌||◌, not, Option, none, some, List, [], ◌∷◌, ◌++◌, any, if◌then◌else◌,
}
use dsh_orbit.Common.Text.{Text, text, text_eq, trim}
use dsh_orbit.Flows.{Target, in_scope, invalid_target_scope, validate_target_scope}
use dsh_orbit.Fleet.{NodeRow, NodeInfo, Registry}

pub data NodeIds : Type 0 where
  star : NodeIds
  no_array : NodeIds
  array : List Target → NodeIds

-- `capability` is `none` where it is no string.
pub record Spec : Type 0 where
  pub mode : Text
  pub node_ids : NodeIds
  pub capability : Option Text

pub data SpecValue : Type 0 where
  bare_star : SpecValue
  no_object : SpecValue
  spec : Spec → SpecValue

pub data SpecError : Type 0 where
  wildcard_prohibited invalid_target_spec empty_target_set invalid_target_node : SpecError
  target_not_found invalid_capability_spec unknown_target_mode : SpecError

pub data Resolved : Type 0 where
  resolved : List Text → Resolved
  rejected : SpecError → Resolved

abbrev pub is_star : NodeIds → Bool
is_star star = true
is_star _ = false

unfoldable pub is_wildcard : Spec → Bool
is_wildcard s =
    text_eq s.mode (text "all") || text_eq s.mode (text "broadcast") || is_star s.node_ids

abbrev pub row_found : Option NodeRow → Bool
row_found none = false
row_found (some row) = not (text_eq row.state (text "tombstoned"))

-- Without a registry a node is not looked up.
unfoldable pub is_found : Option Registry → Text → Bool
is_found none node = true
is_found (some r) node = row_found (r.get_node_row node)

unfoldable pub seen : Text → List Text → Bool
seen node nodes = any (text_eq node) nodes

abbrev pub add_clean : Text → List Text → List Text
add_clean node clean = if any (text_eq node) clean then clean else clean ++ node ∷ []

-- The loop of the explicit mode, with the ids found so far in order.
unfoldable pub resolve_explicit : Option Registry → List Text → List Target → Resolved
unfolding is_found
resolve_explicit registry clean [] = resolved clean
resolve_explicit registry clean (raw ∷ raws) = elim (validate_target_scope raw) [
  | invalid_target_scope ↦ rejected invalid_target_node
  | in_scope node ↦ elim (is_found registry node) [
    | false ↦ rejected target_not_found
    | true ↦ resolve_explicit registry (add_clean node clean) raws
  ]
]

unfoldable pub possesses : Text → NodeInfo → Bool
possesses cap n = any (text_eq cap) n.capabilities && not n.capabilities_stale

-- The active nodes with the capability, in the order of `listNodes`.
unfoldable pub matched : Text → List NodeInfo → List Text
unfolding possesses
matched cap [] = []
matched cap (n ∷ ns) =
    if text_eq n.state (text "active") && possesses cap n
    then n.node_id ∷ matched cap ns
    else matched cap ns

abbrev pub nodes_of : Option Registry → List NodeInfo
nodes_of none = []
nodes_of (some r) = r.list_nodes

abbrev pub some_matched : List Text → Resolved
some_matched [] = rejected empty_target_set
some_matched (n ∷ ns) = resolved (n ∷ ns)

abbrev pub by_capability : Option Registry → Text → Resolved
by_capability registry [] = rejected invalid_capability_spec
by_capability registry (c ∷ cap) = some_matched (matched (c ∷ cap) (nodes_of registry))

unfoldable pub resolve_capability : Option Registry → Option Text → Resolved
unfolding matched
resolve_capability registry none = rejected invalid_capability_spec
resolve_capability registry (some cap) = by_capability registry (trim cap)

abbrev pub explicit_mode : Option Registry → NodeIds → Resolved
explicit_mode registry (array (t ∷ ts)) = resolve_explicit registry [] (t ∷ ts)
explicit_mode registry _ = rejected empty_target_set

unfoldable pub validate_fleet_target_spec : Option Registry → SpecValue → Resolved
unfolding is_wildcard resolve_explicit resolve_capability
validate_fleet_target_spec registry bare_star = rejected wildcard_prohibited
validate_fleet_target_spec registry no_object = rejected invalid_target_spec
validate_fleet_target_spec registry (spec s) =
    if is_wildcard s
    then rejected wildcard_prohibited
    else if text_eq s.mode (text "explicit")
    then explicit_mode registry s.node_ids
    else if text_eq s.mode (text "capability")
    then resolve_capability registry s.capability
    else rejected unknown_target_mode
