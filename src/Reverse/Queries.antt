-- ===== src/Reverse/Queries.antt =====
-- The queries of ReverseSessionManager of src/registry/reverse-session.mjs, and what closes several
-- sessions at once.
use dsh_orbit.Common.{
  Bool, false, ◌&&◌, not, Option, none, some, List, [], ◌∷◌, ◌++◌, if◌then◌else◌, map, any,
}
use dsh_orbit.Common.Text.{Text, Text-discrete, text, text_eq}
use dsh_orbit.Common.JsMap.{get}
use dsh_orbit.Reverse.{Session, Manager, is_ready}
use dsh_orbit.Reverse.Sessions.{close_each, or_empty}

abbrev pub session_of : Manager → Option Text → Option (Text × Session)
session_of m none = none
session_of m (some id) = elim (get Text-discrete id m.sessions) [
  | none ↦ none
  | some s ↦ some (id, s)
]

-- `this.current.get(nodeId)`
unfoldable pub current_session : Manager → Text → Option (Text × Session)
current_session m node = session_of m (get Text-discrete node m.current)

pub record Info : Type 0 where
  pub reverse_session_id : Text
  pub key_id : Text
  pub route_ready : Bool

abbrev pub info_of : Option (Text × Session) → Option Info
info_of none = none
info_of (some (id, s)) =
    if is_ready s.state
    then some (record { reverse_session_id = id; key_id = s.key_id; route_ready = s.route_ready })
    else none

unfoldable pub get_session_info : Manager → Text → Option Info
unfolding current_session
get_session_info m node = info_of (current_session m node)

pub data Presence : Type 0 where
  online offline unknown : Presence

abbrev pub is_online : Option (Text × Session) → Bool
is_online none = false
is_online (some (id, s)) = is_ready s.state

unfoldable pub get_presence : Manager → Text → Text → Presence
unfolding current_session
get_presence m node route_mode =
    if is_online (current_session m node)
    then Presence.online
    else if text_eq route_mode (text "reverse")
    then Presence.offline
    else Presence.unknown

abbrev pub is_routed : Option (Text × Session) → Bool
is_routed none = false
is_routed (some (id, s)) = is_ready s.state && s.route_ready

-- `none` for a node whose routes are not reverse.
unfoldable pub is_reverse_reachable : Manager → Text → Text → Option Bool
unfolding current_session
is_reverse_reachable m node route_mode =
    if text_eq route_mode (text "reverse") then some (is_routed (current_session m node)) else none

abbrev pub ids_of : Option Text → List Text
ids_of none = []
ids_of (some id) = id ∷ []

-- The pending set is read after the current session was closed.
unfoldable pub close_sessions_for_node : Manager → Text → Manager
unfolding close_each
close_sessions_for_node m node =
    let m' = close_each m (ids_of (get Text-discrete node m.current)) in
    close_each m' (or_empty (get Text-discrete node m'.pending))

abbrev pub has_key : Text → Option Session → Bool
has_key key none = false
has_key key (some s) = text_eq s.key_id key

unfoldable pub matching : Manager → Text → List Text → List Text → List Text
matching m key found [] = found
matching m key found (id ∷ ids) =
    let longer = matching m key (found ++ id ∷ []) ids in
    let same = matching m key found ids in
    if has_key key (get Text-discrete id m.sessions) && not (any (text_eq id) found)
    then longer
    else same

-- The manager, and the ids of the sessions that were closed.
unfoldable pub close_sessions_for_credential : Manager → Text → Text → Manager × List Text
unfolding close_each matching
close_sessions_for_credential m node key =
    let ids =
      matching m key (matching m key [] (ids_of (get Text-discrete node m.current)))
        (or_empty (get Text-discrete node m.pending)) in
    (close_each m ids, ids)

unfoldable pub close_nodes : Manager → List Text → Manager
unfolding close_sessions_for_node
close_nodes m [] = m
close_nodes m (node ∷ nodes) = close_nodes (close_sessions_for_node m node) nodes

unfoldable pub all_pending : List (Text × List Text) → List Text
all_pending [] = []
all_pending ((node, ids) ∷ sets) = ids ++ all_pending sets

unfoldable pub close_all : Manager → Manager
unfolding close_nodes all_pending close_each
close_all m =
    let m' = close_nodes m (map (λ r. r.0) m.current) in close_each m' (all_pending m'.pending)
