-- ===== src/Reverse/Sessions.antt =====
-- The operations of ReverseSession and ReverseSessionManager of src/registry/reverse-session.mjs.
use dsh_orbit.Common.{
  Bool, true, false, ◌&&◌, ◌||◌, not, Option, none, some, List, [], ◌∷◌, ◌++◌, if◌then◌else◌,
}
use dsh_orbit.Common.Text.{Text, Text-discrete, text, text_eq}
use dsh_orbit.Common.JsMap.{get, put, remove}
use dsh_orbit.Reverse.{
  SessionState, Session, Manager, Message, no_json, no_message, says_ready, says_status, other_type,
  Frame, message, ping, pong, peer_close, frame_error, is_closed, is_ready, is_this, without,
}

abbrev pub shut : Session → Session
shut s = record s {
  state = SessionState.closed;
  ready_timer = false;
  ping_timer = false;
  pong_timer = false;
}

-- The set of a node is deleted when it becomes empty.
abbrev pub keep_set : Text → List Text → List (Text × List Text) → List (Text × List Text)
keep_set node [] sets = remove Text-discrete node sets
keep_set node (x ∷ xs) sets = put Text-discrete node (x ∷ xs) sets

unfoldable pub drop_pending : Text → Text → List (Text × List Text) → List (Text × List Text)
unfolding without
drop_pending node id sets = elim (get Text-discrete node sets) [
  | none ↦ sets
  | some set ↦ keep_set node (without id set) sets
]

unfoldable pub drop_current : Text → Text → List (Text × Text) → List (Text × Text)
unfolding is_this
drop_current node id current =
    if is_this (get Text-discrete node current) id
    then remove Text-discrete node current
    else current

abbrev pub close_open : Manager → Text → Session → Manager
close_open m id s = record m {
  sessions = put Text-discrete id (shut s) m.sessions;
  current = drop_current s.node_id id m.current;
  pending = drop_pending s.node_id id m.pending;
}

abbrev pub close_session : Manager → Text → Option Session → Manager
close_session m id none = m
close_session m id (some s) = if is_closed s.state then m else close_open m id s

unfoldable pub close : Manager → Text → Manager
unfolding drop_current drop_pending
close m id = close_session m id (get Text-discrete id m.sessions)

unfoldable pub close_each : Manager → List Text → Manager
unfolding close
close_each m [] = m
close_each m (id ∷ ids) = close_each (close m id) ids

abbrev pub supersede_session : Manager → Text → Option Session → Manager
supersede_session m id none = m
supersede_session m id (some s) = record m {
  sessions = put Text-discrete id (record s { superseded = true }) m.sessions;
}

unfoldable pub mark_superseded : Manager → Text → Manager
mark_superseded m id = supersede_session m id (get Text-discrete id m.sessions)

abbrev pub delete_from :
    Text → Text → List (Text × List Text) → Option (List Text) → List (Text × List Text)
delete_from node id sets none = sets
delete_from node id sets (some set) = put Text-discrete node (without id set) sets

abbrev pub promoted : Session → Session
promoted s = record s { state = SessionState.ready; ready_timer = false }

unfoldable pub raise : Manager → Text → Session → Manager
raise m id s = record m {
  sessions = put Text-discrete id (promoted s) m.sessions;
  current = put Text-discrete s.node_id id m.current;
  pending = delete_from s.node_id id m.pending (get Text-discrete s.node_id m.pending);
}

unfoldable pub close_previous : Manager → Text → Option Text → Manager
unfolding close mark_superseded is_this
close_previous m id none = m
close_previous m id (some previous) =
    if is_this (some previous) id then m else close (mark_superseded m previous) previous

abbrev pub promote_session : Manager → Text → Option Session → Manager
promote_session m id none = m
promote_session m id (some s) =
    if is_closed s.state || s.superseded
    then m
    else close_previous (raise m id s) id (get Text-discrete s.node_id m.current)

unfoldable pub promote : Manager → Text → Manager
unfolding raise close_previous
promote m id = promote_session m id (get Text-discrete id m.sessions)

abbrev pub with_route : Manager → Text → Session → Bool → Manager
with_route m id s route_ready = record m {
  sessions = put Text-discrete id (record s { route_ready = route_ready }) m.sessions;
}

abbrev pub is_protocol : Option Text → Bool
is_protocol none = false
is_protocol (some p) = text_eq p (text "orbit-reverse-v1")

unfoldable pub on_open_message : Manager → Text → Session → Message → Manager
unfolding close promote
on_open_message m id s no_json = close m id
on_open_message m id s no_message = close m id
on_open_message m id s other_type = close m id
on_open_message m id s (says_ready protocol route_ready) =
    if is_ready s.state
    then close m id
    else if is_protocol protocol
    then promote (with_route m id s route_ready) id
    else close m id
on_open_message m id s (says_status none) = close m id
on_open_message m id s (says_status (some route_ready)) =
    if is_ready s.state then with_route m id s route_ready else close m id

abbrev pub message_to : Manager → Text → Message → Option Session → Manager
message_to m id msg none = m
message_to m id msg (some s) =
    if is_closed s.state || s.superseded then m else on_open_message m id s msg

unfoldable pub on_control_message : Manager → Text → Message → Manager
unfolding on_open_message
on_control_message m id msg = message_to m id msg (get Text-discrete id m.sessions)

abbrev pub change : Manager → Text → (Session → Session) → Option Session → Manager
change m id f none = m
change m id f (some s) = record m { sessions = put Text-discrete id (f s) m.sessions }

unfoldable pub on_frame : Manager → Text → Frame → Manager
unfolding on_control_message close
on_frame m id (message msg) = on_control_message m id msg
on_frame m id ping = m
on_frame m id pong =
    change m id (λ s. record s { awaiting_pong = false; pong_timer = false })
      (get Text-discrete id m.sessions)
on_frame m id peer_close = close m id
on_frame m id frame_error = close m id

unfoldable pub on_frames : Manager → Text → List Frame → Manager
unfolding on_frame
on_frames m id [] = m
on_frames m id (f ∷ fs) = on_frames (on_frame m id f) id fs

-- The timers. `ready_timer` is cleared by a promotion and by closing.
abbrev pub ready_timeout_of : Manager → Text → Option Session → Manager
ready_timeout_of m id none = m
ready_timeout_of m id (some s) = if s.ready_timer then close m id else m

unfoldable pub ready_timeout : Manager → Text → Manager
unfolding close
ready_timeout m id = ready_timeout_of m id (get Text-discrete id m.sessions)

abbrev pub pinged : Session → Session
pinged s = if is_closed s.state then s else record s { awaiting_pong = true; pong_timer = true }

unfoldable pub ping_tick : Manager → Text → Manager
ping_tick m id = change m id pinged (get Text-discrete id m.sessions)

abbrev pub pong_timeout_of : Manager → Text → Option Session → Manager
pong_timeout_of m id none = m
pong_timeout_of m id (some s) = if s.awaiting_pong && not (is_closed s.state) then close m id else m

unfoldable pub pong_timeout : Manager → Text → Manager
unfolding close
pong_timeout m id = pong_timeout_of m id (get Text-discrete id m.sessions)

abbrev pub new_session : Text → Text → Session
new_session node key = record {
  node_id = node;
  key_id = key;
  state = SessionState.pending;
  route_ready = false;
  superseded = false;
  ready_timer = true;
  ping_timer = true;
  pong_timer = false;
  awaiting_pong = false;
}

abbrev pub or_empty : Option (List Text) → List Text
or_empty none = []
or_empty (some ids) = ids

abbrev pub closed_now : Option Session → Bool
closed_now none = false
closed_now (some s) = is_closed s.state

-- The end of `registerUpgrade`: a session that the head has not closed is pending, promoted or not.
unfoldable pub add_pending : Manager → Text → Text → Bool → Manager
add_pending m node id has_head =
    if has_head && closed_now (get Text-discrete id m.sessions) then m else record m {
      pending =
          put Text-discrete node (or_empty (get Text-discrete node m.pending) ++ id ∷ []) m.pending;
    }

-- `id` is the generated session id, `head` what the parser finds in the bytes after the request.
unfoldable pub register_upgrade : Manager → Text → Text → Text → Bool → List Frame → Manager
unfolding close_each on_frames add_pending
register_upgrade m node key id has_head head =
    let cleared = close_each m (or_empty (get Text-discrete node m.pending)) in
    let opened : Manager = record cleared {
      sessions = put Text-discrete id (new_session node key) cleared.sessions;
    } in
    add_pending (if has_head then on_frames opened id head else opened) node id has_head
