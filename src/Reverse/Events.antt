-- ===== src/Reverse/Events.antt =====
-- The events of src/registry/reverse-session.mjs, in any order.
use dsh_orbit.Common.{
  ◌≡◌, ◌≢◌, sym, ap, ◌∙◌, inl, inr, Bool, true, false, none, some, List, [], ◌∷◌, Bool-cases,
  Option-cases, map,
}
use mathlib.Core.Option.{some-injective}
use dsh_orbit.Common.Text.{Text, Text-discrete}
use dsh_orbit.Common.JsMap.{get, put}
use dsh_orbit.Reverse.{pending, ready, Session, Manager, Frame, create, is_closed}
use dsh_orbit.Reverse.Sessions.{
  shut, close, close_each, on_frame, on_frames, ready_timeout, pinged, ping_tick, pong_timeout,
  new_session, or_empty, register_upgrade,
}
use dsh_orbit.Reverse.Queries.{
  close_sessions_for_node, close_sessions_for_credential, close_nodes, close_all, all_pending,
  ids_of,
}
use dsh_orbit.Reverse.OneReady.{put_unready-Inv, close-Inv, nothing, get-put_ne}
use dsh_orbit.Reverse.Promotion.{Holds}
use dsh_orbit.Reverse.Operations.{
  close_each-Holds, change-Holds, on_frame-Holds, on_frames-Holds, ready_timeout-Holds,
  pong_timeout-Holds, pinged-keeps, add_pending-Holds,
}

-- An id that no session has.
abbrev pub IsNew : Manager → Text → Type 0
IsNew m id = get Text-discrete id m.sessions ≡ none

close-IsNew : (m : Manager) (x id : Text) → IsNew m id → IsNew (close m x) id
unfolding close
close-IsNew m x id new = elim (Option-cases (get Text-discrete x m.sessions)) [
  | inl missing ↦ rw missing new
  | inr (s, there) ↦ elim (Bool-cases (is_closed s.state)) [
    | inl over ↦ rw (there, over) new
    | inr still_open ↦
        let other = λ (e : x ≡ id).
          nothing s (sym new ∙ ap (λ k. get Text-discrete k m.sessions) (sym e) ∙ there) in
        rw (there, still_open) (get-put_ne x id (shut s) m.sessions other ∙ new)
  ]
]

close_each-IsNew :
    (m : Manager) (ids : List Text) (id : Text) → IsNew m id → IsNew (close_each m ids) id
unfolding close_each
close_each-IsNew m [] id new = new
close_each-IsNew m (x ∷ ids) id new = close_each-IsNew (close m x) ids id (close-IsNew m x id new)

abbrev with_new : Manager → Text → Session → Manager
with_new m id s = record m { sessions = put Text-discrete id s m.sessions }

with_new-Holds :
    (m : Manager) (node key id : Text)
    → IsNew m id
    → Holds m
    → Holds (with_new m id (new_session node key))
with_new-Holds m node key id new v =
    put_unready-Inv m.sessions m.current id (new_session node key) v m.current pending_not
      (λ n x h.
        let (s, found, of_node, is_ready_) = v.current_ready n x h in
        (h, λ e. nothing s (sym new ∙ ap (λ k. get Text-discrete k m.sessions) e ∙ found)))
      (λ n x h other. h)
  where
    pending_not : pending ≢ ready
    pending_not e = cc

register_upgrade-Holds :
    (m : Manager) (node key id : Text) (has_head : Bool) (head : List Frame)
    → IsNew m id
    → Holds m
    → Holds (register_upgrade m node key id has_head head)
unfolding register_upgrade
register_upgrade-Holds m node key id has_head head new v =
    let others = or_empty (get Text-discrete node m.pending) in
    let start : Manager = with_new (close_each m others) id (new_session node key) in
    let opened =
      with_new-Holds (close_each m others) node key id (close_each-IsNew m others id new)
        (close_each-Holds m others v) in
    elim (Bool-cases has_head) [
      | inl e ↦ rw e (
          add_pending-Holds (on_frames start id head) node id true
            (on_frames-Holds start id head opened))
      | inr e ↦ rw e (add_pending-Holds start node id false opened)
    ]

close_sessions_for_node-Holds :
    (m : Manager) (node : Text) → Holds m → Holds (close_sessions_for_node m node)
unfolding close_sessions_for_node
close_sessions_for_node-Holds m node v =
    let m' : Manager = close_each m (ids_of (get Text-discrete node m.current)) in
    close_each-Holds m' (or_empty (get Text-discrete node m'.pending))
      (close_each-Holds m (ids_of (get Text-discrete node m.current)) v)

close_nodes-Holds : (m : Manager) (nodes : List Text) → Holds m → Holds (close_nodes m nodes)
unfolding close_nodes
close_nodes-Holds m [] v = v
close_nodes-Holds m (node ∷ nodes) v =
    close_nodes-Holds (close_sessions_for_node m node) nodes
      (close_sessions_for_node-Holds m node v)

close_all-Holds : (m : Manager) → Holds m → Holds (close_all m)
unfolding close_all
close_all-Holds m v =
    let nodes : List Text = map (λ r. r.0) m.current in
    let m' : Manager = close_nodes m nodes in
    close_each-Holds m' (all_pending m'.pending) (close_nodes-Holds m nodes v)

pub data Event : Type 0 where
  registers : (node key id : Text) (has_head : Bool) (head : List Frame) → Event
  receives : (id : Text) (frame : Frame) → Event
  closes ready_times_out pings pong_times_out : (id : Text) → Event
  closes_node : (node : Text) → Event
  revokes : (node key : Text) → Event
  shuts_down : Event

unfoldable pub apply : Manager → Event → Manager
unfolding register_upgrade on_frame close ready_timeout ping_tick pong_timeout
    close_sessions_for_node close_sessions_for_credential close_all
apply m (registers node key id has_head head) = register_upgrade m node key id has_head head
apply m (receives id frame) = on_frame m id frame
apply m (closes id) = close m id
apply m (ready_times_out id) = ready_timeout m id
apply m (pings id) = ping_tick m id
apply m (pong_times_out id) = pong_timeout m id
apply m (closes_node node) = close_sessions_for_node m node
apply m (revokes node key) = (close_sessions_for_credential m node key).0
apply m shuts_down = close_all m

-- A session that is registered gets an id that no other has.
abbrev pub IsFresh : Manager → Event → Type 0
IsFresh m (registers node key id has_head head) = IsNew m id
IsFresh m _ = Unit

apply-Holds : (m : Manager) (e : Event) → IsFresh m e → Holds m → Holds (apply m e)
unfolding apply close_sessions_for_credential ping_tick
apply-Holds m (registers node key id has_head head) fresh v =
    register_upgrade-Holds m node key id has_head head fresh v
apply-Holds m (receives id frame) fresh v = on_frame-Holds m id frame v
apply-Holds m (closes id) fresh v = close-Inv m v id
apply-Holds m (ready_times_out id) fresh v = ready_timeout-Holds m id v
apply-Holds m (pings id) fresh v = change-Holds m id pinged pinged-keeps v
apply-Holds m (pong_times_out id) fresh v = pong_timeout-Holds m id v
apply-Holds m (closes_node node) fresh v = close_sessions_for_node-Holds m node v
apply-Holds m (revokes node key) fresh v =
    close_each-Holds m (close_sessions_for_credential m node key).1 v
apply-Holds m shuts_down fresh v = close_all-Holds m v

pub data Reachable : Manager → Type 0 where
  created : Reachable create
  after : {m : Manager} (e : Event) → Reachable m → IsFresh m e → Reachable (apply m e)

create-Holds : Holds create
unfolding create get
create-Holds = record {
  current_ready = λ node id h. absurd (nothing id h);
  ready_current = λ id s h k. absurd (nothing s h);
}

Reachable-Holds : (m : Manager) → Reachable m → Holds m
Reachable-Holds _ created = create-Holds
Reachable-Holds _ (after {m} e r fresh) = apply-Holds m e fresh (Reachable-Holds m r)

-- After every sequence of events a node has at most one session that is ready, and it is the current
-- one. Each registered session has a fresh id.
pub one_ready_session :
    (m : Manager) (i j : Text) (s t : Session)
    → Reachable m
    → get Text-discrete i m.sessions ≡ some s
    → get Text-discrete j m.sessions ≡ some t
    → s.state ≡ ready
    → t.state ≡ ready
    → s.node_id ≡ t.node_id
    → (i ≡ j) × (get Text-discrete s.node_id m.current ≡ some i)
one_ready_session m i j s t r found_i found_j s_ready t_ready node =
    let v = Reachable-Holds m r in
    let current = v.ready_current i s found_i s_ready in
    (
      some-injective _ _ (
          sym current
          ∙ ap (λ n. get Text-discrete n m.current) node
          ∙ v.ready_current j t found_j t_ready),
      current,
    )
