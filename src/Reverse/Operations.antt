-- ===== src/Reverse/Operations.antt =====
-- Every sequence of events of src/registry/reverse-session.mjs keeps one ready session for each node.
use dsh_orbit.Common.{
  ◌≡◌, refl, inl, inr, Bool, false, ◌&&◌, ◌||◌, not, none, some, List, [], ◌∷◌, Bool-cases,
  Option-cases,
}
use dsh_orbit.Common.Text.{Text, Text-discrete}
use dsh_orbit.Common.JsMap.{get}
use dsh_orbit.Reverse.{
  Session, Manager, Message, no_json, no_message, says_ready, says_status, other_type, Frame,
  message, ping, pong, peer_close, frame_error, is_closed, is_ready,
}
use dsh_orbit.Reverse.Sessions.{
  close, close_each, is_protocol, with_route, on_open_message, on_control_message, change, on_frame,
  on_frames, ready_timeout, pinged, pong_timeout, closed_now, add_pending,
}
use dsh_orbit.Reverse.OneReady.{put_same-Inv, close-Inv}
use dsh_orbit.Reverse.Promotion.{Holds, promote-Holds}

pub close_each-Holds : (m : Manager) (ids : List Text) → Holds m → Holds (close_each m ids)
unfolding close_each
close_each-Holds m [] v = v
close_each-Holds m (id ∷ ids) v = close_each-Holds (close m id) ids (close-Inv m v id)

-- A change of a session that keeps its node and its state.
pub change-Holds :
    (m : Manager) (id : Text) (f : Session → Session)
    → ((s : Session) → ((f s).node_id ≡ s.node_id) × ((f s).state ≡ s.state))
    → Holds m
    → Holds (change m id f (get Text-discrete id m.sessions))
change-Holds m id f keeps v = elim (Option-cases (get Text-discrete id m.sessions)) [
  | inl missing ↦ rw missing v
  | inr (s, there) ↦
      let (node, state) = keeps s in
      rw there (put_same-Inv m.sessions m.current id (f s) v s there node state)
]

on_open_message-Holds :
    (m : Manager) (id : Text) (s : Session) (msg : Message)
    → get Text-discrete id m.sessions ≡ some s
    → Holds m
    → Holds (on_open_message m id s msg)
unfolding on_open_message
on_open_message-Holds m id s no_json there v = close-Inv m v id
on_open_message-Holds m id s no_message there v = close-Inv m v id
on_open_message-Holds m id s other_type there v = close-Inv m v id
on_open_message-Holds m id s (says_status none) there v = close-Inv m v id
on_open_message-Holds m id s (says_status (some route)) there v =
    elim (Bool-cases (is_ready s.state)) [
      | inl e ↦ rw e (put_same-Inv m.sessions m.current id _ v s there refl refl)
      | inr e ↦ rw e (close-Inv m v id)
    ]
on_open_message-Holds m id s (says_ready protocol route) there v =
    elim (Bool-cases (is_ready s.state)) [
      | inl e ↦ rw e (close-Inv m v id)
      | inr e ↦ elim (Bool-cases (is_protocol protocol)) [
        | inl p ↦
            rw (e, p)
              (promote-Holds (with_route m id s route) id
                (put_same-Inv m.sessions m.current id _ v s there refl refl))
        | inr p ↦ rw (e, p) (close-Inv m v id)
      ]
    ]

on_control_message-Holds :
    (m : Manager) (id : Text) (msg : Message) → Holds m → Holds (on_control_message m id msg)
unfolding on_control_message
on_control_message-Holds m id msg v = elim (Option-cases (get Text-discrete id m.sessions)) [
  | inl missing ↦ rw missing v
  | inr (s, there) ↦ elim (Bool-cases (is_closed s.state || s.superseded)) [
    | inl over ↦ rw (there, over) v
    | inr still_open ↦ rw (there, still_open) (on_open_message-Holds m id s msg there v)
  ]
]

pub on_frame-Holds : (m : Manager) (id : Text) (f : Frame) → Holds m → Holds (on_frame m id f)
unfolding on_frame
on_frame-Holds m id (message msg) v = on_control_message-Holds m id msg v
on_frame-Holds m id ping v = v
on_frame-Holds m id pong v =
    change-Holds m id (λ s. record s { awaiting_pong = false; pong_timer = false })
      (λ s. (refl, refl)) v
on_frame-Holds m id peer_close v = close-Inv m v id
on_frame-Holds m id frame_error v = close-Inv m v id

pub on_frames-Holds :
    (m : Manager) (id : Text) (fs : List Frame) → Holds m → Holds (on_frames m id fs)
unfolding on_frames
on_frames-Holds m id [] v = v
on_frames-Holds m id (f ∷ fs) v = on_frames-Holds (on_frame m id f) id fs (on_frame-Holds m id f v)

-- A test that may close a session, and its timers.
pub ready_timeout-Holds : (m : Manager) (id : Text) → Holds m → Holds (ready_timeout m id)
unfolding ready_timeout
ready_timeout-Holds m id v = elim (Option-cases (get Text-discrete id m.sessions)) [
  | inl missing ↦ rw missing v
  | inr (s, there) ↦ elim (Bool-cases s.ready_timer) [
    | inl e ↦ rw (there, e) (close-Inv m v id)
    | inr e ↦ rw (there, e) v
  ]
]

pub pong_timeout-Holds : (m : Manager) (id : Text) → Holds m → Holds (pong_timeout m id)
unfolding pong_timeout
pong_timeout-Holds m id v = elim (Option-cases (get Text-discrete id m.sessions)) [
  | inl missing ↦ rw missing v
  | inr (s, there) ↦ elim (Bool-cases (s.awaiting_pong && not (is_closed s.state))) [
    | inl e ↦ rw (there, e) (close-Inv m v id)
    | inr e ↦ rw (there, e) v
  ]
]

pub pinged-keeps : (s : Session) → ((pinged s).node_id ≡ s.node_id) × ((pinged s).state ≡ s.state)
pinged-keeps s = elim (Bool-cases (is_closed s.state)) [
  | inl e ↦ rw e (refl, refl)
  | inr e ↦ rw e (refl, refl)
]

pub add_pending-Holds :
    (m : Manager) (node id : Text) (has_head : Bool)
    → Holds m
    → Holds (add_pending m node id has_head)
unfolding add_pending
add_pending-Holds m node id has_head v =
    elim (Bool-cases (has_head && closed_now (get Text-discrete id m.sessions))) [
      | inl e ↦ rw e v
      | inr e ↦ rw e v
    ]
