-- ===== src/Reverse/Tests.antt =====
-- Runs of the session manager, and its theorem at a concrete run.
use dsh_orbit.Common.{◌≡◌, refl, true, false, some, [], ◌∷◌, ℕ_discrete}
use dsh_orbit.Common.Text.{Text, Text-discrete, text, text_eq}
use dsh_orbit.Common.JsMap.{get, put, remove}
use dsh_orbit.Reverse.{Session, Manager, says_ready, message, Frame, create, is_this, without}
use dsh_orbit.Reverse.Sessions.{
  close, close_each, drop_current, drop_pending, mark_superseded, raise, close_previous, promote,
  promoted, new_session, on_open_message, on_control_message, on_frame, on_frames, add_pending,
  register_upgrade,
}
use dsh_orbit.Reverse.Queries.{get_session_info, current_session}
use dsh_orbit.Reverse.Events.{
  registers, receives, apply, Reachable, created, after, one_ready_session,
}

sessions : Unit {0}
unfolding get put remove Text-discrete ℕ_discrete text_eq create is_this without close close_each
    drop_current drop_pending mark_superseded raise close_previous promote on_open_message
    on_control_message on_frame on_frames add_pending register_upgrade get_session_info
    current_session apply
sessions = tt

abbrev says : Frame
says = message (says_ready (some (text "orbit-reverse-v1")) true)

abbrev node : Text
node = text "n"

-- A session, and a second one that takes its place.
abbrev first : Manager
first =
    apply (apply create (registers node (text "k") (text "a") false [])) (receives (text "a") says)

abbrev second : Manager
second =
    apply (apply first (registers node (text "k") (text "b") false [])) (receives (text "b") says)

takes_over : second.current ≡ (node, text "b") ∷ []
unfolding sessions
takes_over = refl

-- A session whose `ready` is in the head is current, and the next connection, which is only pending,
-- closes it.
evicted :
    (register_upgrade create node (text "k") (text "a") true (says ∷ [])).current
    ≡ (node, text "a") ∷ []
unfolding sessions
evicted = refl

evicts :
    (register_upgrade
      (register_upgrade create node (text "k") (text "a") true (says ∷ []))
      node
      (text "k")
      (text "b")
      false
      []).current
    ≡ []
unfolding sessions
evicts = refl

second-Reachable : Reachable second
unfolding sessions
second-Reachable =
    after (receives (text "b") says)
      (after (registers node (text "k") (text "b") false [])
        (after (receives (text "a") says)
          (after (registers node (text "k") (text "a") false []) created refl) tt)
        refl)
      tt

abbrev is_current : Session
is_current = promoted (record (new_session node (text "k")) { route_ready = true })

there : get Text-discrete (text "b") second.sessions ≡ some is_current
unfolding sessions
there = refl

one_ready_session_example :
    (text "b" ≡ text "b") × (get Text-discrete node second.current ≡ some (text "b"))
one_ready_session_example =
    one_ready_session second (text "b") (text "b") is_current is_current second-Reachable there
      there refl refl refl
