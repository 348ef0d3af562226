-- ===== src/Reverse.antt =====
-- src/registry/reverse-session.mjs: reverse control sessions of nodes and their manager. A session is
-- known by its id. Frames that are sent, sockets and the listeners are left out; a clock is not read but
-- for the time of the last pong, which nothing uses.
pub mod Sessions
pub mod OneReady
pub mod Promotion
pub mod Operations
pub mod Queries
pub mod Events
mod Tests
use dsh_orbit.Common.{ℕ, Bool, true, false, Option, none, some, List, [], ◌∷◌, if◌then◌else◌, ite}
use dsh_orbit.Common.Text.{Text, Text-discrete, text, text_eq}
use dsh_orbit.Common.JsMap.{get, put, remove}

-- The flag `closed` is set exactly when the state becomes closed.
pub data SessionState : Type 0 where
  pending ready closed : SessionState

pub record Session : Type 0 where
  pub node_id : Text
  pub key_id : Text
  pub state : SessionState
  pub route_ready : Bool
  pub superseded : Bool
  pub ready_timer : Bool
  pub ping_timer : Bool
  pub pong_timer : Bool
  pub awaiting_pong : Bool

-- `current` has the ready session of a node, `pending` its pending sessions.
pub record Manager : Type 0 where
  pub sessions : List (Text × Session)
  pub current : List (Text × Text)
  pub pending : List (Text × List Text)

unfoldable pub create : Manager
create = record { sessions = []; current = []; pending = [] }

-- A control message: no JSON, no object with a type, `ready`, `status` (`none` for a readiness that is no
-- Boolean), or another type. In `ready`, a readiness that is not `true` counts as false.
pub data Message : Type 0 where
  no_json no_message : Message
  says_ready : (protocol : Option Text) (route_ready : Bool) → Message
  says_status : (route_ready : Option Bool) → Message
  other_type : Message

-- What the frame parser reports.
pub data Frame : Type 0 where
  message : Message → Frame
  ping pong peer_close frame_error : Frame

abbrev pub is_closed : SessionState → Bool
is_closed closed = true
is_closed _ = false

abbrev pub is_ready : SessionState → Bool
is_ready ready = true
is_ready _ = false

unfoldable pub is_this : Option Text → Text → Bool
is_this none id = false
is_this (some other) id = ite (Text-discrete other id) true false

unfoldable pub without : Text → List Text → List Text
without id [] = []
without id (x ∷ xs) = ite (Text-discrete x id) (without id xs) (x ∷ without id xs)
