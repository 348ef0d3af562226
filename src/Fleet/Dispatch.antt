-- ===== src/Fleet/Dispatch.antt =====
-- One dispatch of src/registry/fleet-scheduler.mjs: the race with the timer, and the transport that is
-- used when no other is given. The texts on standard output are left out.
use dsh_orbit.Common.{ℕ, ◌*◌, Bool, true, not, Option, none, some, ltb, if◌then◌else◌}
use dsh_orbit.Common.Text.{Text, text, text_eq}
use dsh_orbit.Fleet.{completed, failed, timeout, unreachable, Outcome, bare, NodeRow, Registry, Job}
use dsh_orbit.Fleet.Payload.{payload_timeout}

-- How a transport ends: with an outcome, or by throwing an error with a code or without.
pub data Ending : Type 0 where
  resolves : Outcome → Ending
  throws : Option Text → Ending

abbrev pub timed_out : Outcome
timed_out = bare timeout (some (text "task-timeout"))

-- `Promise.race` of the transport, which ends after a time or never, with the timer.
unfoldable pub dispatch_with_timeout : ℕ → Option (ℕ × Ending) → Ending
dispatch_with_timeout timeout_ms none = resolves timed_out
dispatch_with_timeout timeout_ms (some (after, ending)) =
    if ltb after timeout_ms then ending else resolves timed_out

abbrev pub positive : Option ℕ → Option ℕ
positive none = none
positive (some n) = if ltb 0 n then some n else none

abbrev pub or_default : Option ℕ → ℕ → ℕ
or_default none d = d
or_default (some n) d = n

abbrev pub or_payload : Option ℕ → Option ℕ → Option ℕ
or_payload none p = p
or_payload (some n) p = some n

-- The time limit of a dispatch: the job's, the payload's or the scheduler's.
unfoldable pub effective_timeout : ℕ → Job → ℕ
effective_timeout default_ms job =
    or_default (or_payload (positive job.timeout_ms) (payload_timeout job.payload)) default_ms

pub record SessionInfo : Type 0 where
  pub reverse_session_id : Text
  pub route_ready : Bool

-- What the scheduler uses of the reverse session manager and of the reverse channel manager.
pub record Managers : Type 0 where
  pub get_session_info : Option (Text → Option SessionInfo)
  pub has_channel_for_session : Option (Text → Text → Bool)

abbrev pub executed : Outcome
executed = record {
  status = completed;
  exit_code = some 0;
  stdout = none;
  stderr = some (text "");
  error = none;
}

abbrev pub channel_ok : Option (Text → Text → Bool) → Text → Text → Bool
channel_ok none node session = true
channel_ok (some has) node session = has node session

unfoldable pub on_session : Managers → Text → Option SessionInfo → Outcome
on_session ms node none = bare unreachable (some (text "reverse-session-offline"))
on_session ms node (some info) =
    if not info.route_ready
    then bare unreachable (some (text "reverse-route-unreachable"))
    else if channel_ok ms.has_channel_for_session node info.reverse_session_id
    then executed
    else bare unreachable (some (text "reverse-capacity"))

abbrev pub without_sessions : Option (Text → Text → Bool) → Outcome
without_sessions none = bare unreachable (some (text "reverse-capacity"))
without_sessions (some has) = executed

unfoldable pub reverse_checks : Managers → Text → Outcome
unfolding on_session
reverse_checks ms node = elim ms.get_session_info [
  | none ↦ without_sessions ms.has_channel_for_session
  | some get_info ↦ on_session ms node (get_info node)
]

-- `payload_bytes` is the length of the payload as JSON in UTF-8.
unfoldable pub dispatch_to_row : Managers → Text → ℕ → NodeRow → Outcome
unfolding reverse_checks
dispatch_to_row ms node payload_bytes row =
    if text_eq row.route_mode (text "reverse")
    then if ltb (32 * 1024) payload_bytes
      then bare failed (some (text "payload-too-large"))
      else reverse_checks ms node
    else executed

abbrev pub on_row : Managers → Text → ℕ → Option NodeRow → Outcome
on_row ms node payload_bytes none = bare unreachable (some (text "node-not-found"))
on_row ms node payload_bytes (some row) = dispatch_to_row ms node payload_bytes row

unfoldable pub default_dispatch : Option Registry → Managers → Text → ℕ → Outcome
unfolding dispatch_to_row
default_dispatch none ms node payload_bytes = bare failed (some (text "no-registry"))
default_dispatch (some r) ms node payload_bytes = on_row ms node payload_bytes (r.get_node_row node)
