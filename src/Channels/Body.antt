-- ===== src/Channels/Body.antt =====
-- The class Flow of src/registry/reverse-channel.mjs, for flows of HTTP: the queue of the response body
-- between the channel's socket and the consumer. What a call does to others is a list of effects; whether
-- the socket is paused and the time are arguments.
use dsh_orbit.Common.{
  ℕ, ◌+◌, ◌-◌, Bool, true, false, not, ◌&&◌, ◌||◌, Option, none, some, List, [], ◌∷◌, ◌++◌, map,
  ltb, leb, if◌then◌else◌, length,
}
use dsh_orbit.Common.Text.{Text, text}
use dsh_orbit.Wire.{Octets}
use dsh_orbit.Channels.{Limits}

-- A waiting call of `nextBodyChunk` is known by a number.
pub record Flow : Type 0 where
  pub aborted : Bool
  pub abort_code : Option Text
  pub response_waits : Bool
  pub body_queue : List Octets
  pub body_waiters : List ℕ
  pub body_ended : Bool
  pub idle_received : Bool
  pub idle_waits : Bool
  pub queued_bytes : ℕ
  pub last_consumed_at : ℕ

unfoldable pub new_flow : ℕ → Flow
new_flow now = record {
  aborted = false;
  abort_code = none;
  response_waits = false;
  body_queue = [];
  body_waiters = [];
  body_ended = false;
  idle_received = false;
  idle_waits = false;
  queued_bytes = 0;
  last_consumed_at = now;
}

-- On the socket of the channel, on the channel, on promises.
pub data Effect : Type 0 where
  pause resume : Effect
  close_channel : Text → Effect
  gives : ℕ → Octets → Effect
  gives_end : ℕ → Effect
  rejects : ℕ → Text → Effect
  rejects_response : Text → Effect
  responds tells_idle tells_no_idle frees_channel : Effect

abbrev pub Done : Type 0
Done = Flow × List Effect

abbrev pub only_if : Bool → Effect → List Effect
only_if b e = if b then e ∷ [] else []

abbrev pub also : Done → List Effect → Done
also (f, es) more = (f, es ++ more)

unfoldable pub fail : Bool → Text → Flow → Done
fail paused code f = if f.aborted then (f, []) else (
  record f { aborted = true; abort_code = some code; body_waiters = []; body_ended = true },
  only_if paused resume
      ++ only_if f.response_waits (rejects_response code)
      ++ map (λ w. rejects w code) f.body_waiters
      ++ only_if f.idle_waits tells_idle,
)

unfoldable pub on_response : Flow → Done
on_response f =
    if f.aborted
    then (f, [])
    else (record f { response_waits = false }, only_if f.response_waits responds)

abbrev pub accept_body : Limits → Bool → Octets → Flow → List ℕ → Done
accept_body l paused bytes f (w ∷ ws) = (record f { body_waiters = ws }, gives w bytes ∷ [])
accept_body l paused bytes f [] = (
  record f { body_queue = f.body_queue ++ bytes ∷ [] },
  only_if (leb l.soft_mark_bytes f.queued_bytes && not paused) pause,
)

-- The flow after the accounting of the bytes that have come.
abbrev pub counted : ℕ → Octets → Flow → Flow
counted now bytes f = record f {
  queued_bytes = f.queued_bytes + length bytes;
  last_consumed_at = now;
}

unfoldable pub push_body : Limits → Bool → ℕ → Octets → Flow → Done
unfolding fail
push_body l paused now bytes f =
    if f.aborted || f.body_ended
    then (f, [])
    else if ltb l.hard_cap_bytes (f.queued_bytes + length bytes)
    then also (fail paused (text "flow-overrun") (counted now bytes f))
        (close_channel (text "flow-overrun") ∷ [])
    else accept_body l paused bytes (counted now bytes f) f.body_waiters

unfoldable pub consume : Limits → Bool → ℕ → ℕ → Flow → Done
consume l paused now count f = (
  record f { last_consumed_at = now; queued_bytes = f.queued_bytes - count },
  only_if (ltb (f.queued_bytes - count) l.resume_below_bytes && paused) resume,
)

unfoldable pub end_body : Bool → Flow → Done
end_body paused f = if f.body_ended then (f, []) else (
  record f { body_ended = true; body_waiters = [] },
  only_if paused resume ++ map gives_end f.body_waiters,
)

abbrev pub code_of : Option Text → Text
code_of none = text "flow-aborted"
code_of (some code) = code

abbrev pub next_queued : ℕ → Flow → List Octets → Done
next_queued id f (bytes ∷ queue) = (record f { body_queue = queue }, gives id bytes ∷ [])
next_queued id f [] =
    if f.body_ended
    then (f, gives_end id ∷ [])
    else (record f { body_waiters = f.body_waiters ++ id ∷ [] }, [])

unfoldable pub next_body_chunk : ℕ → Flow → Done
next_body_chunk id f =
    if f.aborted then (f, rejects id (code_of f.abort_code) ∷ []) else next_queued id f f.body_queue

-- The promise of `executeReverseHttp` for the head of the response.
unfoldable pub await_response : Flow → Done
await_response f = (record f { response_waits = true }, [])

unfoldable pub wait_for_idle : Bool → Flow → Done
wait_for_idle channel_closed f =
    if f.idle_received || f.aborted || channel_closed
    then (f, tells_idle ∷ [])
    else (record f { idle_waits = true }, [])

-- The timer of `waitForIdle`
unfoldable pub idle_timeout : Flow → Done
idle_timeout f = (record f { idle_waits = false }, only_if f.idle_waits tells_no_idle)

-- The node says that the channel is idle: `onNodeMessage`.
unfoldable pub on_idle : Bool → Flow → Done
unfolding fail
on_idle paused f =
    if not f.body_ended
    then also (fail paused (text "channel-desync") (record f { idle_received = true }))
        (close_channel (text "channel-desync") ∷ [])
    else (record f { idle_received = true }, only_if f.idle_waits tells_idle ++ frees_channel ∷ [])

-- `stallTimer`
unfoldable pub stall_tick : Limits → Bool → ℕ → Flow → Done
unfolding fail
stall_tick l paused now f =
    if f.aborted || f.body_ended
    then (f, [])
    else if leb l.soft_mark_bytes f.queued_bytes
        && leb l.stall_timeout_ms (now - f.last_consumed_at)
    then also (fail paused (text "flow-stall") f) (close_channel (text "flow-stall") ∷ [])
    else (f, [])

-- The calls on a flow, in any order.
pub data Call : Type 0 where
  pushes : Octets → Call
  consumes : ℕ → Call
  ends responds_to awaits_response idles idle_times_out : Call
  awaits_idle : (channel_closed : Bool) → Call
  fails : Text → Call
  asks_next : ℕ → Call
  ticks : Call

-- A call, with the state of the socket and the time.
pub record Input : Type 0 where
  pub call : Call
  pub paused : Bool
  pub now : ℕ

abbrev pub step_by : Limits → Bool → ℕ → Flow → Call → Done
step_by l paused now f (pushes bytes) = push_body l paused now bytes f
step_by l paused now f (consumes count) = consume l paused now count f
step_by l paused now f ends = end_body paused f
step_by l paused now f responds_to = on_response f
step_by l paused now f awaits_response = await_response f
step_by l paused now f (awaits_idle channel_closed) = wait_for_idle channel_closed f
step_by l paused now f idle_times_out = idle_timeout f
step_by l paused now f idles = on_idle paused f
step_by l paused now f (fails code) = fail paused code f
step_by l paused now f (asks_next id) = next_body_chunk id f
step_by l paused now f ticks = stall_tick l paused now f

unfoldable pub step : Limits → Flow → Input → Done
unfolding push_body consume end_body on_response await_response wait_for_idle idle_timeout on_idle
    fail next_body_chunk stall_tick
step l f i = step_by l i.paused i.now f i.call

unfoldable pub run : Limits → Flow → List Input → Done
unfolding step
run l f [] = (f, [])
run l f (i ∷ is) =
    let (f', es) : Done = step l f i in let (f'', es') : Done = run l f' is in (f'', es ++ es')
