-- ===== src/Channels/Steps.antt =====
-- What each call on a flow of src/registry/reverse-channel.mjs does to the chunks and to who waits for them.
use dsh_orbit.Common.{
  ℕ, ◌+◌, ◌-◌, ◌≡◌, refl, sym, ap, ◌∙◌, ◌⊎◌, inl, inr, Bool, true, false, not, ◌&&◌, ◌||◌, List, [],
  ◌∷◌, ◌++◌, map, ltb, leb, if◌then◌else◌, length, Bool-cases, arith,
}
use mathlib.Core.List.{append-nil}
use dsh_orbit.Common.Text.{Text, text}
use dsh_orbit.Wire.{Octets}
use dsh_orbit.Channels.{Limits}
use dsh_orbit.Channels.Body.{
  Flow, Effect, pause, resume, close_channel, gives, gives_end, rejects, rejects_response, responds,
  tells_idle, tells_no_idle, frees_channel, Done, only_if, also, fail, on_response, accept_body,
  counted, push_body, consume, end_body, code_of, next_queued, next_body_chunk, stall_tick,
  await_response, wait_for_idle, idle_timeout, on_idle, Call, pushes, consumes, ends, responds_to,
  fails, asks_next, ticks, awaits_response, idles, idle_times_out, awaits_idle, step_by,
}

-- The chunks that effects hand to the consumer.
abbrev pub handed : List Effect → List Octets
handed [] = []
handed (gives id bytes ∷ es) = bytes ∷ handed es
handed (_ ∷ es) = handed es

-- The chunk of a call that the flow takes.
abbrev pub taken_if : Bool → Octets → List Octets
taken_if b bytes = if b then bytes ∷ [] else []

abbrev pub taken_by : Limits → Flow → Call → List Octets
taken_by l f (pushes bytes) =
    taken_if
      (not (f.aborted || f.body_ended)
        && not (ltb l.hard_cap_bytes (f.queued_bytes + length bytes)))
      bytes
taken_by l f _ = []

-- Nobody waits for a chunk while there is one, or after the end.
pub record NoLostWaiter (f : Flow) : Type 0 where
  pub either : (f.body_waiters ≡ []) ⊎ ((f.body_queue ≡ []) × (f.body_ended ≡ false))

-- A step keeps the order and loses no waiter.
abbrev pub Keeps : Flow → List Octets → Done → Type 0
Keeps f chunks (f', es) = (handed es ++ f'.body_queue ≡ f.body_queue ++ chunks) × NoLostWaiter f'

pub handed-append : (es es' : List Effect) → handed (es ++ es') ≡ handed es ++ handed es'
handed-append [] es' = refl
handed-append (pause ∷ es) es' = handed-append es es'
handed-append (resume ∷ es) es' = handed-append es es'
handed-append (close_channel code ∷ es) es' = handed-append es es'
handed-append (gives id bytes ∷ es) es' = ap (◌∷◌ bytes) (handed-append es es')
handed-append (gives_end id ∷ es) es' = handed-append es es'
handed-append (rejects id code ∷ es) es' = handed-append es es'
handed-append (rejects_response code ∷ es) es' = handed-append es es'
handed-append (responds ∷ es) es' = handed-append es es'
handed-append (tells_idle ∷ es) es' = handed-append es es'
handed-append (tells_no_idle ∷ es) es' = handed-append es es'
handed-append (frees_channel ∷ es) es' = handed-append es es'

handed-ends : (ws : List ℕ) → handed (map gives_end ws) ≡ []
handed-ends [] = refl
handed-ends (w ∷ ws) = handed-ends ws

handed-rejects : (ws : List ℕ) (code : Text) → handed (map (λ w. rejects w code) ws) ≡ []
handed-rejects [] code = refl
handed-rejects (w ∷ ws) code = handed-rejects ws code

-- A call that hands nothing on and leaves the queue.
hands_nothing :
    (f f' : Flow) (es : List Effect)
    → handed es ≡ []
    → f'.body_queue ≡ f.body_queue
    → NoLostWaiter f'
    → Keeps f [] (f', es)
hands_nothing f f' es h q w = (rw (h, q) (sym (append-nil f.body_queue)), w)

only_if-nothing : (b : Bool) (e : Effect) → handed (e ∷ []) ≡ [] → handed (only_if b e) ≡ []
only_if-nothing true e h = h
only_if-nothing false e h = refl

Keeps-if :
    (f : Flow) (chunks : List Octets) (b : Bool) (d d' : Done)
    → (b ≡ true → Keeps f chunks d)
    → (b ≡ false → Keeps f chunks d')
    → Keeps f chunks (if b then d else d')
Keeps-if f chunks true d d' then_keeps else_keeps = then_keeps refl
Keeps-if f chunks false d d' then_keeps else_keeps = else_keeps refl

also-Keeps :
    (f : Flow) (chunks : List Octets) (d : Done) (es : List Effect)
    → handed es ≡ []
    → Keeps f chunks d
    → Keeps f chunks (also d es)
also-Keeps f chunks (f', es') es h (k, w) =
    (rw (handed-append es' es, h, append-nil (handed es')) k, w)

nothing_changes : (f : Flow) → NoLostWaiter f → Keeps f [] (f, [])
nothing_changes f w = hands_nothing f f [] refl refl w

both_silent : (es es' : List Effect) → handed es ≡ [] → handed es' ≡ [] → handed (es ++ es') ≡ []
both_silent es es' h h' = rw (handed-append es es', h, h') refl

fail-Keeps :
    (paused : Bool) (code : Text) (f : Flow) → NoLostWaiter f → Keeps f [] (fail paused code f)
unfolding fail
fail-Keeps paused code f w =
    Keeps-if f [] f.aborted _ _ (λ e. nothing_changes f w)
      (λ e. hands_nothing f _ effects silent refl (record { either = inl refl }))
  where
    effects : List Effect
    effects =
        only_if paused resume
        ++ only_if f.response_waits (rejects_response code)
        ++ map (λ v. rejects v code) f.body_waiters
        ++ only_if f.idle_waits tells_idle

    silent : handed effects ≡ []
    silent =
        both_silent
          (only_if paused resume
            ++ only_if f.response_waits (rejects_response code)
            ++ map (λ v. rejects v code) f.body_waiters)
          (only_if f.idle_waits tells_idle)
          (both_silent (only_if paused resume ++ only_if f.response_waits (rejects_response code))
            (map (λ v. rejects v code) f.body_waiters)
            (both_silent (only_if paused resume) (only_if f.response_waits (rejects_response code))
              (only_if-nothing paused resume refl)
              (only_if-nothing f.response_waits (rejects_response code) refl))
            (handed-rejects f.body_waiters code))
          (only_if-nothing f.idle_waits tells_idle refl)

accept_body-Keeps :
    (l : Limits) (paused : Bool) (bytes : Octets) (f : Flow) (ws : List ℕ)
    → (ws ≡ []) ⊎ ((f.body_queue ≡ []) × (f.body_ended ≡ false))
    → f.body_waiters ≡ ws
    → f.body_ended ≡ false
    → Keeps f (bytes ∷ []) (accept_body l paused bytes f ws)
accept_body-Keeps l paused bytes f [] w e going = (
  rw (only_if-nothing (leb l.soft_mark_bytes f.queued_bytes && not paused) pause refl) refl,
  record { either = inl e },
)
accept_body-Keeps l paused bytes f (v ∷ vs) (inl none_waits) e going = absurd cc
accept_body-Keeps l paused bytes f (v ∷ vs) (inr (empty, k)) e going =
    (rw empty refl, record { either = inr (empty, going) })

not_or : (a b : Bool) → (a || b) ≡ false → b ≡ false
not_or a b e = ground arith

module _ (l : Limits) (paused : Bool) (now : ℕ) (f : Flow) (w : NoLostWaiter f) where
  push_body-Keeps :
      (bytes : Octets) → Keeps f (taken_by l f (pushes bytes)) (push_body l paused now bytes f)
  unfolding push_body
  push_body-Keeps bytes = elim (Bool-cases (f.aborted || f.body_ended)) [
    | inl e ↦ rw e (nothing_changes f w)
    | inr e ↦ rw e (elim (Bool-cases (ltb l.hard_cap_bytes (f.queued_bytes + length bytes))) [
      | inl over ↦ rw over (
          also-Keeps f [] (fail paused (text "flow-overrun") (counted now bytes f))
            (close_channel (text "flow-overrun") ∷ []) refl
            (fail-Keeps paused (text "flow-overrun") (counted now bytes f)
              (record { either = w.either })))
      | inr fits ↦ rw fits (
          accept_body-Keeps l paused bytes (counted now bytes f) f.body_waiters w.either refl
            (not_or f.aborted f.body_ended e))
    ])
  ]

  consume-Keeps : (count : ℕ) → Keeps f [] (consume l paused now count f)
  unfolding consume
  consume-Keeps count =
      hands_nothing f (record f { last_consumed_at = now; queued_bytes = f.queued_bytes - count })
        (only_if (ltb (f.queued_bytes - count) l.resume_below_bytes && paused) resume)
        (only_if-nothing (ltb (f.queued_bytes - count) l.resume_below_bytes && paused) resume refl)
        refl (record { either = w.either })

  end_body-Keeps : Keeps f [] (end_body paused f)
  unfolding end_body
  end_body-Keeps =
      Keeps-if f [] f.body_ended _ _ (λ e. nothing_changes f w)
        (λ e.
          hands_nothing f (record f { body_ended = true; body_waiters = [] })
            (only_if paused resume ++ map gives_end f.body_waiters) silent refl
            (record { either = inl refl }))
    where
      silent : handed (only_if paused resume ++ map gives_end f.body_waiters) ≡ []
      silent =
          rw
            (
              handed-append (only_if paused resume) (map gives_end f.body_waiters),
              only_if-nothing paused resume refl,
              handed-ends f.body_waiters,
            )
            refl

  next_queued-Keeps :
      (id : ℕ) (queue : List Octets) → f.body_queue ≡ queue → Keeps f [] (next_queued id f queue)
  next_queued-Keeps id (bytes ∷ queue) e =
      (rw e (ap (◌∷◌ bytes) (sym (append-nil queue))), record { either = inl (none_wait w.either) })
    where
      none_wait :
          (f.body_waiters ≡ []) ⊎ ((f.body_queue ≡ []) × (f.body_ended ≡ false))
          → f.body_waiters ≡ []
      none_wait (inl h) = h
      none_wait (inr (h, k)) = absurd (no_chunk (sym h ∙ e))
        where
          no_chunk : [] ≡ bytes ∷ queue → ⊥
          no_chunk h' = cc
  next_queued-Keeps id [] e =
      Keeps-if f [] f.body_ended _ _ (λ h. hands_nothing f f (gives_end id ∷ []) refl refl w)
        (λ h. hands_nothing f _ [] refl refl (record { either = inr (e, h) }))

  next_body_chunk-Keeps : (id : ℕ) → Keeps f [] (next_body_chunk id f)
  unfolding next_body_chunk
  next_body_chunk-Keeps id =
      Keeps-if f [] f.aborted _ _
        (λ e. hands_nothing f f (rejects id (code_of f.abort_code) ∷ []) refl refl w)
        (λ e. next_queued-Keeps id f.body_queue refl)

  stall_tick-Keeps : Keeps f [] (stall_tick l paused now f)
  unfolding stall_tick
  stall_tick-Keeps =
      Keeps-if f [] (f.aborted || f.body_ended) _ _ (λ e. nothing_changes f w)
        (λ e.
          Keeps-if f []
            (leb l.soft_mark_bytes f.queued_bytes
              && leb l.stall_timeout_ms (now - f.last_consumed_at))
            _ _
            (λ e'.
              also-Keeps f [] (fail paused (text "flow-stall") f)
                (close_channel (text "flow-stall") ∷ []) refl
                (fail-Keeps paused (text "flow-stall") f w))
            (λ e'. nothing_changes f w))

  on_idle-Keeps : Keeps f [] (on_idle paused f)
  unfolding on_idle
  on_idle-Keeps =
      Keeps-if f [] (not f.body_ended) _ _
        (λ e.
          also-Keeps f [] (fail paused (text "channel-desync") (record f { idle_received = true }))
            (close_channel (text "channel-desync") ∷ []) refl
            (fail-Keeps paused (text "channel-desync") (record f { idle_received = true })
              (record { either = w.either })))
        (λ e.
          hands_nothing f (record f { idle_received = true })
            (only_if f.idle_waits tells_idle ++ frees_channel ∷ [])
            (both_silent (only_if f.idle_waits tells_idle) (frees_channel ∷ [])
              (only_if-nothing f.idle_waits tells_idle refl) refl)
            refl (record { either = w.either }))

  pub step_by-Keeps : (call : Call) → Keeps f (taken_by l f call) (step_by l paused now f call)
  unfolding on_response await_response wait_for_idle idle_timeout
  step_by-Keeps (pushes bytes) = push_body-Keeps bytes
  step_by-Keeps (consumes count) = consume-Keeps count
  step_by-Keeps ends = end_body-Keeps
  step_by-Keeps responds_to =
      Keeps-if f [] f.aborted _ _ (λ e. nothing_changes f w)
        (λ e.
          hands_nothing f (record f { response_waits = false }) (only_if f.response_waits responds)
            (only_if-nothing f.response_waits responds refl) refl (record { either = w.either }))
  step_by-Keeps awaits_response =
      hands_nothing f (record f { response_waits = true }) [] refl refl
        (record { either = w.either })
  step_by-Keeps (awaits_idle channel_closed) =
      Keeps-if f [] (f.idle_received || f.aborted || channel_closed) _ _
        (λ e. hands_nothing f f (tells_idle ∷ []) refl refl w)
        (λ e.
          hands_nothing f (record f { idle_waits = true }) [] refl refl
            (record { either = w.either }))
  step_by-Keeps idle_times_out =
      hands_nothing f (record f { idle_waits = false }) (only_if f.idle_waits tells_no_idle)
        (only_if-nothing f.idle_waits tells_no_idle refl) refl (record { either = w.either })
  step_by-Keeps idles = on_idle-Keeps
  step_by-Keeps (fails code) = fail-Keeps paused code f w
  step_by-Keeps (asks_next id) = next_body_chunk-Keeps id
  step_by-Keeps ticks = stall_tick-Keeps
