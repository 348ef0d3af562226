-- ===== src/Channels/Budget.antt =====
-- The bytes that a flow of src/registry/reverse-channel.mjs holds.
use dsh_orbit.Common.{
  ℕ, ◌+◌, ◌-◌, ◌≤◌, ◌≡◌, refl, sym, ap, ◌∙◌, inl, inr, Bool, true, false, not, ◌&&◌, ◌||◌, List, [],
  ◌∷◌, ◌++◌, ltb, leb, if◌then◌else◌, length, Bool-cases, arith,
}
use dsh_orbit.Common.Text.{Text, text}
use dsh_orbit.Wire.{Octets}
use dsh_orbit.Channels.{Limits}
use dsh_orbit.Channels.Body.{
  Flow, Effect, close_channel, gives_end, rejects, tells_idle, Done, also, fail, on_response,
  accept_body, counted, push_body, consume, end_body, code_of, next_queued, next_body_chunk,
  stall_tick, await_response, wait_for_idle, idle_timeout, on_idle, Call, pushes, consumes, ends,
  responds_to, fails, asks_next, ticks, awaits_response, idles, idle_times_out, awaits_idle, Input,
  step_by, step, run,
}
use dsh_orbit.Channels.Steps.{handed, taken_by, NoLostWaiter, step_by-Keeps}

abbrev pub bytes_in : List Octets → ℕ
bytes_in [] = 0
bytes_in (x ∷ xs) = length x + bytes_in xs

abbrev pub consumed : Call → ℕ
consumed (consumes count) = count
consumed _ = 0

-- The bytes that the consumer has got and has not yet reported as consumed.
abbrev pub outstanding : ℕ → Done → Call → ℕ
outstanding before (f, es) call = before + bytes_in (handed es) - consumed call

unfoldable pub outstanding_after : Limits → Flow → ℕ → List Input → ℕ
unfolding step
outstanding_after l f out [] = out
outstanding_after l f out (i ∷ is) =
    outstanding_after l (step l f i).0 (outstanding out (step l f i) i.call) is

-- The consumer reports only what it has got.
unfoldable pub IsFair : Limits → Flow → ℕ → List Input → Type 0
unfolding step
IsFair l f out [] = Unit
IsFair l f out (i ∷ is) =
    (consumed i.call ≤ out) × IsFair l (step l f i).0 (outstanding out (step l f i) i.call) is

bytes_in-append : (xs ys : List Octets) → bytes_in (xs ++ ys) ≡ bytes_in xs + bytes_in ys
bytes_in-append [] ys = omega arith
bytes_in-append (x ∷ xs) ys = omega (arith, bytes_in-append xs ys)

-- The account covers the queue and what is outstanding; a flow that goes on is within the hard cap.
pub record IsCovered (l : Limits) (f : Flow) (out : ℕ) : Type 0 where
  pub covered : bytes_in f.body_queue + out ≤ f.queued_bytes
  pub capped : f.aborted ≡ false → f.queued_bytes ≤ l.hard_cap_bytes

-- The account after a call.
abbrev Counts : Limits → Flow → Call → Done → Type 0
Counts l f call (f', es) =
    (f.queued_bytes + bytes_in (taken_by l f call) ≤ f'.queued_bytes + consumed call)
    × (f'.aborted ≡ false → f'.queued_bytes ≤ l.hard_cap_bytes)

module _ (l : Limits) (paused : Bool) (now : ℕ) (f : Flow)
    (capped : f.aborted ≡ false → f.queued_bytes ≤ l.hard_cap_bytes) where
  abbrev Rests : Done → Type 0
  Rests (f', es) =
      (f.queued_bytes ≤ f'.queued_bytes) × (f'.aborted ≡ false → f'.queued_bytes ≤ l.hard_cap_bytes)

  Rests-if :
      (b : Bool) (d d' : Done)
      → (b ≡ true → Rests d)
      → (b ≡ false → Rests d')
      → Rests (if b then d else d')
  Rests-if true d d' then_rests else_rests = then_rests refl
  Rests-if false d d' then_rests else_rests = else_rests refl

  unchanged : (es : List Effect) → Rests (f, es)
  unchanged es = (omega arith, capped)

  fail-Rests :
      (code : Text) (g : Flow) → f.queued_bytes ≤ g.queued_bytes → Rests (fail paused code g)
  unfolding fail
  fail-Rests code g h =
      Rests-if g.aborted _ _ (λ e. (h, λ k. absurd (contrary (sym e ∙ k))))
        (λ e. (h, λ k. absurd (contrary k)))
    where
      contrary : true ≡ false → ⊥
      contrary k = ground arith

  also-Rests : (d : Done) (es : List Effect) → Rests d → Rests (also d es)
  also-Rests (f', es') es r = r

  no_chunks :
      (d : Done)
      → Rests d
      → (f.queued_bytes + 0 ≤ d.0.queued_bytes + 0)
        × (d.0.aborted ≡ false → d.0.queued_bytes ≤ l.hard_cap_bytes)
  no_chunks d (h, k) = (omega arith, k)

  accept_body-Counts :
      (bytes : Octets) (ws : List ℕ)
      → f.queued_bytes + length bytes ≤ l.hard_cap_bytes
      → (f.queued_bytes + (length bytes + 0)
          ≤ (accept_body l paused bytes (counted now bytes f) ws).0.queued_bytes + 0)
        × ((accept_body l paused bytes (counted now bytes f) ws).0.aborted ≡ false
            → (accept_body l paused bytes (counted now bytes f) ws).0.queued_bytes
              ≤ l.hard_cap_bytes)
  accept_body-Counts bytes [] h = (omega arith, λ k. h)
  accept_body-Counts bytes (w ∷ ws) h = (omega arith, λ k. h)

  push_body-Counts : (bytes : Octets) → Counts l f (pushes bytes) (push_body l paused now bytes f)
  unfolding push_body
  push_body-Counts bytes = elim (Bool-cases (f.aborted || f.body_ended)) [
    | inl e ↦ rw e (omega arith, capped)
    | inr e ↦ rw e (elim (Bool-cases (ltb l.hard_cap_bytes (f.queued_bytes + length bytes))) [
      | inl over ↦ rw over (
          no_chunks (also overrun (close_channel (text "flow-overrun") ∷ [])) (
            also-Rests overrun (close_channel (text "flow-overrun") ∷ [])
              (fail-Rests (text "flow-overrun") (counted now bytes f) (omega arith))))
      | inr fits ↦ rw fits (accept_body-Counts bytes f.body_waiters (ground arith))
    ])
  ]
    where
      overrun : Done
      overrun = fail paused (text "flow-overrun") (counted now bytes f)

  next_queued-Rests : (id : ℕ) (queue : List Octets) → Rests (next_queued id f queue)
  next_queued-Rests id (bytes ∷ queue) = (omega arith, capped)
  next_queued-Rests id [] =
      Rests-if f.body_ended _ _ (λ e. unchanged (gives_end id ∷ [])) (λ e. (omega arith, capped))

  step_by-Counts : (call : Call) → Counts l f call (step_by l paused now f call)
  unfolding consume end_body on_response await_response wait_for_idle idle_timeout on_idle
      next_body_chunk stall_tick
  step_by-Counts (pushes bytes) = push_body-Counts bytes
  step_by-Counts (consumes count) = (omega arith, λ k. omega (arith, capped k))
  step_by-Counts ends =
      no_chunks (end_body paused f)
        (Rests-if f.body_ended _ _ (λ e. unchanged []) (λ e. (omega arith, capped)))
  step_by-Counts responds_to =
      no_chunks (on_response f)
        (Rests-if f.aborted _ _ (λ e. unchanged []) (λ e. (omega arith, capped)))
  step_by-Counts awaits_response = (omega arith, capped)
  step_by-Counts (awaits_idle channel_closed) = no_chunks (wait_for_idle channel_closed f) (
      Rests-if (f.idle_received || f.aborted || channel_closed) _ _
        (λ e. unchanged (tells_idle ∷ [])) (λ e. (omega arith, capped)))
  step_by-Counts idle_times_out = (omega arith, capped)
  step_by-Counts idles = no_chunks (on_idle paused f) (
      Rests-if (not f.body_ended) _ _
        (λ e.
          also-Rests (fail paused (text "channel-desync") (record f { idle_received = true }))
            (close_channel (text "channel-desync") ∷ [])
            (fail-Rests (text "channel-desync") (record f { idle_received = true }) (omega arith)))
        (λ e. (omega arith, capped)))
  step_by-Counts (fails code) = no_chunks (fail paused code f) (fail-Rests code f (omega arith))
  step_by-Counts (asks_next id) = no_chunks (next_body_chunk id f) (
      Rests-if f.aborted _ _ (λ e. unchanged (rejects id (code_of f.abort_code) ∷ []))
        (λ e. next_queued-Rests id f.body_queue))
  step_by-Counts ticks = no_chunks (stall_tick l paused now f) (
      Rests-if (f.aborted || f.body_ended) _ _ (λ e. unchanged [])
        (λ e.
          Rests-if
            (leb l.soft_mark_bytes f.queued_bytes
              && leb l.stall_timeout_ms (now - f.last_consumed_at))
            _ _
            (λ e'.
              also-Rests (fail paused (text "flow-stall") f)
                (close_channel (text "flow-stall") ∷ [])
                (fail-Rests (text "flow-stall") f (omega arith)))
            (λ e'. unchanged [])))

step-IsCovered :
    (l : Limits) (f : Flow) (out : ℕ) (i : Input)
    → NoLostWaiter f
    → IsCovered l f out
    → consumed i.call ≤ out
    → IsCovered l (step l f i).0 (outstanding out (step l f i) i.call)
unfolding step
step-IsCovered l f out i w h fair = record { covered = balance; capped = counts.1 }
  where
    counts : Counts l f i.call (step_by l i.paused i.now f i.call)
    counts = step_by-Counts l i.paused i.now f h.capped i.call

    same_bytes :
        bytes_in (handed (step_by l i.paused i.now f i.call).1)
          + bytes_in (step_by l i.paused i.now f i.call).0.body_queue
        ≡ bytes_in f.body_queue + bytes_in (taken_by l f i.call)
    same_bytes =
        sym (
          bytes_in-append (handed (step_by l i.paused i.now f i.call).1)
            (step_by l i.paused i.now f i.call).0.body_queue)
        ∙ ap bytes_in (step_by-Keeps l i.paused i.now f w i.call).0
        ∙ bytes_in-append f.body_queue (taken_by l f i.call)

    balance :
        bytes_in (step_by l i.paused i.now f i.call).0.body_queue
          + outstanding out (step_by l i.paused i.now f i.call) i.call
        ≤ (step_by l i.paused i.now f i.call).0.queued_bytes
    balance = omega (arith, same_bytes, counts.0, h.covered)

-- In every order of calls, with a consumer that reports as consumed only what it has got: the account of the
-- flow covers the bytes of the queue and those that the consumer has got and not reported; and a flow that is
-- not aborted has no more of them than the hard cap. Both held before the calls, and nobody waited while a
-- chunk was queued or after the end.
pub run-IsCovered :
    (l : Limits) (f : Flow) (out : ℕ) (is : List Input)
    → NoLostWaiter f
    → IsCovered l f out
    → IsFair l f out is
    → IsCovered l (run l f is).0 (outstanding_after l f out is)
unfolding run outstanding_after IsFair step
run-IsCovered l f out [] w h fair = h
run-IsCovered l f out (i ∷ is) w h (fair, later) =
    run-IsCovered l (step l f i).0 (outstanding out (step l f i) i.call) is
      (step_by-Keeps l i.paused i.now f w i.call).1 (step-IsCovered l f out i w h fair) later
