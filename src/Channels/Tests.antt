-- ===== src/Channels/Tests.antt =====
-- Flows of src/registry/reverse-channel.mjs on concrete calls.
use dsh_orbit.Common.{
  ◌++◌, true, ℕ, ◌≡◌, ◌≢◌, refl, inl, inr, Bool-cases, false, none, some, List, [], ◌∷◌, arith,
}
use dsh_orbit.Common.Text.{text, text_eq}
use dsh_orbit.Channels.{Limits}
use dsh_orbit.Channels.Body.{
  new_flow, pause, close_channel, gives, gives_end, Call, pushes, consumes, ends, asks_next, ticks,
  Input, run,
}
use dsh_orbit.Channels.Pool.{
  bad_max_channels, target_over_max, validate_reverse_pool_bounds, ChannelState, Channel, Pool,
  keep, new_channel, claim_idle_channel, Operation, registers, closes_session, apply_all,
}
use dsh_orbit.Channels.Claims.{one_holder}
use dsh_orbit.Channels.Capacity.{IsWithin, apply_all-IsWithin}
use dsh_orbit.Channels.Pressure.{
  Direction, track, check, Governs, check-Governs, Aborts, abort_code, stall-Aborts,
}
use dsh_orbit.Channels.Steps.{NoLostWaiter}
use dsh_orbit.Channels.Delivery.{taken, Delivered, run-Delivered}
use dsh_orbit.Channels.Budget.{IsCovered, IsFair, outstanding_after, run-IsCovered}

abbrev small : Limits
small = record {
  frame_max_bytes = 4;
  soft_mark_bytes = 3;
  resume_below_bytes = 2;
  hard_cap_bytes = 5;
  stall_timeout_ms = 30;
}

abbrev at : ℕ → Call → Input
at now call = record { call = call; paused = false; now = now }

-- A waiter gets the first chunk; the second is queued and pauses the socket.
abbrev calls : List Input
calls =
    at 1 (asks_next 7)
    ∷ at 2 (pushes (1 ∷ []))
    ∷ at 3 (pushes (2 ∷ 3 ∷ []))
    ∷ at 4 (consumes 1)
    ∷ at 5 (asks_next 8)
    ∷ at 6 ends
    ∷ at 7 (asks_next 9)
    ∷ []

served :
    (run small (new_flow 0) calls).1
    ≡ gives 7 (1 ∷ []) ∷ pause ∷ gives 8 (2 ∷ 3 ∷ []) ∷ gives_end 9 ∷ []
unfolding run new_flow
served = refl

overrun :
    (run small
      (new_flow 0)
      (at 1 (pushes (1 ∷ 2 ∷ 3 ∷ [])) ∷ at 2 (pushes (4 ∷ 5 ∷ 6 ∷ [])) ∷ [])).1
    ≡ pause ∷ close_channel (text "flow-overrun") ∷ []
unfolding run new_flow
overrun = refl

stall :
    (run small (new_flow 0) (at 1 (pushes (1 ∷ 2 ∷ 3 ∷ [])) ∷ at 30 ticks ∷ at 31 ticks ∷ [])).1
    ≡ pause ∷ close_channel (text "flow-stall") ∷ []
unfolding run new_flow
stall = refl

new_flow-NoLostWaiter : NoLostWaiter (new_flow 0)
unfolding new_flow
new_flow-NoLostWaiter = record { either = inl refl }

run-Delivered_example :
    Delivered (new_flow 0) (taken small (new_flow 0) calls) (run small (new_flow 0) calls)
run-Delivered_example = run-Delivered small (new_flow 0) calls new_flow-NoLostWaiter

new_flow-IsCovered : IsCovered small (new_flow 0) 0
unfolding new_flow
new_flow-IsCovered = record { covered = omega arith; capped = λ e. omega arith }

calls-IsFair : IsFair small (new_flow 0) 0 calls
unfolding IsFair new_flow
calls-IsFair = (
  omega arith,
  (omega arith, (omega arith, (omega arith, (omega arith, (omega arith, (omega arith, tt)))))),
)

run-IsCovered_example :
    IsCovered small (run small (new_flow 0) calls).0 (outstanding_after small (new_flow 0) 0 calls)
run-IsCovered_example =
    run-IsCovered small (new_flow 0) 0 calls new_flow-NoLostWaiter new_flow-IsCovered calls-IsFair

too_many : validate_reverse_pool_bounds (some 8) (some 65) ≡ some bad_max_channels
unfolding validate_reverse_pool_bounds
too_many = refl

target_too_high : validate_reverse_pool_bounds (some 8) (some 4) ≡ some target_over_max
unfolding validate_reverse_pool_bounds
target_too_high = refl

abbrev pool : Pool
pool = record {
  max_channels = 2;
  channels = new_channel (text "a") (text "n") (text "k") (text "s") ∷ [];
}

abbrev first_claim : Channel
first_claim = record (new_channel (text "a") (text "n") (text "k") (text "s")) {
  state = ChannelState.busy;
}

abbrev second_claim : Channel
second_claim = record (new_channel (text "b") (text "n") (text "k") (text "s")) {
  state = ChannelState.busy;
}

abbrev between : List Operation
between =
    registers (text "b") (text "n") (text "k") (text "s")
    ∷ registers (text "c") (text "n") (text "k") (text "s")
    ∷ closes_session (text "old")
    ∷ []

pools : Unit {0}
unfolding apply_all claim_idle_channel text_eq
pools = tt

claims_first : (claim_idle_channel (text "n") none pool).0 ≡ some first_claim
unfolding pools
claims_first = refl

claims_second :
    (claim_idle_channel
      (text "n")
      (some (text "s"))
      (apply_all (claim_idle_channel (text "n") none pool).1 between)).0
    ≡ some second_claim
unfolding pools
claims_second = refl

not_b : text_eq (text "b") (text "a") ≡ false
unfolding text_eq
not_b = refl

not_c : text_eq (text "c") (text "a") ≡ false
unfolding text_eq
not_c = refl

one_holder_example : text "b" ≢ text "a"
one_holder_example =
    one_holder pool (text "n") (text "n") none (some (text "s")) first_claim second_claim between
      ((λ k. tt), tt) claims_first (not_b, (not_c, (tt, tt))) claims_second

pool-IsWithin : IsWithin pool
unfolding keep
pool-IsWithin = λ n. elim (Bool-cases (text_eq (text "n") n)) [
  | inl e ↦ rw e (omega arith)
  | inr e ↦ rw e (omega arith)
]

apply_all-IsWithin_example : IsWithin (apply_all pool between)
apply_all-IsWithin_example = apply_all-IsWithin pool between pool-IsWithin

abbrev held_back : Direction
held_back = record { paused = true; last_queued_bytes = 3; last_progress_at = 10 }

stall_code :
    abort_code small ((5, 3) ∷ (20, 4) ∷ (34, 4) ∷ (35, 4) ∷ []) (track 0 0)
    ≡ some (text "flow-stall")
unfolding abort_code
stall_code = refl

no_stall_code : abort_code small ((5, 3) ∷ (20, 4) ∷ (34, 3) ∷ (35, 4) ∷ []) (track 0 0) ≡ none
unfolding abort_code
no_stall_code = refl

check-Governs_example : Governs small 4 true (check small 12 4 held_back)
check-Governs_example = check-Governs small 12 4 held_back (omega arith)

stall-Aborts_example : Aborts (abort_code small (((20, 4) ∷ []) ++ (40, 5) ∷ []) held_back)
stall-Aborts_example =
    stall-Aborts small held_back ((20, 4) ∷ []) 40 5 refl
      (omega arith, omega arith, (omega arith, omega arith, tt)) (omega arith)
