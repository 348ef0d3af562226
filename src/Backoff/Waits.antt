-- ===== src/Backoff/Waits.antt =====
-- How long src/node/backoff.mjs waits after a failure.
use dsh_orbit.Common.{ℕ, ◌+◌, ◌*◌, ◌≤◌, ◌<◌, ◌≡◌, true, leb→le, arith}
use native.Mathlib.Nat.{mul-le-mul_left}
use dsh_orbit.Backoff.{Backoff, base_delay, random_scale, jittered, record_failure, due}

-- Four fifths of the base up to six fifths of it, each up to a half.
jittered-least : (base random : ℕ) → 8 * base ≤ 10 * jittered base random + 5
unfolding jittered
jittered-least base random = omega arith

scaled : (base random n : ℕ) → random ≤ n → base * random ≤ base * n
scaled base random n h = mul-le-mul_left base h

jittered-most :
    (base random : ℕ) → random < random_scale → 10 * jittered base random ≤ 12 * base + 5
unfolding jittered
jittered-most base random h = omega (arith, scaled base random random_scale (omega arith))

-- After a failure an attempt is due only when four fifths of the base delay have passed, and it is due when six
-- fifths of it have passed, each up to the half of the rounding, or when the maximal delay has passed. The random
-- number is below 1.
pub failure_waits :
    (b : Backoff) (random now t : ℕ)
    → random < random_scale
    → due (record_failure b random now) t ≡ true
    → (10 * now + 8 * base_delay b ≤ 10 * t + 5)
      × ((u : ℕ)
          → 10 * now + 12 * base_delay b + 5 ≤ 10 * u
          → due (record_failure b random now) u ≡ true)
      × (due (record_failure b random now) (now + b.max_ms) ≡ true)
unfolding due record_failure base_delay
failure_waits b random now t below h =
    let least = jittered-least (base_delay b) random in
    let most = jittered-most (base_delay b) random below in
    let reached = leb→le (record_failure b random now).next_attempt_at t h in
    (ground arith, λ u late. ground arith, ground arith)
