-- ===== src/Backoff.antt =====
-- src/node/backoff.mjs (HeartbeatBackoff): the wait between two heartbeats that fail.
pub mod Waits
mod Tests
use dsh_orbit.Common.{ℕ, ◌+◌, ◌*◌, ◌/◌, ◌^◌, min, max, Bool, leb}

pub record Backoff : Type 0 where
  pub initial_ms : ℕ
  pub max_ms : ℕ
  pub attempt : ℕ
  pub next_attempt_at : ℕ
  pub last_delay_ms : ℕ

unfoldable pub create : (initial_ms max_ms : ℕ) → Backoff
create initial_ms max_ms = record {
  initial_ms = initial_ms;
  max_ms = max_ms;
  attempt = 0;
  next_attempt_at = 0;
  last_delay_ms = 0;
}

unfoldable pub base_delay : Backoff → ℕ
base_delay b = min (b.initial_ms * 2 ^ b.attempt) b.max_ms

-- `Math.random` gives a multiple of 2 ^ -53 below 1.
abbrev pub random_scale : ℕ
random_scale = 9007199254740992

-- `Math.round(base + jitter)` for the random number `random / random_scale`, in exact arithmetic: base + jitter
-- is base * (4 + 2 * random / random_scale) / 5, with the ratio 1/5, and `Math.round` takes the floor of it and
-- a half. It is not below 0.
unfoldable pub jittered : (base random : ℕ) → ℕ
jittered base random =
    (2 * (base * (4 * random_scale) + base * random * 2) + 5 * random_scale) / (10 * random_scale)

unfoldable pub record_failure : Backoff → (random now : ℕ) → Backoff
unfolding base_delay jittered
record_failure b random now =
    let delay : ℕ = min b.max_ms (jittered (base_delay b) random) in
    record b { attempt = b.attempt + 1; last_delay_ms = delay; next_attempt_at = now + delay }

unfoldable pub record_success : Backoff → Backoff
record_success b = record b { attempt = 0; next_attempt_at = 0; last_delay_ms = 0 }

unfoldable pub due : Backoff → ℕ → Bool
due b now = leb b.next_attempt_at now
