-- ===== src/Backoff/Tests.antt =====
-- Runs of the back-off, and its theorem at concrete numbers.
use dsh_orbit.Common.{ℕ, ◌+◌, ◌*◌, ◌≤◌, ◌≡◌, refl, true, arith}
use dsh_orbit.Backoff.{Backoff, create, base_delay, jittered, record_failure, due}
use dsh_orbit.Backoff.Waits.{failure_waits}

-- A random number of a half, and one of a quarter.
abbrev half : ℕ
half = 4503599627370496

abbrev quarter : ℕ
quarter = 2251799813685248

abbrev twice_failed : Backoff
twice_failed = record_failure (record_failure (create 1000 60000) half 5) half 2000

doubled : twice_failed.next_attempt_at ≡ 4000
unfolding create record_failure base_delay jittered
doubled = refl

-- The least delay, a tenth below the base, and a half that is rounded up.
least : jittered 1000 0 ≡ 800
unfolding jittered
least = refl

tenth_below : jittered 1000 quarter ≡ 900
unfolding jittered
tenth_below = refl

rounded_up : jittered 5 quarter ≡ 5
unfolding jittered
rounded_up = refl

failure_waits_example :
    (10 * 0 + 8 * base_delay (create 1000 60000) ≤ 10 * 950 + 5)
    × ((u : ℕ)
        → 10 * 0 + 12 * base_delay (create 1000 60000) + 5 ≤ 10 * u
        → due (record_failure (create 1000 60000) quarter 0) u ≡ true)
    × (due (record_failure (create 1000 60000) quarter 0) (0 + (create 1000 60000).max_ms) ≡ true)
unfolding create record_failure base_delay jittered due
failure_waits_example = failure_waits (create 1000 60000) quarter 0 950 (omega arith) refl
