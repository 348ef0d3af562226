-- ===== src/Fleet/Progress.antt =====
-- The workers of a job of src/registry/fleet-scheduler.mjs do a bounded amount of work, and a job that
-- is not at rest can always go on.
use dsh_orbit.Common.{
  ℕ, zero, suc, ◌+◌, ◌*◌, ◌≤◌, ◌<◌, ◌≡◌, refl, ◌⊎◌, inl, inr, none, some, List, [], ◌∷◌, arith,
  length,
}
use mathlib.Core.Option.{some-injective}
use dsh_orbit.Fleet.Dispatch.{Ending, throws}
use dsh_orbit.Fleet.Execute.{Flight, Execution, claim, claim_next, settle, pick}
use dsh_orbit.Fleet.Accounting.{cancel, settled, settle_lem, pick-occurrences}
use dsh_orbit.Fleet.Runs.{Event, claims, settles, cancels, IsAnswered, step, Runs, stays, after}
use dsh_orbit.Fleet.Termination.{IsQuiet}

-- A node in the queue costs a claim, a settlement and the way of its worker back.
unfoldable pub work_left : Execution → ℕ
work_left x = 3 * length x.queue + 2 * length x.in_flight + x.free

-- A cancellation is no work of the workers.
abbrev pub effort : Event → ℕ
effort (cancels now) = 0
effort _ = 1

unfoldable pub total_effort : {x y : Execution} {n : ℕ} → Runs x y n → ℕ
total_effort stays = 0
total_effort (after e r a h) = effort e + total_effort r

claim_next-work :
    (x : Execution) (now others : ℕ)
    → x.free ≡ suc others
    → work_left (claim_next x now others x.queue) < work_left x
unfolding work_left
claim_next-work x now others f = ground arith

claim-work : (x y : Execution) (now : ℕ) → claim x now ≡ some y → work_left y < work_left x
unfolding claim
claim-work x y now h = go x.free refl h
  where
    go :
        (n : ℕ)
        → x.free ≡ n
        → elim n [ zero ↦ none | suc others ↦ some (claim_next x now others x.queue) ] ≡ some y
        → work_left y < work_left x
    go zero e h' = cc
    go (suc others) e h' = rw (← some-injective _ _ h') (claim_next-work x now others e)

settle-work :
    (x y : Execution) (position now : ℕ) (ending : Ending)
    → settle x position ending now ≡ some y
    → work_left y < work_left x
unfolding work_left
settle-work x y position now ending h =
    let (f, gs, found, same) = settle_lem x y position now ending h in
    let size = (pick-occurrences position x.in_flight f gs [] found).1 in rw (← same) (omega arith)

cancel-work : (x : Execution) (now : ℕ) → work_left (cancel x now) + 0 ≤ work_left x
unfolding work_left cancel
cancel-work x now = omega arith

step-work : (x y : Execution) (e : Event) → step x e ≡ some y → work_left y + effort e ≤ work_left x
unfolding step
step-work x y (claims now) h = omega (arith, claim-work x y now h)
step-work x y (settles position ending now) h = omega (arith, settle-work x y position now ending h)
step-work x y (cancels now) h = rw (← some-injective _ _ h) (cancel-work x now)

-- In every run the workers make no more steps than the work that is left at its start: a run that does
-- not end is one of cancellations only.
pub work_is_bounded :
    (x y : Execution) (n : ℕ) (run : Runs x y n) → total_effort run + work_left y ≤ work_left x
unfolding total_effort
work_is_bounded x _ _ stays = omega arith
work_is_bounded x _ _ (after {y} {z} {n} e run a h) =
    omega (arith, work_is_bounded x y n run, step-work y z e h)

Nat-cases : (n : ℕ) → (n ≡ 0) ⊎ ((m : ℕ) × (n ≡ suc m))
Nat-cases zero = inl refl
Nat-cases (suc m) = inr (m, refl)

-- A job at rest, or an event that can happen.
next_event :
    (x : Execution)
    → IsQuiet x
      ⊎ ((e : Event) × (y : Execution) × IsAnswered e × (step x e ≡ some y) × (0 < effort e))
unfolding step claim settle pick
next_event x = elim (Nat-cases x.free) [
  | inr (others, e) ↦ inr (claims 0, claim_next x 0 others x.queue, tt, ground arith, omega arith)
  | inl e ↦ flights x e x.in_flight refl
]
  where
    flights :
        (x : Execution)
        → x.free ≡ 0
        → (fs : List Flight) → x.in_flight ≡ fs
        → IsQuiet x
          ⊎ ((e : Event) × (y : Execution) × IsAnswered e × (step x e ≡ some y) × (0 < effort e))
    flights x e [] f = inl (record { no_worker = e; no_flight = f })
    flights x e (g ∷ gs) f =
        inr
          (settles 0 (throws none) 0, settled x g gs (throws none) 0, refl, rw f refl, omega arith)

-- Every run can be continued until the job is at rest.
pub run_can_end :
    (x y : Execution) (n : ℕ) → Runs x y n → (z : Execution) × (m : ℕ) × Runs x z m × IsQuiet z
run_can_end x y n run = go (work_left y) y n run (omega arith)
  where
    go :
        (fuel : ℕ) (y : Execution) (n : ℕ)
        → Runs x y n
        → work_left y ≤ fuel
        → (z : Execution) × (m : ℕ) × Runs x z m × IsQuiet z
    go zero y n run h = elim (next_event y) [
      | inl quiet ↦ (y, n, run, quiet)
      | inr (e, z, a, happens, works) ↦ absurd (omega (arith, step-work y z e happens))
    ]
    go (suc fuel) y n run h = elim (next_event y) [
      | inl quiet ↦ (y, n, run, quiet)
      | inr (e, z, a, happens, works) ↦
          go fuel z (suc n) (after e run a happens) (omega (arith, step-work y z e happens))
    ]
