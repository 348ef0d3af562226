-- ===== src/Fleet/Runs.antt =====
-- Runs of a job of src/registry/fleet-scheduler.mjs: the events, in any order, keep the invariant.
use dsh_orbit.Common.{ℕ, zero, suc, ◌≡◌, refl, Option, none, some, false}
use mathlib.Core.Option.{some-injective}
use dsh_orbit.Fleet.Dispatch.{Ending}
use dsh_orbit.Fleet.Execute.{Execution, is_open, outcome_of, claim_next, claim, settle}
use dsh_orbit.Fleet.Accounting.{Inv, cancel, claim_next-Inv, settle-Inv, cancel-Inv}

-- The events of a running job.
pub data Event : Type 0 where
  claims : (now : ℕ) → Event
  settles : (position : ℕ) (ending : Ending) (now : ℕ) → Event
  cancels : (now : ℕ) → Event

-- A transport answers with a status that is not `pending` or `running`.
abbrev pub IsAnswered : Event → Type 0
IsAnswered (settles position ending now) = is_open (outcome_of ending).status ≡ false
IsAnswered _ = Unit

-- `none` for an event that cannot happen now.
unfoldable pub step : Execution → Event → Option Execution
step x (claims now) = claim x now
step x (settles position ending now) = settle x position ending now
step x (cancels now) = some (cancel x now)

claim-Inv :
    (limit : ℕ) (x y : Execution) (now : ℕ) → claim x now ≡ some y → Inv limit x → Inv limit y
unfolding claim
claim-Inv limit x y now h v = go x.free refl h
  where
    go :
        (n : ℕ)
        → x.free ≡ n
        → elim n [ zero ↦ none | suc others ↦ some (claim_next x now others x.queue) ] ≡ some y
        → Inv limit y
    go zero e h' = cc
    go (suc others) e h' =
        rw (← some-injective _ _ h') (claim_next-Inv limit x now others x.queue refl e v)

pub step-Inv :
    (limit : ℕ) (x y : Execution) (e : Event)
    → IsAnswered e
    → step x e ≡ some y
    → Inv limit x
    → Inv limit y
unfolding step
step-Inv limit x y (claims now) a h v = claim-Inv limit x y now h v
step-Inv limit x y (settles position ending now) a h v =
    settle-Inv limit x y position now ending a h v
step-Inv limit x y (cancels now) a h v = rw (← some-injective _ _ h) (cancel-Inv limit x now v)

-- A run of events, each of which can happen.
pub data Runs (x : Execution) : Execution → ℕ → Type 0 where
  stays : Runs x x 0
  after :
      {y z : Execution} {n : ℕ} (e : Event)
      → Runs x y n
      → IsAnswered e
      → step y e ≡ some z
      → Runs x z (suc n)

pub Runs-Inv : (limit : ℕ) (x y : Execution) (n : ℕ) → Inv limit x → Runs x y n → Inv limit y
Runs-Inv limit x _ _ v stays = v
Runs-Inv limit x _ _ v (after {y} {z} {n} e r a h) =
    step-Inv limit y z e a h (Runs-Inv limit x y n v r)
