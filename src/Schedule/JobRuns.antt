-- ===== src/Schedule/JobRuns.antt =====
-- The runs of a schedule of src/registry/schedule-engine.mjs whose jobs are pending or running, found in the
-- table of runs and by the ids of the jobs in src/registry/fleet-scheduler.mjs.
use dsh_orbit.Common.{
  ℕ, ◌+◌, ◌≤◌, ◌≡◌, refl, inl, inr, Bool, true, false, ◌&&◌, Option, none, some, List, [], ◌∷◌,
  ◌++◌, arith, if◌then◌else◌, Bool-cases, Option-cases,
}
use mathlib.Core.Option.{some-injective}
use dsh_orbit.Common.Text.{Text, Text-discrete, text, text_eq}
use dsh_orbit.Common.JsMap.{get}
use dsh_orbit.Fleet.Payload.{get_field}
use dsh_orbit.Fleet.Execute.{Execution}
use dsh_orbit.Fleet.Submit.{is_text, is_active_status, has_active_job}
use dsh_orbit.Flows.Scope.{text_eq→eq}
use dsh_orbit.Schedule.{Run}

-- The jobs of the scheduler, by id.
abbrev pub Jobs : Type 0
Jobs = List (Text × Execution)

abbrev pub is_active : Option Execution → Bool
is_active none = false
is_active (some x) = is_active_status x.job.status

abbrev pub active_in : Jobs → Option Text → Bool
active_in jobs none = false
active_in jobs (some j) = is_active (get Text-discrete j jobs)

abbrev pub run_weight : Text → Jobs → Run → ℕ
run_weight id jobs r = if text_eq r.schedule_id id && active_in jobs r.job_id then 1 else 0

-- How many runs of a schedule have a job that is pending or running.
unfoldable pub active_runs : Text → Jobs → List Run → ℕ
active_runs id jobs [] = 0
active_runs id jobs (r ∷ rs) = run_weight id jobs r + active_runs id jobs rs

pub active_runs-append :
    (id : Text) (jobs : Jobs) (r : Run) (rs : List Run)
    → active_runs id jobs (rs ++ r ∷ []) ≡ active_runs id jobs rs + run_weight id jobs r
unfolding active_runs
active_runs-append id jobs r [] = omega arith
active_runs-append id jobs r (q ∷ rs) = omega (arith, active_runs-append id jobs r rs)

-- The job of the run, if it is there, carries the id of the run's schedule.
abbrev pub Tied : Jobs → Run → Type 0
Tied jobs r =
    (j : Text) (x : Execution)
    → r.job_id ≡ some j
    → get Text-discrete j jobs ≡ some x
    → is_text (get_field (text "_fleetScheduleId") x.job.payload) r.schedule_id ≡ true

abbrev pub AllTied : Jobs → List Run → Type 0
AllTied jobs [] = Unit
AllTied jobs (r ∷ rs) = Tied jobs r × AllTied jobs rs

pub AllTied-append :
    (jobs : Jobs) (r : Run) (rs : List Run)
    → AllTied jobs rs
    → Tied jobs r
    → AllTied jobs (rs ++ r ∷ [])
AllTied-append jobs r [] h t = (t, tt)
AllTied-append jobs r (q ∷ rs) (first, h) t = (first, AllTied-append jobs r rs h t)

-- The execution in the table has changed for a run: it is not more active, and still tied.
pub record Follows (jobs later : Jobs) (r : Run) : Type 0 where
  pub quieter : active_in later r.job_id ≡ true → active_in jobs r.job_id ≡ true
  pub tied : Tied jobs r → Tied later r

abbrev pub AllFollow : Jobs → Jobs → List Run → Type 0
AllFollow jobs later [] = Unit
AllFollow jobs later (r ∷ rs) = Follows jobs later r × AllFollow jobs later rs

pub AllFollow-tied :
    (jobs later : Jobs) (rs : List Run)
    → AllFollow jobs later rs
    → AllTied jobs rs
    → AllTied later rs
AllFollow-tied jobs later [] f h = tt
AllFollow-tied jobs later (r ∷ rs) (first, f) (t, h) =
    (first.tied t, AllFollow-tied jobs later rs f h)

pub AllFollow-fewer :
    (id : Text) (jobs later : Jobs) (rs : List Run)
    → AllFollow jobs later rs
    → active_runs id later rs ≤ active_runs id jobs rs
unfolding active_runs
AllFollow-fewer id jobs later [] f = omega arith
AllFollow-fewer id jobs later (r ∷ rs) (first, f) =
    omega (arith, one, AllFollow-fewer id jobs later rs f)
  where
    one : run_weight id later r ≤ run_weight id jobs r
    one = elim (Bool-cases (active_in later r.job_id)) [
      | inl e ↦ rw (e, first.quieter e) (omega arith)
      | inr e ↦ rw e (ground arith)
    ]

-- An active job that carries a schedule's id is found by the scheduler.
found-active :
    (id j : Text) (x : Execution) (jobs : Jobs)
    → get Text-discrete j jobs ≡ some x
    → is_text (get_field (text "_fleetScheduleId") x.job.payload) id ≡ true
    → is_active_status x.job.status ≡ true
    → has_active_job id jobs ≡ true
unfolding get has_active_job
found-active id j x [] there t a = cc
found-active id j x ((k, y) ∷ jobs) there t a = elim (Text-discrete k j) [
  | yes e ↦ let same : some y ≡ some x = ground arith in rw (some-injective y x same, t, a) refl
  | no d ↦ rw (found-active id j x jobs (ground arith) t a) (ground arith)
]

-- A run of the schedule whose job is active is found by the scheduler.
run_found :
    (id : Text) (jobs : Jobs) (o : Option Text) (r : Run)
    → r.job_id ≡ o
    → Tied jobs r
    → r.schedule_id ≡ id
    → active_in jobs o ≡ true
    → has_active_job id jobs ≡ true
run_found id jobs none r e t s a = cc
run_found id jobs (some j) r e t s a = elim (Option-cases (get Text-discrete j jobs)) [
  | inl gone ↦ let bad : false ≡ true = rw gone at a in cc
  | inr (x, there) ↦ found-active id j x jobs there (rw s at (t j x e there)) (rw there at a)
]

-- If the scheduler finds no active job of a schedule, no run of it has one.
pub none_active :
    (id : Text) (jobs : Jobs) (rs : List Run)
    → AllTied jobs rs
    → has_active_job id jobs ≡ false
    → active_runs id jobs rs ≡ 0
unfolding active_runs
none_active id jobs [] h free = refl
none_active id jobs (r ∷ rs) (t, h) free =
    elim (Bool-cases (text_eq r.schedule_id id && active_in jobs r.job_id)) [
      | inl e ↦
          let found : has_active_job id jobs ≡ true =
            run_found id jobs r.job_id r refl t (text_eq→eq r.schedule_id id (ground arith))
              (ground arith) in
          absurd cc
      | inr e ↦ let rest = none_active id jobs rs h free in rw e (omega arith)
    ]
