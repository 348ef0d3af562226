-- ===== src/Schedule/Bounds.antt =====
-- The limit `max_runs` of src/registry/schedule-engine.mjs in one `dispatchScheduleRun`. The other operations of
-- the engine are not looked at here.
use dsh_orbit.Common.{
  ℕ, ◌+◌, ◌≡◌, refl, sym, ap, ◌∙◌, inl, inr, Bool, true, false, ◌&&◌, Option, some, List, arith,
  Bool-cases, Option-cases,
}
use mathlib.Core.Option.{some-injective}
use dsh_orbit.Common.Text.{Text, Text-discrete}
use dsh_orbit.Common.JsMap.{get, put, get-put}
use dsh_orbit.Fleet.Submit.{has_active_job_for_schedule}
use dsh_orbit.Schedule.{
  ScheduleStatus, active, paused, TriggerType, Schedule, Engine, Helpers, NextRun, next_at, throws,
  next_run_of, update,
}
use dsh_orbit.Schedule.Dispatch.{
  is_forbidden, next_columns, runs_out, skip_columns, run_columns, set_skipped, set_run, skip_run,
  record_run, start_run, dispatch_schedule_run,
}

abbrev pub is_live : ScheduleStatus → Bool
is_live active = true
is_live paused = true
is_live _ = false

-- A schedule that is active or paused has runs left.
abbrev pub HasRunsLeft : Schedule → Type 0
HasRunsLeft s = (is_live s.status && runs_out s.max_runs s.total_runs) ≡ false

abbrev pub Table : Type 0
Table = List (Text × Schedule)

pub record AllHaveRunsLeft (table : Table) : Type 0 where
  pub row : (id : Text) (s : Schedule) → get Text-discrete id table ≡ some s → HasRunsLeft s

pub put-AllHaveRunsLeft :
    (table : Table) (id : Text) (s : Schedule)
    → HasRunsLeft s
    → AllHaveRunsLeft table
    → AllHaveRunsLeft (put Text-discrete id s table)
put-AllHaveRunsLeft table id s h v = record {
  row = λ k r found. elim (Text-discrete id k) [
    | yes e ↦
        let same : get Text-discrete k (put Text-discrete id s table) ≡ some s =
          ground (arith, get-put Text-discrete id k s table) in
        rw (← some-injective _ _ (sym same ∙ found)) h
    | no e ↦ v.row k r (ground (arith, get-put Text-discrete id k s table))
  ];
}

-- A schedule as it was read from the table and not changed since.
pub record IsCurrent (table : Table) (s : Schedule) : Type 0 where
  pub row : Schedule
  pub there : get Text-discrete s.schedule_id table ≡ some row
  pub same_status : row.status ≡ s.status
  pub same_total : row.total_runs ≡ s.total_runs
  pub same_max : row.max_runs ≡ s.max_runs

update-AllHaveRunsLeft :
    (table : Table) (id : Text) (f : Schedule → Schedule)
    → ((r : Schedule) → get Text-discrete id table ≡ some r → HasRunsLeft (f r))
    → AllHaveRunsLeft table
    → AllHaveRunsLeft (update id f table)
unfolding update
update-AllHaveRunsLeft table id f h v = elim (Option-cases (get Text-discrete id table)) [
  | inl missing ↦ rw missing v
  | inr (r, found) ↦ rw found (put-AllHaveRunsLeft table id (f r) (h r found) v)
]

and_false : (b : Bool) → (b && false) ≡ false
and_false true = refl
and_false false = refl

run_columns-live :
    (c : Helpers) (s r : Schedule) (now : ℕ)
    → r.max_runs ≡ s.max_runs
    → HasRunsLeft (set_run (run_columns c s now) (s.total_runs + 1) now r)
unfolding run_columns
run_columns-live c s r now same = elim (Bool-cases (runs_out s.max_runs (s.total_runs + 1))) [
  | inl last ↦ rw last refl
  | inr more ↦ rw (same, more) (and_false _)
]

next_columns-live :
    (n : NextRun) (status : ScheduleStatus) (max : Option ℕ) (total : ℕ)
    → (is_live status && runs_out max total) ≡ false
    → (is_live (next_columns n status).0 && runs_out max total) ≡ false
next_columns-live throws status max total h = refl
next_columns-live (next_at t) status max total h = h

module _ (c : Helpers) (e : Engine) (s : Schedule) (trigger : TriggerType) (run_id job_id : Text)
    (now : ℕ) (current : IsCurrent e.schedules s) (v : AllHaveRunsLeft e.schedules) where
  the_row : (r : Schedule) → get Text-discrete s.schedule_id e.schedules ≡ some r → current.row ≡ r
  the_row r found = some-injective _ _ (sym current.there ∙ found)

  skip_run-AllHaveRunsLeft : AllHaveRunsLeft (skip_run c e s trigger run_id now).schedules
  unfolding skip_run skip_columns
  skip_run-AllHaveRunsLeft =
      update-AllHaveRunsLeft e.schedules s.schedule_id (set_skipped (skip_columns c s now) now)
        (λ r found. rw (← the_row r found) (
          next_columns-live (next_run_of c s now) s.status current.row.max_runs
            current.row.total_runs
            (rw current.same_status at (v.row s.schedule_id current.row current.there))))
        v

  start_run-AllHaveRunsLeft : AllHaveRunsLeft (start_run c e s trigger run_id job_id now).schedules
  unfolding start_run record_run
  start_run-AllHaveRunsLeft =
      update-AllHaveRunsLeft e.schedules s.schedule_id
        (set_run (run_columns c s now) (s.total_runs + 1) now)
        (λ r found.
          run_columns-live c s r now
            (sym (ap (λ x. x.max_runs) (the_row r found)) ∙ current.same_max))
        v

  -- A dispatch leaves no schedule active or paused that has had `max_runs` runs or more, if there was
  -- none before and the schedule was read from the table as it is.
  pub dispatch_schedule_run-AllHaveRunsLeft :
      AllHaveRunsLeft (dispatch_schedule_run c e s trigger run_id job_id now).schedules
  unfolding dispatch_schedule_run
  dispatch_schedule_run-AllHaveRunsLeft =
      elim (Bool-cases
        (is_forbidden s.concurrency_policy && has_active_job_for_schedule e.fleet s.schedule_id)) [
          | inl skips ↦ rw skips skip_run-AllHaveRunsLeft
          | inr runs ↦ rw runs start_run-AllHaveRunsLeft
        ]
