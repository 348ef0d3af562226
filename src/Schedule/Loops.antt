-- ===== src/Schedule/Loops.antt =====
-- The loops and the remaining operations of src/registry/schedule-engine.mjs. Random ids come from a
-- supply, one pair for each schedule that is dispatched.
use dsh_orbit.Common.{
  ℕ, zero, suc, ◌+◌, Bool, true, false, ◌&&◌, ◌||◌, not, Option, none, some, List, [], ◌∷◌, leb,
  if◌then◌else◌,
}
use dsh_orbit.Common.Text.{Text, Text-discrete, text_eq}
use dsh_orbit.Common.JsMap.{get, remove}
use dsh_orbit.Schedule.{
  ScheduleStatus, skip, run_once, TriggerType, Schedule, Run, Engine, Helpers, NextRun, next_at,
  throws, next_run_of, update, hydrate_schedule_row,
}
use dsh_orbit.Schedule.Dispatch.{dispatch_schedule_run}

abbrev pub is_active : ScheduleStatus → Bool
is_active ScheduleStatus.active = true
is_active _ = false

abbrev pub is_paused : ScheduleStatus → Bool
is_paused ScheduleStatus.paused = true
is_paused _ = false

-- `next_run_at <= ?`, which no row without a next run satisfies.
abbrev pub reached : Option ℕ → ℕ → Bool
reached none now = false
reached (some t) now = leb t now

unfoldable pub is_due : ℕ → Schedule → Bool
is_due now s = is_active s.status && reached s.next_run_at now

unfoldable pub due : Helpers → ℕ → List (Text × Schedule) → List Schedule
unfolding is_due hydrate_schedule_row
due c now [] = []
due c now ((id, s) ∷ rows) =
    let rest = due c now rows in if is_due now s then hydrate_schedule_row c s ∷ rest else rest

abbrev pub key : Schedule → ℕ
key s = elim s.next_run_at [ none ↦ 0 | some t ↦ t ]

-- `ORDER BY next_run_at ASC`
unfoldable pub insert_by_next : Schedule → List Schedule → List Schedule
insert_by_next s [] = s ∷ []
insert_by_next s (r ∷ rs) =
    let rest = insert_by_next s rs in if leb (key s) (key r) then s ∷ r ∷ rs else r ∷ rest

unfoldable pub order_by_next : List Schedule → List Schedule
unfolding insert_by_next
order_by_next [] = []
order_by_next (s ∷ ss) = insert_by_next s (order_by_next ss)

abbrev pub take : ℕ → List Schedule → List Schedule
take zero ss = []
take (suc n) [] = []
take (suc n) (s ∷ ss) = s ∷ take n ss

-- The run id and the job id of the nth dispatch.
abbrev pub Ids : Type 0
Ids = ℕ → Text × Text

unfoldable pub dispatch_all : Helpers → Engine → TriggerType → Ids → ℕ → List Schedule → Engine
unfolding dispatch_schedule_run
dispatch_all c e trigger ids now [] = e
dispatch_all c e trigger ids now (s ∷ ss) =
    dispatch_all c (dispatch_schedule_run c e s trigger (ids 0).0 (ids 0).1 now) trigger
      (λ n. ids (n + 1)) now ss

-- `evaluateDueSchedules`. Nothing but the loop itself runs between two dispatches, so that `stop` cannot
-- come in between.
unfoldable pub evaluate_due_schedules : Helpers → Engine → Ids → ℕ → Engine
unfolding dispatch_all due order_by_next
evaluate_due_schedules c e ids now =
    if e.evaluating || not e.running
    then e
    else dispatch_all c e TriggerType.scheduled ids now
        (take 50 (order_by_next (due c now e.schedules)))

abbrev pub set_next : NextRun → ℕ → Schedule → Schedule
set_next throws now row = record row {
  status = ScheduleStatus.error;
  next_run_at = none;
  updated_at = now;
}
set_next (next_at t) now row = record row { next_run_at = t; updated_at = now }

unfoldable pub reconcile_row : Helpers → Engine → Schedule → Text × Text → ℕ → Engine
unfolding dispatch_schedule_run update
reconcile_row c e s (run_id, job_id) now = elim s.missed_run_policy [
  | run_once ↦ dispatch_schedule_run c e s TriggerType.catch_up run_id job_id now
  | skip ↦ record e {
    schedules = update s.schedule_id (set_next (next_run_of c s now) now) e.schedules;
  }
]

unfoldable pub reconcile_all : Helpers → Engine → Ids → ℕ → List Schedule → Engine
unfolding reconcile_row
reconcile_all c e ids now [] = e
reconcile_all c e ids now (s ∷ ss) =
    reconcile_all c (reconcile_row c e s (ids 0) now) (λ n. ids (n + 1)) now ss

unfoldable pub reconcile_on_startup : Helpers → Engine → Ids → ℕ → Engine
unfolding reconcile_all due
reconcile_on_startup c e ids now = reconcile_all c e ids now (due c now e.schedules)

-- The timer that `start` sets calls `evaluate_due_schedules`.
unfoldable pub start : Helpers → Engine → Ids → ℕ → Engine
unfolding reconcile_on_startup
start c e ids now =
    if e.running then e else reconcile_on_startup c (record e { running = true }) ids now

unfoldable pub get_schedule : Helpers → Engine → Text → Option Schedule
unfolding hydrate_schedule_row
get_schedule c e id = elim (get Text-discrete id e.schedules) [
  | none ↦ none
  | some row ↦ some (hydrate_schedule_row c row)
]

-- `POST /schedules/<id>/trigger` of src/registry/server.mjs.
unfoldable pub trigger_schedule : Helpers → Engine → Text → Text × Text → ℕ → Engine
unfolding get_schedule dispatch_schedule_run
trigger_schedule c e id (run_id, job_id) now = elim (get_schedule c e id) [
  | none ↦ e
  | some s ↦ dispatch_schedule_run c e s TriggerType.manual run_id job_id now
]

unfoldable pub stop : Engine → Engine
stop e = record e { running = false }

abbrev pub pause_row : Engine → Text → ℕ → Option Schedule → Engine × Bool
pause_row e id now none = (e, false)
pause_row e id now (some s) =
    if is_active s.status
    then (
      record e {
        schedules =
            update id (λ row. record row { status = ScheduleStatus.paused; updated_at = now })
              e.schedules;
      },
      true,
    )
    else (e, false)

unfoldable pub pause_schedule : Helpers → Engine → Text → ℕ → Engine × Bool
unfolding get_schedule update
pause_schedule c e id now = pause_row e id now (get_schedule c e id)

-- `resumed none` where the calculation of the next run throws.
pub data Resumed : Type 0 where
  resumed : Engine → Bool → Resumed
  parse_error : Resumed

abbrev pub resume_next : Engine → Text → ℕ → NextRun → Resumed
resume_next e id now throws = parse_error
resume_next e id now (next_at t) =
    resumed
      (record e {
        schedules =
            update id
              (λ row. record row {
                status = ScheduleStatus.active;
                next_run_at = t;
                updated_at = now;
              })
              e.schedules;
      })
      true

abbrev pub resume_row : Helpers → Engine → Text → ℕ → Option Schedule → Resumed
resume_row c e id now none = resumed e false
resume_row c e id now (some s) =
    if is_paused s.status then resume_next e id now (next_run_of c s now) else resumed e false

unfoldable pub resume_schedule : Helpers → Engine → Text → ℕ → Resumed
unfolding get_schedule update
resume_schedule c e id now = resume_row c e id now (get_schedule c e id)

-- The runs of a schedule go with it.
unfoldable pub runs_without : Text → List Run → List Run
runs_without id [] = []
runs_without id (r ∷ rs) =
    let rest = runs_without id rs in if text_eq r.schedule_id id then rest else r ∷ rest

unfoldable pub delete_schedule : Helpers → Engine → Text → Engine × Bool
unfolding get_schedule runs_without
delete_schedule c e id = elim (get_schedule c e id) [
  | none ↦ (e, false)
  | some s ↦ (
    record e { schedules = remove Text-discrete id e.schedules; runs = runs_without id e.runs },
    true,
  )
]
