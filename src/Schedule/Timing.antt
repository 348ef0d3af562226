-- ===== src/Schedule/Timing.antt =====
-- When the schedules of src/registry/schedule-engine.mjs are due again.
use dsh_orbit.Common.{
  ℕ, ◌+◌, ◌<◌, ◌≡◌, refl, sym, ◌∙◌, inl, inr, Bool, true, false, ◌&&◌, Option, none, some, arith,
  ltb, leb, Bool-cases,
}
use mathlib.Core.Option.{some-injective}
use dsh_orbit.Common.Text.{Text, Text-discrete, trim}
use dsh_orbit.Common.JsMap.{get, get-put_self}
use dsh_orbit.Fleet.Submit.{has_active_job_for_schedule}
use dsh_orbit.Schedule.{
  ScheduleType, cron, interval, once, ScheduleStatus, ConcurrencyPolicy, MissedRunPolicy,
  TriggerType, Schedule, Engine, Helpers, NextRun, next_at, throws, found_next,
  calculate_next_run_at, next_run_of, update,
}
use dsh_orbit.Schedule.Create.{
  Definition, created, refused, TargetCheck, valid, invalid, CreateError, insert, create_target,
  create_checked, create_schedule, schedule_type_of, concurrency_policy_of, missed_run_policy_of,
  validate_target, id_ok, is_blank, or_random, new_schedule,
}
use dsh_orbit.Schedule.Dispatch.{
  is_forbidden, next_columns, runs_out, skip_columns, run_columns, set_skipped, set_run, skip_run,
  record_run, start_run, dispatch_schedule_run,
}
use dsh_orbit.Schedule.Loops.{is_active, reached, is_due}
use dsh_orbit.Schedule.Bounds.{IsCurrent, Table}

-- The cron parser gives a time that is later.
abbrev pub IsLater : Helpers → Type 0
IsLater c = (e : Text) (now t : ℕ) → c.next_occurrence e now ≡ some t → now < t

abbrev NotDue : ℕ → ScheduleStatus × Option ℕ → Type 0
NotDue now (status, next) = (is_active status && reached next now) ≡ false

and_false : (b : Bool) → (b && false) ≡ false
and_false true = refl
and_false false = refl

next_columns-NotDue :
    (n : NextRun) (status : ScheduleStatus) (now : ℕ)
    → ((t : ℕ) → n ≡ next_at (some t) → now < t)
    → NotDue now (next_columns n status)
next_columns-NotDue throws status now later = refl
next_columns-NotDue (next_at none) status now later = and_false (is_active status)
next_columns-NotDue (next_at (some t)) status now later =
    let after = later t refl in
    let not_yet : leb t now ≡ false = ground arith in rw not_yet (and_false (is_active status))

module _ (c : Helpers) (law : IsLater c) where
  found-later :
      (e : Text) (now : ℕ) (o : Option ℕ) (t : ℕ)
      → c.next_occurrence e now ≡ o
      → found_next o ≡ next_at (some t)
      → now < t
  found-later e now none t h k = cc
  found-later e now (some u) t h k = law e now t (h ∙ of_next k)
    where
      of_next : next_at (some u) ≡ next_at (some t) → some u ≡ some t
      of_next k' = cc

  -- The next run of a schedule is later than the time from which it is calculated.
  calculate_next_run_at-later :
      (type : ScheduleType) (expression : Option Text) (ms : Option ℕ) (now t : ℕ)
      → calculate_next_run_at c type expression ms now ≡ next_at (some t)
      → now < t
  unfolding calculate_next_run_at
  calculate_next_run_at-later cron none ms now t h = cc
  calculate_next_run_at-later cron (some e) ms now t h =
      found-later e now (c.next_occurrence e now) t refl h
  calculate_next_run_at-later interval expression none now t h = cc
  calculate_next_run_at-later interval expression (some ms) now t h =
      elim (Bool-cases (ltb ms 1000)) [
        | inl short ↦ let bad : throws ≡ next_at (some t) = rw short at h in cc
        | inr long ↦
            let there : next_at (some (now + ms)) ≡ next_at (some t) = rw long at h in
            let same : now + ms ≡ t = cc in ground arith
      ]
  calculate_next_run_at-later once expression ms now t h = cc

  run_columns-NotDue : (s : Schedule) (now : ℕ) → NotDue now (run_columns c s now)
  unfolding run_columns
  run_columns-NotDue s now = elim (Bool-cases (runs_out s.max_runs (s.total_runs + 1))) [
    | inl last ↦ rw last refl
    | inr more ↦ rw more (
        next_columns-NotDue (next_run_of c s now) s.status now
          (λ t. calculate_next_run_at-later s.schedule_type s.cron_expression s.interval_ms now t))
  ]

  skip_columns-NotDue : (s : Schedule) (now : ℕ) → NotDue now (skip_columns c s now)
  unfolding skip_columns
  skip_columns-NotDue s now =
      next_columns-NotDue (next_run_of c s now) s.status now
        (λ t. calculate_next_run_at-later s.schedule_type s.cron_expression s.interval_ms now t)

update_self :
    (table : Table) (id : Text) (f : Schedule → Schedule) (row r : Schedule)
    → get Text-discrete id table ≡ some row
    → get Text-discrete id (update id f table) ≡ some r
    → f row ≡ r
unfolding update
update_self table id f row r there h =
    some-injective _ _ (sym (get-put_self Text-discrete id (f row) table) ∙ rw there at h)

-- A schedule that has just been dispatched, or skipped since a job of it is active, is not due at that
-- time: it is not dispatched twice. The cron parser gives later times, and the schedule was read from
-- the table as it is.
pub dispatched_not_due :
    (c : Helpers) (e : Engine) (s r : Schedule) (trigger : TriggerType) (run_id job_id : Text)
    (now : ℕ)
    → IsLater c
    → IsCurrent e.schedules s
    → get Text-discrete s.schedule_id
        (dispatch_schedule_run c e s trigger run_id job_id now).schedules
      ≡ some r
    → is_due now r ≡ false
unfolding dispatch_schedule_run skip_run start_run record_run is_due
dispatched_not_due c e s r trigger run_id job_id now law current h =
    elim (Bool-cases
      (is_forbidden s.concurrency_policy && has_active_job_for_schedule e.fleet s.schedule_id)) [
        | inl skips ↦
            rw
              (← update_self e.schedules s.schedule_id (set_skipped (skip_columns c s now) now)
                current.row r current.there (rw skips at h))
              (skip_columns-NotDue c law s now)
        | inr runs ↦
            rw
              (← update_self e.schedules s.schedule_id
                (set_run (run_columns c s now) (s.total_runs + 1) now) current.row r current.there
                (rw runs at h))
              (run_columns-NotDue c law s now)
      ]

-- Schedules of the type `once`.
module _ (c : Helpers) (e : Engine) (d : Definition) (id : Text) (now : ℕ) where
  insert-next_run_at :
      (s : Schedule) (taken : Option Schedule) (e' : Engine) (s' : Schedule)
      → insert e s taken ≡ created e' s'
      → s.next_run_at ≡ s'.next_run_at
  insert-next_run_at s none e' s' h = cc
  insert-next_run_at s (some t) e' s' h = cc

  create_target_once :
      (concurrency : ConcurrencyPolicy) (missed : MissedRunPolicy) (t : TargetCheck) (e' : Engine)
      (s' : Schedule)
      → create_target c e d id once concurrency missed now t ≡ created e' s'
      → none ≡ s'.next_run_at
  unfolding calculate_next_run_at new_schedule
  create_target_once concurrency missed (invalid why) e' s' h = cc
  create_target_once concurrency missed valid e' s' h =
      insert-next_run_at (new_schedule d id once concurrency missed none now)
        (get Text-discrete id e.schedules) e' s' h

  create_checked_once :
      (concurrency : Option ConcurrencyPolicy) (missed : Option MissedRunPolicy) (e' : Engine)
      (s' : Schedule)
      → create_checked c e d id now (some once) concurrency missed ≡ created e' s'
      → none ≡ s'.next_run_at
  create_checked_once none missed e' s' h = cc
  create_checked_once (some concurrency) none e' s' h = cc
  create_checked_once (some concurrency) (some missed) e' s' h =
      create_target_once concurrency missed (validate_target d.target_spec) e' s' h

-- A schedule of the type `once` that is created has no next run: it is never due.
pub once_never_due :
    (c : Helpers) (e e' : Engine) (d : Definition) (random : Text) (now : ℕ) (s : Schedule)
    → schedule_type_of d.schedule_type ≡ some once
    → create_schedule c e d random now ≡ created e' s
    → (later : ℕ) → is_due later s ≡ false
unfolding create_schedule is_due
once_never_due c e e' d random now s type h later = elim (Bool-cases (id_ok d.schedule_id)) [
  | inr bad_id ↦
      let bad : refused CreateError.invalid_schedule_id ≡ created e' s = rw bad_id at h in cc
  | inl good_id ↦ elim (Bool-cases (is_blank (trim d.name))) [
    | inl blank ↦
        let bad : refused CreateError.invalid_schedule_name ≡ created e' s =
          rw (good_id, blank) at h in
        cc
    | inr named ↦
        rw
          (← create_checked_once c e d (or_random d.schedule_id random) now
            (concurrency_policy_of d.concurrency_policy) (missed_run_policy_of d.missed_run_policy)
            e' s (rw (good_id, named, type) at h))
          (and_false (is_active s.status))
  ]
]
