-- ===== src/Schedule/Cron/Parser.antt =====
-- src/registry/schedule-parser.mjs as what the schedule engine uses of it.
use dsh_orbit.Common.{
  ℕ, ◌+◌, ◌*◌, ◌<◌, ◌≡◌, refl, sym, subst, ◌⊎◌, inl, inr, Bool, true, false, Option, none, some,
  arith,
}
use mathlib.Core.Option.{some-injective}
use dsh_orbit.Common.Text.{Text, Text-discrete}
use dsh_orbit.Common.JsMap.{get}
use dsh_orbit.Schedule.{Engine, Schedule, TriggerType, Helpers}
use dsh_orbit.Schedule.Dispatch.{dispatch_schedule_run}
use dsh_orbit.Schedule.Loops.{is_due}
use dsh_orbit.Schedule.Bounds.{IsCurrent}
use dsh_orbit.Schedule.Calendar.{date_at}
use dsh_orbit.Schedule.Timing.{IsLater, dispatched_not_due}
use dsh_orbit.Schedule.Cron.{
  ParseError, Numeral, Cron, parse_cron_expression, first_minute, next_minute, reached_at,
  get_next_cron_occurrence,
}
use dsh_orbit.Schedule.Cron.Search.{Least, next_minute-Least}

abbrev pub succeeds : ParseError ⊎ Cron → Bool
succeeds (inl e) = false
succeeds (inr c) = true

abbrev pub time_of : ParseError ⊎ ℕ → Option ℕ
time_of (inl e) = none
time_of (inr t) = some t

abbrev pub next_of : ParseError ⊎ Cron → ℕ → Option ℕ
next_of (inl e) from = none
next_of (inr c) from = time_of (get_next_cron_occurrence c from)

-- `calculateNextRunAt` for the type cron calls the two functions one after the other.
unfoldable pub cron_helpers : (Text → Numeral) → (Text → Text) → Helpers
unfolding parse_cron_expression get_next_cron_occurrence
cron_helpers number scrub_string = record {
  parses = λ e. succeeds (parse_cron_expression number e);
  next_occurrence = λ e from. next_of (parse_cron_expression number e) from;
  scrub_string = scrub_string;
}

minute_later :
    (c : Cron) (from t : ℕ) (o : Option ℕ)
    → o ≡ next_minute c from
    → time_of (reached_at o) ≡ some t
    → from < t
minute_later c from t none e h = absurd cc
minute_later c from t (some u) e h = omega (arith, first.0, some-injective (u * 60000) t h)
  where
    first : Least c ((date_at (first_minute from)).year + 5) (first_minute from) (some u)
    first =
        subst (Least c ((date_at (first_minute from)).year + 5) (first_minute from)) (sym e)
          (next_minute-Least c from)

next_of-later : (parsed : ParseError ⊎ Cron) (from t : ℕ) → next_of parsed from ≡ some t → from < t
unfolding get_next_cron_occurrence
next_of-later (inl e) from t h = absurd cc
next_of-later (inr c) from t h = minute_later c from t (next_minute c from) refl h

-- The next occurrence of any cron expression is later than the time from which it is sought.
pub cron_helpers-IsLater :
    (number : Text → Numeral) (scrub_string : Text → Text)
    → IsLater (cron_helpers number scrub_string)
unfolding cron_helpers
cron_helpers-IsLater number scrub_string e from t h =
    next_of-later (parse_cron_expression number e) from t h

-- With the cron parser of the source, a schedule that has just been dispatched, or skipped since a job of it
-- is active, is not due at that time. The schedule was read from the table as it is.
pub never_dispatched_twice :
    (number : Text → Numeral) (scrub_string : Text → Text) (e : Engine) (s r : Schedule)
    (trigger : TriggerType) (run_id job_id : Text) (now : ℕ)
    → IsCurrent e.schedules s
    → get Text-discrete s.schedule_id
        (dispatch_schedule_run
          (cron_helpers number scrub_string)
          e
          s
          trigger
          run_id
          job_id
          now).schedules
      ≡ some r
    → is_due now r ≡ false
never_dispatched_twice number scrub_string e s r trigger run_id job_id now current h =
    dispatched_not_due (cron_helpers number scrub_string) e s r trigger run_id job_id now
      (cron_helpers-IsLater number scrub_string) current h
