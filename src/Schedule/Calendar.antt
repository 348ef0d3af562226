-- ===== src/Schedule/Calendar.antt =====
-- The UTC calendar of JavaScript dates, as src/registry/schedule-parser.mjs reads and sets its fields. A
-- time is a number of minutes since 1970-01-01, a Thursday.
pub mod Order
use dsh_orbit.Common.{
  ℕ, zero, suc, ◌+◌, ◌-◌, ◌*◌, ◌/◌, ◌%◌, Bool, true, false, not, ◌&&◌, ◌||◌, ltb, leb, ◌==◌,
  if◌then◌else◌,
}

pub record Date : Type 0 where
  pub year : ℕ
  pub month : ℕ
  pub day : ℕ

-- A century is leap if 400 divides it, another year if 4 does.
abbrev pub is_leap : ℕ → Bool
is_leap y = (if y % 100 == 0 then y % 400 else y % 4) == 0

abbrev pub days_in_month : ℕ → ℕ → ℕ
days_in_month y m =
    if m == 2
    then (if is_leap y then 29 else 28)
    else if m == 4 || m == 6 || m == 9 || m == 11
    then 30
    else 31

abbrev pub next_month : ℕ → ℕ → Date
next_month y m =
    if ltb m 12
    then record { year = y; month = m + 1; day = 1 }
    else record { year = y + 1; month = 1; day = 1 }

abbrev pub next_day : Date → Date
next_day d =
    if ltb d.day (days_in_month d.year d.month)
    then record { year = d.year; month = d.month; day = d.day + 1 }
    else next_month d.year d.month

-- The date of a day, counted from 1970-01-01.
unfoldable pub date_of : ℕ → Date
date_of zero = record { year = 1970; month = 1; day = 1 }
date_of (suc n) = next_day (date_of n)

-- `getUTCFullYear`, `getUTCMonth() + 1`, `getUTCDate`, `getUTCDay`, `getUTCHours`, `getUTCMinutes`
abbrev pub date_at : ℕ → Date
date_at t = date_of (t / 1440)

abbrev pub weekday_at : ℕ → ℕ
weekday_at t = (4 + t / 1440) % 7

abbrev pub hour_at : ℕ → ℕ
hour_at t = t / 60 % 24

abbrev pub minute_at : ℕ → ℕ
minute_at t = t % 60

-- `setUTCMonth(getUTCMonth() + 1, 1)`, `setUTCDate(getUTCDate() + 1)`, each with the hours set to 0,
-- `setUTCHours(getUTCHours() + 1, 0, 0, 0)` and `setUTCMinutes(getUTCMinutes() + 1, 0, 0)`
abbrev pub to_next_month : ℕ → ℕ
to_next_month t =
    let d : Date = date_at t in (t / 1440 + (days_in_month d.year d.month - d.day) + 1) * 1440

abbrev pub to_next_day : ℕ → ℕ
to_next_day t = (t / 1440 + 1) * 1440

abbrev pub to_next_hour : ℕ → ℕ
to_next_hour t = (t / 60 + 1) * 60
