-- ===== src/Schedule/Cron.antt =====
-- src/registry/schedule-parser.mjs: cron expressions of five fields and their next occurrence. A set of
-- numbers is the list of its elements in the order in which they were added.
pub mod Search
pub mod Steps
pub mod Fields
pub mod Ranges
pub mod Meaning
pub mod Parser
mod Tests
use dsh_orbit.Common.{
  ℕ, zero, suc, ◌+◌, ◌-◌, ◌*◌, ◌/◌, ◌≤◌, ◌⊎◌, inl, inr, Bool, true, false, not, ◌&&◌, ◌||◌, Option,
  none, some, List, [], ◌∷◌, ◌++◌, ltb, leb, ◌==◌, if◌then◌else◌,
}
use mathlib.Core.List.{reverse}
use dsh_orbit.Common.Text.{Text, text, text_eq, trim, split, is_space}
use dsh_orbit.Schedule.Calendar.{
  Date, date_at, weekday_at, hour_at, minute_at, to_next_month, to_next_day, to_next_hour,
}

pub data ParseError : Type 0 where
  invalid_cron_field invalid_cron_step invalid_cron_range invalid_cron_number : ParseError
  invalid_cron_bounds invalid_cron_fields_count cron_unreachable : ParseError

-- What `Number` gives for a text: not an integer, an integer below 0, or a natural number.
pub data Numeral : Type 0 where
  no_integer negative : Numeral
  natural : ℕ → Numeral

abbrev pub has : ℕ → List ℕ → Bool
has v [] = false
has v (x ∷ xs) = x == v || has v xs

abbrev pub add : ℕ → List ℕ → List ℕ
add v xs = if has v xs then xs else xs ++ v ∷ []

-- `for (let i = min; i <= max; i++) values.add(i)`, the number of rounds given.
abbrev pub add_all : ℕ → ℕ → List ℕ → List ℕ
add_all zero i values = values
add_all (suc n) i values = add_all n (i + 1) (add i values)

abbrev pub wrap_sunday : Bool → ℕ → ℕ
wrap_sunday allow_sunday7 v = if allow_sunday7 && v == 7 then 0 else v

abbrev pub add_within : ℕ → ℕ → ℕ → List ℕ → List ℕ
add_within lo hi v values = if leb lo v && leb v hi then add v values else values

-- `for (let val = rangeStart; val <= rangeEnd; val += step)`, on fuel: the step is positive.
unfoldable pub add_steps : ℕ → (lo hi : ℕ) → Bool → (val last step : ℕ) → List ℕ → List ℕ
add_steps zero lo hi allow val last step values = values
add_steps (suc fuel) lo hi allow val last step values =
    let rest = add_steps fuel lo hi allow (val + step) last step in
    if leb val last then rest (add_within lo hi (wrap_sunday allow val) values) else values

abbrev pub Parsed : Type 0
Parsed = ParseError ⊎ List ℕ

abbrev pub blank : Text → Bool
blank s = text_eq (trim s) []

-- The end of a range that is one number: with a step, the greatest value.
abbrev pub end_of : ℕ → Bool → ℕ → ℕ
end_of hi stepped start = if stepped then hi else start

abbrev pub two_bounds : Numeral → Numeral → ParseError ⊎ (Numeral × Numeral)
two_bounds no_integer last = inl invalid_cron_number
two_bounds first no_integer = inl invalid_cron_number
two_bounds first last = inr (first, last)

abbrev pub one_bound : ℕ → Bool → Numeral → ParseError ⊎ (Numeral × Numeral)
one_bound hi stepped no_integer = inl invalid_cron_number
one_bound hi stepped negative = inr (negative, if stepped then natural hi else negative)
one_bound hi stepped (natural n) = inr (natural n, natural (end_of hi stepped n))

unfoldable pub add_range :
    (lo hi : ℕ) → Bool → ℕ → List ℕ → ParseError ⊎ (Numeral × Numeral) → Parsed
unfolding add_steps
add_range lo hi allow step values (inl e) = inl e
add_range lo hi allow step values (inr (natural first, natural last)) =
    if ltb first lo || ltb (if allow then hi + 1 else hi) last || ltb last first
    then inl invalid_cron_bounds
    else inr (add_steps (last + 1) lo hi allow first last step values)
add_range lo hi allow step values (inr _) = inl invalid_cron_bounds

abbrev pub nonempty : Parsed → Parsed
nonempty (inr []) = inl invalid_cron_field
nonempty parsed = parsed

module _ (number : Text → Numeral) where
  -- `rangePart.split("-")`
  abbrev pub bounds_of : ℕ → Bool → List Text → ParseError ⊎ (Numeral × Numeral)
  bounds_of hi stepped (b ∷ []) =
      if blank b then inl invalid_cron_range else one_bound hi stepped (number b)
  bounds_of hi stepped (a ∷ b ∷ []) =
      if blank a || blank b then inl invalid_cron_range else two_bounds (number a) (number b)
  bounds_of hi stepped _ = inl invalid_cron_range

  unfoldable pub range_of : (lo hi : ℕ) → Bool → Text → ParseError ⊎ (Numeral × Numeral)
  range_of lo hi stepped part =
      if text_eq part (text "*")
      then inr (natural lo, natural hi)
      else bounds_of hi stepped (split b'-' part)

  abbrev pub with_step : (lo hi : ℕ) → Bool → Text → List ℕ → Numeral → Parsed
  with_step lo hi allow range values (natural (suc n)) =
      add_range lo hi allow (suc n) values (range_of lo hi true range)
  with_step lo hi allow range values _ = inl invalid_cron_step

  -- `part.split("/")`
  abbrev pub step_parts : (lo hi : ℕ) → Bool → List ℕ → List Text → Parsed
  step_parts lo hi allow values (range ∷ []) =
      add_range lo hi allow 1 values (range_of lo hi false range)
  step_parts lo hi allow values (range ∷ step ∷ []) =
      with_step lo hi allow range values (number step)
  step_parts lo hi allow values _ = inl invalid_cron_step

  unfoldable pub add_part : (lo hi : ℕ) → Bool → List ℕ → Text → Parsed
  unfolding range_of add_range
  add_part lo hi allow values part =
      if text_eq part (text "*")
      then inr (add_all (hi + 1 - lo) lo values)
      else step_parts lo hi allow values (split b'/' part)

  unfoldable pub add_parts : (lo hi : ℕ) → Bool → Parsed → List Text → Parsed
  unfolding add_part
  add_parts lo hi allow (inl e) parts = inl e
  add_parts lo hi allow (inr values) [] = inr values
  add_parts lo hi allow (inr values) (part ∷ parts) =
      add_parts lo hi allow (add_part lo hi allow values part) parts

  unfoldable pub parse_cron_field : Text → (lo hi : ℕ) → Bool → Parsed
  unfolding add_parts
  parse_cron_field field lo hi allow =
      if blank field
      then inl invalid_cron_field
      else nonempty (add_parts lo hi allow (inr []) (split b',' (trim field)))

-- `split(/\s+/)`: a run of white space ends a word; `spaced` says that one is going on.
split_spaces : Bool → Text → Text → List Text
split_spaces spaced cur [] = reverse cur ∷ []
split_spaces spaced cur (c ∷ s) =
    let closed = reverse cur ∷ split_spaces true [] s in
    let skipped = split_spaces true [] s in
    let longer = split_spaces false (c ∷ cur) s in
    if is_space c then if spaced then skipped else closed else longer

unfoldable pub fields_of : Text → List Text
unfolding split_spaces is_space
fields_of trimmed = split_spaces false [] trimmed

-- A parsed expression.
pub record Cron : Type 0 where
  pub raw : Text
  pub minutes : List ℕ
  pub hours : List ℕ
  pub doms : List ℕ
  pub months : List ℕ
  pub dows : List ℕ

abbrev pub and_then {ℓ} : {A B : Type ℓ} → ParseError ⊎ A → (A → ParseError ⊎ B) → ParseError ⊎ B
and_then (inl e) f = inl e
and_then (inr x) f = f x

module _ (number : Text → Numeral) where
  unfoldable pub parse_fields : Text → List Text → ParseError ⊎ Cron
  unfolding parse_cron_field
  parse_fields raw (minute ∷ hour ∷ dom ∷ month ∷ dow ∷ []) =
      and_then (parse_cron_field number minute 0 59 false) (λ minutes.
        and_then (parse_cron_field number hour 0 23 false) (λ hours.
          and_then (parse_cron_field number dom 1 31 false) (λ doms.
            and_then (parse_cron_field number month 1 12 false) (λ months.
              and_then (parse_cron_field number dow 0 6 true) (λ dows. inr (record {
                raw = raw;
                minutes = minutes;
                hours = hours;
                doms = doms;
                months = months;
                dows = dows;
              }))))))
  parse_fields raw _ = inl invalid_cron_fields_count

  unfoldable pub parse_cron_expression : Text → ParseError ⊎ Cron
  unfolding fields_of parse_fields
  parse_cron_expression s = parse_fields (trim s) (fields_of (trim s))

-- A round of the search: the minute is found, or the search goes on from a later one.
pub data Round : Type 0 where
  found : Round
  go_to : ℕ → Round

unfoldable pub look : Cron → ℕ → Round
look c t =
    if not (has (date_at t).month c.months)
    then go_to (to_next_month t)
    else if not (has (date_at t).day c.doms) || not (has (weekday_at t) c.dows)
    then go_to (to_next_day t)
    else if not (has (hour_at t) c.hours)
    then go_to (to_next_hour t)
    else if not (has (minute_at t) c.minutes)
    then go_to (t + 1)
    else found

abbrev pub follow : ℕ → (ℕ → Option ℕ) → Round → Option ℕ
follow t search found = some t
follow t search (go_to u) = search u

-- The loop, on fuel: every round goes on by a minute or more.
unfoldable pub search : ℕ → Cron → ℕ → ℕ → Option ℕ
unfolding look
search zero c max_year t = none
search (suc fuel) c max_year t =
    if leb (date_at t).year max_year then follow t (search fuel c max_year) (look c t) else none

-- More minutes than five years and the rest of a year have.
abbrev pub window : ℕ
window = 7 * 372 * 1440

abbrev pub first_minute : ℕ → ℕ
first_minute from = from / 60000 + 1

-- The minute of the next occurrence; `none` is the error `cron-unreachable`.
unfoldable pub next_minute : Cron → ℕ → Option ℕ
unfolding search
next_minute c from = search window c ((date_at (first_minute from)).year + 5) (first_minute from)

-- `getNextCronOccurrence`, in milliseconds.
abbrev pub reached_at : Option ℕ → ParseError ⊎ ℕ
reached_at none = inl cron_unreachable
reached_at (some t) = inr (t * 60000)

unfoldable pub get_next_cron_occurrence : Cron → ℕ → ParseError ⊎ ℕ
unfolding next_minute
get_next_cron_occurrence c from = reached_at (next_minute c from)
