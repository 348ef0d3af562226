-- ===== src/Schedule/Calendar/Order.antt =====
-- Days and dates have the same order.
use dsh_orbit.Common.{
  ℕ, zero, suc, ◌+◌, ◌-◌, ◌*◌, ◌≤◌, ◌<◌, ◌≡◌, refl, ap, ◌∙◌, ◌⊎◌, inl, inr, Bool, true, false, ltb,
  if◌then◌else◌, Bool-cases, arith, ltb→lt, lt→ltb,
}
use dsh_orbit.Schedule.Calendar.{Date, days_in_month, next_month, next_day, date_of}

-- Days in the order of the calendar, with room for 31 in each month.
abbrev place : Date → ℕ
place d = d.year * 372 + (d.month - 1) * 31 + (d.day - 1)

pub record IsDate (d : Date) : Type 0 where
  pub month_low : 1 ≤ d.month
  pub month_high : d.month ≤ 12
  pub day_low : 1 ≤ d.day
  pub day_high : d.day ≤ days_in_month d.year d.month

days_in_month_high : (y m : ℕ) → days_in_month y m ≤ 31
days_in_month_high y m = ground arith

days_in_month_low : (y m : ℕ) → 1 ≤ days_in_month y m
days_in_month_low y m = ground arith

-- The three ways in which a day ends.
abbrev pub Steps : Date → Date → Type 0
Steps d e =
    ((d.day < days_in_month d.year d.month)
      × (e ≡ record { year = d.year; month = d.month; day = d.day + 1 }))
    ⊎ ((d.month < 12) × (e ≡ record { year = d.year; month = d.month + 1; day = 1 }))
    ⊎ (e ≡ record { year = d.year + 1; month = 1; day = 1 })

next_day-Steps : (d : Date) → Steps d (next_day d)
next_day-Steps d = elim (Bool-cases (ltb d.day (days_in_month d.year d.month))) [
  | inl e ↦ inl (
    ltb→lt d.day (days_in_month d.year d.month) e,
    ap
        (λ b.
          if b
          then record { year = d.year; month = d.month; day = d.day + 1 }
          else next_month d.year d.month)
        e,
  )
  | inr e ↦ inr (elim (Bool-cases (ltb d.month 12)) [
    | inl f ↦ inl (ltb→lt d.month 12 f, left e ∙ ap month_end f)
    | inr f ↦ inr (left e ∙ ap month_end f)
  ])
]
  where
    month_end : Bool → Date
    month_end b =
        if b
        then record { year = d.year; month = d.month + 1; day = 1 }
        else record { year = d.year + 1; month = 1; day = 1 }

    left : ltb d.day (days_in_month d.year d.month) ≡ false → next_day d ≡ next_month d.year d.month
    left e =
        ap
          (λ b.
            if b
            then record { year = d.year; month = d.month; day = d.day + 1 }
            else next_month d.year d.month)
          e

Steps-IsDate : (d e : Date) → IsDate d → Steps d e → IsDate e
Steps-IsDate d e h (inl (l, q)) = rw q (record {
  month_low = h.month_low;
  month_high = h.month_high;
  day_low = omega arith;
  day_high = omega (arith, l);
})
Steps-IsDate d e h (inr (inl (l, q))) = rw q (record {
  month_low = omega arith;
  month_high = omega arith;
  day_low = omega arith;
  day_high = days_in_month_low d.year (d.month + 1);
})
Steps-IsDate d e h (inr (inr q)) = rw q (record {
  month_low = omega arith;
  month_high = omega arith;
  day_low = omega arith;
  day_high = days_in_month_low (d.year + 1) 1;
})

Steps-place : (d e : Date) → IsDate d → Steps d e → place d < place e
Steps-place d e h (inl (l, q)) = rw q (omega (arith, h.day_low))
Steps-place d e h (inr (inl (l, q))) =
    rw q (omega (arith, h.day_low, h.month_low, h.day_high, days_in_month_high d.year d.month))
Steps-place d e h (inr (inr q)) = rw q (
    omega
      (arith, h.day_low, h.month_low, h.month_high, h.day_high, days_in_month_high d.year d.month))

pub date_of-IsDate : (n : ℕ) → IsDate (date_of n)
unfolding date_of
date_of-IsDate zero = record {
  month_low = omega arith;
  month_high = omega arith;
  day_low = omega arith;
  day_high = omega arith;
}
date_of-IsDate (suc n) =
    Steps-IsDate (date_of n) (next_day (date_of n)) (date_of-IsDate n) (next_day-Steps (date_of n))

date_of-next : (n : ℕ) → place (date_of n) < place (date_of (suc n))
unfolding date_of
date_of-next n =
    Steps-place (date_of n) (next_day (date_of n)) (date_of-IsDate n) (next_day-Steps (date_of n))

date_of-place : (n m : ℕ) → n ≤ m → place (date_of n) + (m - n) ≤ place (date_of m)
date_of-place n zero h = rw only (omega arith)
  where
    only : n ≡ 0
    only = omega arith
date_of-place n (suc m) h = elim (Bool-cases (ltb n (suc m))) [
  | inl e ↦ omega (arith, date_of-place n m (earlier e), date_of-next m, ltb→lt n (suc m) e)
  | inr e ↦ rw (last e) (omega arith)
]
  where
    earlier : ltb n (suc m) ≡ true → n ≤ m
    earlier e = ground arith

    last : ltb n (suc m) ≡ false → n ≡ suc m
    last e = ground arith

place_below : (d : Date) → IsDate d → place d < d.year * 372 + 372
place_below d h = omega (arith, h.month_high, h.day_high, days_in_month_high d.year d.month)

-- Later days have no earlier year; 7 * 372 days later the year is more than five years later.
pub year_mono : (n m : ℕ) → n ≤ m → (date_of n).year ≤ (date_of m).year
year_mono n m h = omega (arith, date_of-place n m h, place_below (date_of m) (date_of-IsDate m))

pub year_after : (n m : ℕ) → n + 7 * 372 ≤ m → (date_of n).year + 5 < (date_of m).year
year_after n m h =
    omega (arith, date_of-place n m (omega arith), place_below (date_of m) (date_of-IsDate m))

abbrev pub on_day : Date → ℕ → Date
on_day d n = record { year = d.year; month = d.month; day = n }

next_day-on_day :
    (d : Date) (n : ℕ) → n < days_in_month d.year d.month → next_day (on_day d n) ≡ on_day d (n + 1)
next_day-on_day d n h = rw (lt→ltb n (days_in_month d.year d.month) h) refl

same_day : (n m : ℕ) → n ≡ m → date_of m ≡ on_day (date_of n) ((date_of n).day + (m - n))
same_day n m e = rw⁻¹ e (ap (on_day (date_of n)) (omega arith))

after_same_month :
    (n m : ℕ)
    → n ≤ m
    → (date_of n).day + (suc m - n) ≤ days_in_month (date_of n).year (date_of n).month
    → date_of m ≡ on_day (date_of n) ((date_of n).day + (m - n))
    → date_of (suc m) ≡ on_day (date_of n) ((date_of n).day + (suc m - n))
unfolding date_of
after_same_month n m h le e =
    ap next_day e
    ∙ next_day-on_day (date_of n) ((date_of n).day + (m - n)) (omega arith)
    ∙ ap (on_day (date_of n)) (omega arith)

-- The days up to the end of a month are in that month.
pub same_month :
    (n m : ℕ)
    → n ≤ m
    → (date_of n).day + (m - n) ≤ days_in_month (date_of n).year (date_of n).month
    → date_of m ≡ on_day (date_of n) ((date_of n).day + (m - n))
same_month n zero h le = same_day n 0 (omega arith)
same_month n (suc m) h le = elim (Bool-cases (ltb n (suc m))) [
  | inl e ↦
      after_same_month n m (earlier e) le (same_month n m (earlier e) (omega (arith, earlier e)))
  | inr e ↦ same_day n (suc m) (last e)
]
  where
    earlier : ltb n (suc m) ≡ true → n ≤ m
    earlier e = ground arith

    last : ltb n (suc m) ≡ false → n ≡ suc m
    last e = ground arith
