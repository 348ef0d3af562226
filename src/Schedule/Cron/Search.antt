-- ===== src/Schedule/Cron/Search.antt =====
-- The search of src/registry/schedule-parser.mjs finds the first minute that an expression names.
use dsh_orbit.Common.{
  ℕ, zero, suc, ◌+◌, ◌/◌, ◌%◌, ◌≤◌, ◌<◌, ◌≡◌, refl, ap, ◌∙◌, inl, inr, Bool, true, false, not, ◌&&◌,
  ◌||◌, Option, none, some, ltb, leb, Bool-cases, arith, leb→le, ltb→lt,
}
use dsh_orbit.Schedule.Calendar.{
  date_of, date_at, weekday_at, hour_at, minute_at, to_next_month, to_next_day, to_next_hour,
}
use dsh_orbit.Schedule.Calendar.Order.{year_mono, year_after, same_month, date_of-IsDate}
use dsh_orbit.Schedule.Cron.{
  has, Cron, Round, found, go_to, look, follow, search, window, first_minute, next_minute,
}

-- What the five fields say of a minute.
abbrev pub matches : Cron → ℕ → Bool
matches c t =
    has (date_at t).month c.months
    && has (date_at t).day c.doms
    && has (weekday_at t) c.dows
    && has (hour_at t) c.hours
    && has (minute_at t) c.minutes

abbrev pub NoneBefore : Cron → ℕ → ℕ → Type 0
NoneBefore c t u = (k : ℕ) → t ≤ k → k < u → matches c k ≡ false

module _ (c : Cron) where
  abbrev LooksOn : ℕ → Round → Type 0
  LooksOn t found = matches c t ≡ true
  LooksOn t (go_to u) = (t < u) × NoneBefore c t u

  no_month : (k : ℕ) → has (date_at k).month c.months ≡ false → matches c k ≡ false
  no_month k e = rw e refl

  skips_month :
      (t : ℕ) → has (date_at t).month c.months ≡ false → LooksOn t (go_to (to_next_month t))
  skips_month t e =
      (omega arith, λ k le less. no_month k (ap (λ m. has m c.months) (same k le less) ∙ e))
    where
      same : (k : ℕ) → t ≤ k → k < to_next_month t → (date_at k).month ≡ (date_at t).month
      same k le less =
          ap (λ d. d.month)
            (same_month (t / 1440) (k / 1440) (omega arith)
              (omega (arith, (date_of-IsDate (t / 1440)).day_high)))

  not_days : (m d w h i : Bool) → (not d || not w) ≡ true → (m && d && w && h && i) ≡ false
  not_days m d w h i e = ground arith

  not_hour : (m d w h i : Bool) → h ≡ false → (m && d && w && h && i) ≡ false
  not_hour m d w h i e = ground arith

  not_minute : (m d w h i : Bool) → i ≡ false → (m && d && w && h && i) ≡ false
  not_minute m d w h i e = ground arith

  all_five :
      (m d w h i : Bool)
      → m ≡ true
      → (not d || not w) ≡ false
      → h ≡ true
      → i ≡ true
      → (m && d && w && h && i) ≡ true
  all_five m d w h i e f g j = ground arith

  abbrev no_days : ℕ → Bool
  no_days n = not (has (date_of n).day c.doms) || not (has ((4 + n) % 7) c.dows)

  not_days_at : (k : ℕ) → no_days (k / 1440) ≡ true → matches c k ≡ false
  not_days_at k =
      not_days (has (date_at k).month c.months) (has (date_at k).day c.doms)
        (has (weekday_at k) c.dows) (has (hour_at k) c.hours) (has (minute_at k) c.minutes)

  not_hour_at : (k : ℕ) → has (hour_at k) c.hours ≡ false → matches c k ≡ false
  not_hour_at k =
      not_hour (has (date_at k).month c.months) (has (date_at k).day c.doms)
        (has (weekday_at k) c.dows) (has (hour_at k) c.hours) (has (minute_at k) c.minutes)

  not_minute_at : (k : ℕ) → has (minute_at k) c.minutes ≡ false → matches c k ≡ false
  not_minute_at k =
      not_minute (has (date_at k).month c.months) (has (date_at k).day c.doms)
        (has (weekday_at k) c.dows) (has (hour_at k) c.hours) (has (minute_at k) c.minutes)

  skips_day : (t : ℕ) → no_days (t / 1440) ≡ true → LooksOn t (go_to (to_next_day t))
  skips_day t e = (omega arith, λ k le less. not_days_at k (ap no_days (same k le less) ∙ e))
    where
      same : (k : ℕ) → t ≤ k → k < to_next_day t → k / 1440 ≡ t / 1440
      same k le less = omega arith

  skips_hour : (t : ℕ) → has (hour_at t) c.hours ≡ false → LooksOn t (go_to (to_next_hour t))
  skips_hour t e = (
    omega arith,
    λ k le less. not_hour_at k (ap (λ n. has (n % 24) c.hours) (same k le less) ∙ e),
  )
    where
      same : (k : ℕ) → t ≤ k → k < to_next_hour t → k / 60 ≡ t / 60
      same k le less = omega arith

  skips_minute : (t : ℕ) → has (minute_at t) c.minutes ≡ false → LooksOn t (go_to (t + 1))
  skips_minute t e = (
    omega arith,
    λ k le less. not_minute_at k (ap (λ n. has (minute_at n) c.minutes) (same k le less) ∙ e),
  )
    where
      same : (k : ℕ) → t ≤ k → k < t + 1 → k ≡ t
      same k le less = omega arith

  look-LooksOn : (t : ℕ) → LooksOn t (look c t)
  unfolding look
  look-LooksOn t = elim (Bool-cases (has (date_at t).month c.months)) [
    | inr e ↦ rw e (skips_month t e)
    | inl m ↦ rw m (elim (Bool-cases (no_days (t / 1440))) [
      | inl e ↦ rw e (skips_day t e)
      | inr d ↦ rw d (elim (Bool-cases (has (hour_at t) c.hours)) [
        | inr e ↦ rw e (skips_hour t e)
        | inl h ↦ rw h (elim (Bool-cases (has (minute_at t) c.minutes)) [
          | inr e ↦ rw e (skips_minute t e)
          | inl i ↦ rw i (
              all_five (has (date_at t).month c.months) (has (date_at t).day c.doms)
                (has (weekday_at t) c.dows) (has (hour_at t) c.hours) (has (minute_at t) c.minutes)
                m d h i)
        ])
      ])
    ])
  ]

  -- What a search from a minute t is to give.
  abbrev pub Least : ℕ → ℕ → Option ℕ → Type 0
  Least max_year t none = (k : ℕ) → t ≤ k → (date_at k).year ≤ max_year → matches c k ≡ false
  Least max_year t (some u) =
      (t ≤ u) × (matches c u ≡ true) × ((date_at u).year ≤ max_year) × NoneBefore c t u

  Least-later : (y t u : ℕ) (o : Option ℕ) → LooksOn t (go_to u) → Least y u o → Least y t o
  Least-later y t u none (less, skip) h = λ k le early. elim (Bool-cases (ltb k u)) [
    | inl e ↦ skip k le (ltb→lt k u e)
    | inr e ↦ h k (not_before k e) early
  ]
    where
      not_before : (k : ℕ) → ltb k u ≡ false → u ≤ k
      not_before k e = ground arith
  Least-later y t u (some v) (less, skip) (le, m, early, none_before) = (
    omega arith,
    m,
    early,
    λ k le' less'. elim (Bool-cases (ltb k u)) [
      | inl e ↦ skip k le' (ltb→lt k u e)
      | inr e ↦ none_before k (not_before k e) less'
    ],
  )
    where
      not_before : (k : ℕ) → ltb k u ≡ false → u ≤ k
      not_before k e = ground arith

  -- No year is early enough any more.
  too_late : (y t : ℕ) → y < (date_at t).year → Least y t none
  too_late y t h =
      λ k le early. absurd (omega (arith, year_mono (t / 1440) (k / 1440) (omega arith)))

  follow-Least :
      (f y t : ℕ) (r : Round)
      → (date_at t).year ≤ y
      → LooksOn t r
      → ((u : ℕ) → t < u → Least y u (search f c y u))
      → Least y t (follow t (search f c y) r)
  follow-Least f y t found early m ih = (omega arith, m, early, λ k le less. absurd (omega arith))
  follow-Least f y t (go_to u) early (less, skip) ih =
      Least-later y t u (search f c y u) (less, skip) (ih u less)

  -- `last` is a minute after the years that are searched.
  search-Least :
      (f y t last : ℕ)
      → ((k : ℕ) → last ≤ k → y < (date_at k).year)
      → last ≤ t + f
      → Least y t (search f c y t)
  unfolding search
  search-Least zero y t last after h = too_late y t (after t (omega arith))
  search-Least (suc f) y t last after h = elim (Bool-cases (leb (date_at t).year y)) [
    | inl e ↦ rw e (
        follow-Least f y t (look c t) (leb→le (date_at t).year y e) (look-LooksOn t)
          (λ u less. search-Least f y u last after (omega arith)))
    | inr e ↦ rw e (too_late y t (ground arith))
  ]

  -- The search gives the first later minute that all five fields name, of the years up to the fifth after that
  -- of the next minute, and gives none only if there is none.
  pub next_minute-Least :
      (from : ℕ)
      → Least ((date_at (first_minute from)).year + 5) (first_minute from) (next_minute c from)
  unfolding next_minute
  next_minute-Least from =
      search-Least window ((date_at (first_minute from)).year + 5) (first_minute from)
        (first_minute from + window)
        (λ k le. year_after (first_minute from / 1440) (k / 1440) (omega arith)) (omega arith)
