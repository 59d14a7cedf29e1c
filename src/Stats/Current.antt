-- ===== src/Stats/Current.antt =====
-- The marks of the current day, week, month and year lie in them.
use keydesk.Clock.Months.{days_from_march-date}
use keydesk.Storage.Types.{LastActivityPoints}
use keydesk.Prelude.{
  arith, not, true, ◌≡◌, refl, subst, sym, ◌∙◌, ◌%◌, ◌+◌, ◌-◌, ◌/◌, ◌==◌, Bool-cases, ap, false,
  inl, inr, ◌||◌, ℕ, ◌≤◌, ltb-false,
}
use keydesk.Clock.{
  Time, date, iso_week, same_day, same_week, same_month, is_zero, day_number, Date, Week,
  days_from_march, civil, prev_month_date, unix_epoch,
}
use keydesk.Stats.Activity.{
  last_activity_mark, marked, today_marked, week_marked, prev_month_dropped, prev_month_taken,
  year_marked, month_marked, day_marked, chosen, unix_fixed,
}

-- A mark that is set lies in the day, week, month or year of this time.
pub record IsCurrent (now : Time) (p : LastActivityPoints) : Type 0 where
  pub in_day : not (is_zero p.daily) ≡ true → same_day (date p.daily) (date now) ≡ true
  pub in_week : not (is_zero p.weekly) ≡ true → same_week (iso_week p.weekly) (iso_week now) ≡ true
  pub in_month : not (is_zero p.monthly) ≡ true → same_month (date p.monthly) (date now) ≡ true
  pub in_year : not (is_zero p.yearly) ≡ true → (date p.yearly).year ≡ (date now).year

same_day-day_number : (t u : Time) → same_day (date t) (date u) ≡ true → day_number t ≡ day_number u
same_day-day_number t u h =
    sym (days_from_march-date t) ∙ fields (date t) (date u) h ∙ days_from_march-date u
  where
    year_eq : (a b : Date) → same_day a b ≡ true → a.year ≡ b.year
    year_eq a b e = ground arith

    month_eq : (a b : Date) → same_day a b ≡ true → a.month ≡ b.month
    month_eq a b e = ground arith

    day_eq : (a b : Date) → same_day a b ≡ true → a.day ≡ b.day
    day_eq a b e = ground arith

    fields :
        (a b : Date)
        → same_day a b ≡ true
        → days_from_march a.year a.month a.day ≡ days_from_march b.year b.month b.day
    fields a b e = rw (year_eq a b e, month_eq a b e, day_eq a b e) refl

week_refl : (w : Week) → same_week w w ≡ true
week_refl w = ground arith

iso_week-day_number : (t u : Time) → day_number t ≡ day_number u → iso_week t ≡ iso_week u
unfolding iso_week day_number
iso_week-day_number t u e = ap by_day (omega (arith, e))
  where
    by_day : ℕ → Week
    by_day n =
        let thursday = n - n % 7 + 3 + 306 in
        let y = (civil thursday).year in
        record { week_year = y; week = (thursday - days_from_march y 1 1) / 7 + 1 }

same_day-same_week :
    (t u : Time) → same_day (date t) (date u) ≡ true → same_week (iso_week t) (iso_week u) ≡ true
same_day-same_week t u h =
    subst (λ w. same_week (iso_week t) w ≡ true)
      (iso_week-day_number t u (same_day-day_number t u h)) (week_refl (iso_week t))

-- What each step leaves as it is.
day_marked-monthly : (d : Date) (p : LastActivityPoints) → (day_marked d p).monthly ≡ p.monthly
unfolding day_marked
day_marked-monthly d p = ground arith

day_marked-yearly : (d : Date) (p : LastActivityPoints) → (day_marked d p).yearly ≡ p.yearly
unfolding day_marked
day_marked-yearly d p = ground arith

day_marked-weekly : (d : Date) (p : LastActivityPoints) → (day_marked d p).weekly ≡ p.weekly
unfolding day_marked
day_marked-weekly d p = ground arith

month_marked-yearly :
    (d : Date) (seen : Time) (p : LastActivityPoints) → (month_marked d seen p).yearly ≡ p.yearly
unfolding month_marked
month_marked-yearly d seen p = ground arith

month_marked-weekly :
    (d : Date) (seen : Time) (p : LastActivityPoints) → (month_marked d seen p).weekly ≡ p.weekly
unfolding month_marked
month_marked-weekly d seen p = ground arith

year_marked-weekly :
    (d : Date) (seen : Time) (p : LastActivityPoints) → (year_marked d seen p).weekly ≡ p.weekly
unfolding year_marked
year_marked-weekly d seen p = ground arith

prev_month-weekly :
    (prev d : Date) (p : LastActivityPoints)
    → (prev_month_taken prev d (prev_month_dropped prev p)).weekly ≡ p.weekly
unfolding prev_month_taken prev_month_dropped
prev_month-weekly prev d p = ground arith

-- What each step makes of its own mark.
day_marked-daily :
    (d : Date) (p : LastActivityPoints)
    → not (is_zero (day_marked d p).daily) ≡ true
    → same_day (date (day_marked d p).daily) d ≡ true
unfolding day_marked
day_marked-daily d p h = ground arith

month_marked-monthly :
    (d : Date) (seen : Time) (p : LastActivityPoints)
    → not (is_zero (month_marked d seen p).monthly) ≡ true
    → same_month (date (month_marked d seen p).monthly) d ≡ true
unfolding month_marked
month_marked-monthly d seen p h = ground arith

year_marked-yearly :
    (d : Date) (seen : Time) (p : LastActivityPoints)
    → not (is_zero (year_marked d seen p).yearly) ≡ true
    → (date (year_marked d seen p).yearly).year ≡ d.year
unfolding year_marked
year_marked-yearly d seen p h = ground arith

week_marked-weekly :
    (now seen : Time) (p : LastActivityPoints)
    → not (is_zero (week_marked now seen p).weekly) ≡ true
    → same_week (iso_week (week_marked now seen p).weekly) (iso_week now) ≡ true
unfolding week_marked
week_marked-weekly now seen p h = ground arith

-- The steps in their order.
later-IsCurrent :
    (now seen : Time) (p : LastActivityPoints)
    → IsCurrent now (
        day_marked (date now) (
          month_marked (date now) seen (
            year_marked (date now) seen (
              prev_month_taken
                (prev_month_date now)
                (date now)
                (prev_month_dropped (prev_month_date now) (week_marked now seen p))))))
later-IsCurrent now seen p =
    let d = date now in
    let prev = prev_month_date now in
    let p1 = week_marked now seen p in
    let p2 = prev_month_taken prev d (prev_month_dropped prev p1) in
    let p3 = year_marked d seen p2 in
    let p4 = month_marked d seen p3 in
    let weekly : (day_marked d p4).weekly ≡ p1.weekly =
      day_marked-weekly d p4
      ∙ month_marked-weekly d seen p3
      ∙ year_marked-weekly d seen p2
      ∙ prev_month-weekly prev d p1 in
    let yearly : (day_marked d p4).yearly ≡ p3.yearly =
      day_marked-yearly d p4 ∙ month_marked-yearly d seen p3 in
    record {
      in_day = day_marked-daily d p4;
      in_week =
          subst (λ t. not (is_zero t) ≡ true → same_week (iso_week t) (iso_week now) ≡ true)
            (sym weekly) (week_marked-weekly now seen p);
      in_month =
          subst (λ t. not (is_zero t) ≡ true → same_month (date t) d ≡ true)
            (sym (day_marked-monthly d p4)) (month_marked-monthly d seen p3);
      in_year =
          subst (λ t. not (is_zero t) ≡ true → (date t).year ≡ d.year) (sym yearly)
            (year_marked-yearly d seen p2);
    }

today-IsCurrent :
    (now seen : Time) (p : LastActivityPoints)
    → same_day (date seen) (date now) ≡ true
    → IsCurrent now (today_marked seen p)
unfolding today_marked
today-IsCurrent now seen p h = record {
  in_day = λ _. h;
  in_week = λ _. same_day-same_week seen now h;
  in_month = λ _. ground (arith, h);
  in_year = λ _. ground (arith, h);
}

marked-IsCurrent : (now seen : Time) (p : LastActivityPoints) → IsCurrent now (marked now seen p)
unfolding marked
marked-IsCurrent now seen p = elim (Bool-cases (same_day (date seen) (date now))) [
  | inl e ↦ rw e (today-IsCurrent now seen p e)
  | inr e ↦ rw e (later-IsCurrent now seen p)
]

-- After an activity is marked at a time that is not before the last update, the marks that are set lie
-- in the day, the week, the month and the year of this time.
pub last_activity_mark-IsCurrent :
    (now seen : Time) (p : LastActivityPoints)
    → p.update ≤ now
    → is_zero seen || (seen == unix_epoch) ≡ false
    → IsCurrent now (last_activity_mark now seen p) × ((last_activity_mark now seen p).update ≡ now)
unfolding last_activity_mark chosen
last_activity_mark-IsCurrent now seen p h k =
    let k' = marked-IsCurrent now seen (record (unix_fixed p) { total = seen }) in
    rw (ltb-false now p.update h, k)
      (
        record {
          in_day = k'.in_day;
          in_week = k'.in_week;
          in_month = k'.in_month;
          in_year = k'.in_year;
        },
        refl,
      )
