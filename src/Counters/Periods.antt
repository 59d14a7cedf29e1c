-- ===== src/Counters/Periods.antt =====
-- What the counters of the day and of the day before hold after an update on the next day.
use keydesk.Clock.NextDay.{NextDay, next_day_date-NextDay}
use keydesk.Prelude.{
  ℕ, ◌&&◌, ◌+◌, ◌==◌, Bool, ap, arith, ltb, sym, ◌∙◌, ◌≡◌, ◌≢◌, ◌≤◌, ◌⊎◌, ◌<◌, Bool-cases,
  if◌then◌else◌, inl, inr, false, true, ltb→lt,
}
use keydesk.Clock.{Time, Date, date, civil, day_number, next_month_date, next_day_date}
use keydesk.Clock.Civil.{days_in_month, IsDate}
use keydesk.Clock.Months.{
  next_day_date-civil, date-IsDate, next_month_december, next_month_overflow, next_month_fits,
}
use keydesk.Counters.{DateSummaryNetCounters, inc_date_switch_related, no_traffic}

-- The next day's date.
next_date : (last now : Time) → day_number now ≡ day_number last + 1 → date now ≡ next_day_date last
unfolding date
next_date last now h = ap civil h ∙ sym (next_day_date-civil last)

-- The last day of a month that the next month has not got, such as the 31st of January.
unfoldable pub is_lost : Date → Bool
is_lost t =
    (t.day == days_in_month t.year t.month)
    && ltb t.month 12
    && ltb (days_in_month t.year (t.month + 1)) t.day

-- What the update does on a later day with these dates.
module _ (now : Time) (rx tx : ℕ) (c : DateSummaryNetCounters) (h : c.update ≤ now)
    (z : c.update ≢ 0) (adjacent : date now ≡ next_day_date c.update) where
  prev_day_within :
      (date now).year ≡ (date c.update).year
      → (date now).month ≡ (date c.update).month
      → (date now).day ≡ (date c.update).day + 1
      → ((inc_date_switch_related now rx tx c).prev_day ≡ c.daily)
        × ((inc_date_switch_related now rx tx c).daily ≡ record { rx = rx; tx = tx })
  unfolding inc_date_switch_related
  prev_day_within ey em ed = ground arith

  prev_day_kept :
      ((date now).year ≡ (date c.update).year) ⊎ ((date now).year ≡ (date c.update).year + 1)
      → (date now).month ≢ (date c.update).month
      → (date now).day ≢ (date c.update).day
      → next_month_date c.update
        ≡ record { year = (date now).year; month = (date now).month; day = (date c.update).day }
      → ((inc_date_switch_related now rx tx c).prev_day ≡ c.daily)
        × ((inc_date_switch_related now rx tx c).daily ≡ record { rx = rx; tx = tx })
  unfolding inc_date_switch_related
  prev_day_kept ey em ed a = ground arith

  prev_day_lost :
      ((date now).year ≡ (date c.update).year)
      → (date now).month ≢ (date c.update).month
      → (date now).day ≢ (date c.update).day
      → (next_month_date c.update).month ≢ (date now).month
      → ((inc_date_switch_related now rx tx c).prev_day ≡ no_traffic)
        × ((inc_date_switch_related now rx tx c).daily ≡ record { rx = rx; tx = tx })
  unfolding inc_date_switch_related
  prev_day_lost ey em ed a = ground arith

day_number_mono : (t u : Time) → day_number t < day_number u → t ≤ u
unfolding day_number
day_number_mono t u h = omega arith

abbrev Counted : Time → ℕ → ℕ → DateSummaryNetCounters → Type 0
Counted now rx tx c =
    ((inc_date_switch_related now rx tx c).prev_day
      ≡ (if is_lost (date c.update) then no_traffic else c.daily))
    × ((inc_date_switch_related now rx tx c).daily ≡ record { rx = rx; tx = tx })

Counted-lost :
    (now : Time) (rx tx : ℕ) (c : DateSummaryNetCounters)
    → is_lost (date c.update) ≡ true
    → ((inc_date_switch_related now rx tx c).prev_day ≡ no_traffic)
      × ((inc_date_switch_related now rx tx c).daily ≡ record { rx = rx; tx = tx })
    → Counted now rx tx c
Counted-lost now rx tx c e p = rw e p

Counted-kept :
    (now : Time) (rx tx : ℕ) (c : DateSummaryNetCounters)
    → is_lost (date c.update) ≡ false
    → ((inc_date_switch_related now rx tx c).prev_day ≡ c.daily)
      × ((inc_date_switch_related now rx tx c).daily ≡ record { rx = rx; tx = tx })
    → Counted now rx tx c
Counted-kept now rx tx c e p = rw e p

days_in_month-ge : (y m : ℕ) → 28 ≤ days_in_month y m
days_in_month-ge y m = ground arith

-- The last day of a month before December.
Counted-next_month :
    (now : Time) (rx tx : ℕ) (c : DateSummaryNetCounters)
    → c.update ≤ now
    → c.update ≢ 0
    → (date c.update).month < 12
    → (date c.update).day ≡ days_in_month (date c.update).year (date c.update).month
    → date now ≡ record { year = (date c.update).year; month = (date c.update).month + 1; day = 1 }
    → date now ≡ next_day_date c.update
    → Counted now rx tx c
unfolding is_lost next_month_date
Counted-next_month now rx tx c h z m l e a =
    elim (Bool-cases (ltb (days_in_month last.year (last.month + 1)) last.day)) [
      | inl lost ↦ Counted-lost now rx tx c (ground arith) (
          prev_day_lost now rx tx c h z a year_eq month_ne day_ne (
            rw (next_month_overflow last.year last.month last.day v m (ltb→lt _ _ lost))
              (omega (arith, month_eq))))
      | inr fits ↦ Counted-kept now rx tx c (ground arith) (
          prev_day_kept now rx tx c h z a (inl year_eq) month_ne day_ne (
            next_month_fits last.year last.month last.day v m (ground arith)
            ∙ rw (year_eq, month_eq)))
    ]
  where
    last : Date
    last = date c.update

    v : IsDate last.year last.month last.day
    v = date-IsDate c.update

    year_eq : (date now).year ≡ last.year
    year_eq = ap (λ (t : Date). t.year) e

    month_eq : (date now).month ≡ last.month + 1
    month_eq = ap (λ (t : Date). t.month) e

    month_ne : (date now).month ≢ last.month
    month_ne = omega (arith, month_eq)

    day_eq : (date now).day ≡ 1
    day_eq = ap (λ (t : Date). t.day) e

    day_ne : (date now).day ≢ last.day
    day_ne = omega (arith, day_eq, l, days_in_month-ge last.year last.month)

-- The last day of the year.
Counted-next_year :
    (now : Time) (rx tx : ℕ) (c : DateSummaryNetCounters)
    → c.update ≤ now
    → c.update ≢ 0
    → (date c.update).month ≡ 12
    → (date c.update).day ≡ 31
    → date now ≡ record { year = (date c.update).year + 1; month = 1; day = 1 }
    → date now ≡ next_day_date c.update
    → Counted now rx tx c
unfolding is_lost next_month_date
Counted-next_year now rx tx c h z m l e a = Counted-kept now rx tx c (ground arith) (
    prev_day_kept now rx tx c h z a (inr year_eq) (omega (arith, month_eq, m))
      (omega (arith, day_eq, l))
      (next_month_december last.year last.month last.day m (omega (arith, l)) (omega (arith, l))
        ∙ rw (year_eq, month_eq)))
  where
    last : Date
    last = date c.update

    year_eq : (date now).year ≡ last.year + 1
    year_eq = ap (λ (t : Date). t.year) e

    month_eq : (date now).month ≡ 1
    month_eq = ap (λ (t : Date). t.month) e

    day_eq : (date now).day ≡ 1
    day_eq = ap (λ (t : Date). t.day) e

Counted-within :
    (now : Time) (rx tx : ℕ) (c : DateSummaryNetCounters)
    → c.update ≤ now
    → c.update ≢ 0
    → (date c.update).day < days_in_month (date c.update).year (date c.update).month
    → date now ≡ record {
      year = (date c.update).year;
      month = (date c.update).month;
      day = (date c.update).day + 1;
    }
    → date now ≡ next_day_date c.update
    → Counted now rx tx c
unfolding is_lost
Counted-within now rx tx c h z k e a = Counted-kept now rx tx c (ground arith) (
    prev_day_within now rx tx c h z a (ap (λ (t : Date). t.year) e) (ap (λ (t : Date). t.month) e)
      (ap (λ (t : Date). t.day) e))

-- After an update on the day after the last one, the day holds the new traffic alone, and the day
-- before holds what the day held, unless the last update was on a last day of a month that the next
-- month has not got: then the day before holds nothing.
pub prev_day-next_day :
    (now : Time) (rx tx : ℕ) (c : DateSummaryNetCounters)
    → c.update ≢ 0
    → day_number now ≡ day_number c.update + 1
    → ((inc_date_switch_related now rx tx c).prev_day
        ≡ (if is_lost (date c.update) then no_traffic else c.daily))
      × ((inc_date_switch_related now rx tx c).daily ≡ record { rx = rx; tx = tx })
prev_day-next_day now rx tx c z h = by_shape (next_day_date-NextDay c.update)
  where
    later : c.update ≤ now
    later = day_number_mono c.update now (omega arith)

    a : date now ≡ next_day_date c.update
    a = next_date c.update now h

    by_shape :
        NextDay
          (date c.update).year
          (date c.update).month
          (date c.update).day
          (next_day_date c.update)
        → Counted now rx tx c
    by_shape (NextDay.within_month k e) = Counted-within now rx tx c later z k (a ∙ e) a
    by_shape (NextDay.next_month m l e) = Counted-next_month now rx tx c later z m l (a ∙ e) a
    by_shape (NextDay.next_year m l e) = Counted-next_year now rx tx c later z m l (a ∙ e) a
