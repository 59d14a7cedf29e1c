-- ===== src/Clock/Months.antt =====
-- What `AddDate` does with the dates of neighbouring days and months.
use keydesk.Prelude.{
  zero, suc, ℕ, ◌≡◌, ◌<◌, ◌/◌, ◌+◌, arith, ◌≤◌, ◌-◌, ◌∙◌, ap, suc, if◌then◌else◌, refl,
}
use keydesk.Clock.{
  Time, date, normal_date, next_day_date, civil, days_from_march, day_number, day_length,
  year_start,
}
use keydesk.Clock.Civil.{
  IsDate, civil-IsDate, days_from_march-civil, civil-days_from_march, days_in_month, is_leap,
}

-- A time falls on a date of the calendar.
pub date-IsDate : (t : Time) → IsDate (date t).year (date t).month (date t).day
unfolding date day_number
date-IsDate t = civil-IsDate (t / day_length + 306) (omega arith)

pub days_from_march-date :
    (t : Time) → days_from_march (date t).year (date t).month (date t).day ≡ day_number t
unfolding date
days_from_march-date t = days_from_march-civil (day_number t)

pub normal_date_mid :
    (y m d : ℕ) → 1 ≤ m → m ≤ 12 → normal_date y m d ≡ civil (days_from_march y m d)
unfolding normal_date
normal_date_mid y m d h k = ground arith

days_from_march-next : (y m d : ℕ) → 1 ≤ d → days_from_march y m (d + 1) ≡ days_from_march y m d + 1
unfolding days_from_march
days_from_march-next y m d h = omega arith

-- The day after a day has the next day number.
pub next_day_date-civil : (t : Time) → next_day_date t ≡ civil (day_number t + 1)
unfolding next_day_date
next_day_date-civil t =
    let v = date-IsDate t in
    let now = date t in
    rw (
      normal_date_mid now.year now.month (now.day + 1) v.month_pos v.month_le,
      days_from_march-next now.year now.month now.day v.day_pos,
      days_from_march-date t,
    )

year_start-leap :
    (y : ℕ) → 1 ≤ y → year_start y ≡ year_start (y - 1) + (if is_leap y then 366 else 365)
year_start-leap y h = ground arith

carry_january : (y d : ℕ) → 31 < d → days_from_march y 1 d ≡ days_from_march y 2 (d - 31)
unfolding days_from_march
carry_january y d h = omega arith

carry_february :
    (y d : ℕ)
    → 1 ≤ y
    → days_in_month y 2 < d
    → days_from_march y 2 d ≡ days_from_march y 3 (d - days_in_month y 2)
unfolding days_from_march
carry_february y d p h = ground (arith, year_start-leap y p)

carry_late :
    (y m d : ℕ)
    → 3 ≤ m
    → m ≤ 11
    → days_in_month y m < d
    → days_from_march y m d ≡ days_from_march y (m + 1) (d - days_in_month y m)
unfolding days_from_march
carry_late y m d h k l = ground arith

-- The days past the end of a month are days of the next one.
pub days_from_march-carry :
    (y m d : ℕ)
    → 1 ≤ y
    → 1 ≤ m
    → m ≤ 11
    → days_in_month y m < d
    → days_from_march y m d ≡ days_from_march y (m + 1) (d - days_in_month y m)
days_from_march-carry y zero d p h k l = absurd (omega arith)
days_from_march-carry y (suc zero) d p h k l = carry_january y d l
days_from_march-carry y (suc (suc zero)) d p h k l = carry_february y d p l
days_from_march-carry y (suc (suc (suc m))) d p h k l =
    carry_late y (suc (suc (suc m))) d (omega arith) k l

carry-IsDate :
    (y m d : ℕ)
    → IsDate y m d
    → days_in_month y (m + 1) < d
    → m < 11
    → IsDate y (m + 2) (d - days_in_month y (m + 1))
carry-IsDate y m d v k h = ground arith

overflow_month : (y m d : ℕ) → IsDate y m d → m < 12 → days_in_month y (m + 1) < d → m < 11
overflow_month y m d v h k = ground arith

-- A day that the next month has not got falls in the month after it.
pub next_month_overflow :
    (y m d : ℕ)
    → IsDate y m d
    → m < 12
    → days_in_month y (m + 1) < d
    → normal_date y (m + 1) d
      ≡ record { year = y; month = m + 2; day = d - days_in_month y (m + 1) }
next_month_overflow y m d v h k =
    let l : m < 11 = overflow_month y m d v h k in
    normal_date_mid y (m + 1) d (omega arith) (omega arith)
    ∙ ap civil (days_from_march-carry y (m + 1) d v.year_pos (omega arith) (omega arith) k)
    ∙ ap (λ (n : ℕ). civil (days_from_march y n (d - days_in_month y (m + 1)))) (omega arith)
    ∙ civil-days_from_march y (m + 2) (d - days_in_month y (m + 1)) (carry-IsDate y m d v k l)

-- A day that the month before has not got falls in the same month again.
pub prev_month_overflow :
    (y m d : ℕ)
    → IsDate y m d
    → 2 ≤ m
    → days_in_month y (m - 1) < d
    → normal_date y (m - 1) d ≡ record { year = y; month = m; day = d - days_in_month y (m - 1) }
prev_month_overflow y m d v h k =
    normal_date_mid y (m - 1) d (omega arith) (omega arith)
    ∙ ap civil (days_from_march-carry y (m - 1) d v.year_pos (omega arith) (omega arith) k)
    ∙ ap (λ (n : ℕ). civil (days_from_march y n (d - days_in_month y (m - 1)))) (omega arith)
    ∙ civil-days_from_march y m (d - days_in_month y (m - 1)) (ground arith)

-- A day that the next month has, before December.
pub next_month_fits :
    (y m d : ℕ)
    → IsDate y m d
    → m < 12
    → d ≤ days_in_month y (m + 1)
    → normal_date y (m + 1) d ≡ record { year = y; month = m + 1; day = d }
next_month_fits y m d v h k =
    normal_date_mid y (m + 1) d (omega arith) (omega arith)
    ∙ civil-days_from_march y (m + 1) d (record {
      year_pos = v.year_pos;
      month_pos = omega arith;
      month_le = omega arith;
      day_pos = v.day_pos;
      day_le = k;
    })

normal_date-thirteen : (y d : ℕ) → normal_date y 13 d ≡ civil (days_from_march (y + 1) 1 d)
unfolding normal_date
normal_date-thirteen y d = refl

-- In December the next month is in the next year.
pub next_month_december :
    (y m d : ℕ)
    → m ≡ 12
    → 1 ≤ d
    → d ≤ 31
    → normal_date y (m + 1) d ≡ record { year = y + 1; month = 1; day = d }
next_month_december y m d e h k = rw e (
    normal_date-thirteen y d
    ∙ civil-days_from_march (y + 1) 1 d (record {
      year_pos = omega arith;
      month_pos = omega arith;
      month_le = omega arith;
      day_pos = h;
      day_le = k;
    }))
