-- ===== src/Clock.antt =====
-- Go's time package, as far as the program uses it. A time is the number of nanoseconds since
-- the zero time, 0001-01-01 00:00:00 UTC, so `IsZero` is a test for 0; all times are in UTC.
pub mod Civil
pub mod Months
pub mod NextDay
use keydesk.Prelude.{ℕ, ◌+◌, ◌-◌, ◌*◌, ◌/◌, ◌%◌, Bool, ltb, leb, ◌==◌, if◌then◌else◌, ◌&&◌}

abbrev pub Time : Type 0
Time = ℕ

abbrev pub Duration : Type 0
Duration = ℕ

abbrev pub second : ℕ
second = 1000000000

abbrev pub day_length : ℕ
day_length = 86400 * second

abbrev pub zero_time : Time
zero_time = 0

-- `time.Unix(0, 0)`: the first of January 1970 is day 719162.
abbrev pub unix_epoch : Time
unix_epoch = 719162 * day_length

abbrev pub is_zero : Time → Bool
is_zero t = t == 0

abbrev pub before : Time → Time → Bool
before t u = ltb t u

abbrev pub after : Time → Time → Bool
after t u = ltb u t

pub record Date : Type 0 where
  pub year : ℕ
  pub month : ℕ
  pub day : ℕ

-- The number of days from 0000-03-01 to the first of March of a year.
abbrev pub year_start : ℕ → ℕ
year_start y = 365 * y + y / 4 - y / 100 + y / 400

-- The number of days from 0000-03-01 to a date. A day past the end of its month counts on into
-- the next one, as `time.Date` does.
unfoldable pub days_from_march : ℕ → ℕ → ℕ → ℕ
days_from_march y m d =
    let late = leb m 2 in
    let y' = if late then y - 1 else y in
    let mp = if late then m + 9 else m - 3 in year_start y' + ((153 * mp + 2) / 5 + (d - 1))

-- The date of a day, from the year that begins on the first of March and the day in that year.
unfoldable pub of_day_of_year : ℕ → ℕ → Date
of_day_of_year y doy =
    let mp = (5 * doy + 2) / 153 in
    let d = doy - (153 * mp + 2) / 5 + 1 in
    let m = if ltb mp 10 then mp + 3 else mp - 9 in
    record { year = (if leb m 2 then y + 1 else y); month = m; day = d }

-- The date of a day of an era of 400 years, which has 146097 days.
unfoldable pub of_day_of_era : ℕ → ℕ → Date
of_day_of_era era doe =
    let yoe = (doe - doe / 1460 + doe / 36524 - doe / 146096) / 365 in
    of_day_of_year (yoe + era * 400) (doe - (365 * yoe + yoe / 4 - yoe / 100))

-- The date of a day counted from 0000-03-01.
unfoldable pub civil : ℕ → Date
civil z = of_day_of_era (z / 146097) (z % 146097)

-- Days from 0000-03-01 to a time: the zero time is day 306.
unfoldable pub day_number : Time → ℕ
day_number t = t / day_length + 306

-- `t.Date()`
unfoldable pub date : Time → Date
date t = civil (day_number t)

-- `time.Date(y, m, d, 0, 0, 0, 0, time.UTC)`, for a month in range.
unfoldable pub midnight : ℕ → ℕ → ℕ → Time
midnight y m d = (days_from_march y m d - 306) * day_length

-- The date of year `y`, month `m` and day `d` where the month may be one out of range at either
-- end: 0 is the December before, and 13 the January after.
unfoldable pub normal_date : ℕ → ℕ → ℕ → Date
normal_date y m d =
    if m == 0
    then civil (days_from_march (y - 1) 12 d)
    else if leb m 12
    then civil (days_from_march y m d)
    else civil (days_from_march (y + 1) (m - 12) d)

-- `t.AddDate(0, 1, 0).Date()`: a day that the next month lacks counts on into the month after it.
unfoldable pub next_month_date : Time → Date
next_month_date t = let now = date t in normal_date now.year (now.month + 1) now.day

-- `t.AddDate(0, -1, 0).Date()`
unfoldable pub prev_month_date : Time → Date
prev_month_date t = let now = date t in normal_date now.year (now.month - 1) now.day

-- `t.AddDate(0, 0, 1).Date()`
unfoldable pub next_day_date : Time → Date
next_day_date t = let now = date t in normal_date now.year now.month (now.day + 1)

pub record Week : Type 0 where
  pub week_year : ℕ
  pub week : ℕ

-- `t.ISOWeek()`: the year and the number of the week's Thursday. The zero time is a Monday.
unfoldable pub iso_week : Time → Week
iso_week t =
    let n = t / day_length in
    let thursday = n - n % 7 + 3 + 306 in
    let y = (civil thursday).year in
    record { week_year = y; week = (thursday - days_from_march y 1 1) / 7 + 1 }

-- Two dates agree, field by field.
abbrev pub same_month : Date → Date → Bool
same_month a b = (a.year == b.year) && (a.month == b.month)

abbrev pub same_day : Date → Date → Bool
same_day a b = (a.year == b.year) && (a.month == b.month) && (a.day == b.day)

abbrev pub same_week : Week → Week → Bool
same_week a b = (a.week_year == b.week_year) && (a.week == b.week)
