-- ===== src/Kdlib/Reset.antt =====
-- The monthly reset is on the first of the next month, at midnight.
use keydesk.Prelude.{
  ℕ, ◌≤◌, if◌then◌else◌, ◌≡◌, ◌<◌, ◌+◌, arith, ◌==◌, ◌-◌, ◌*◌, ap, Bool-cases, ◌∙◌, inl, sym, inr,
  ==_iff, ◌/◌, refl, ◌%◌,
}
use keydesk.Clock.{Time, date, midnight, day_number, day_length, days_from_march, civil}
use keydesk.Clock.Civil.{IsDate, days_in_month, civil-days_from_march}
use keydesk.Clock.Months.{date-IsDate, days_from_march-date, days_from_march-carry}
use keydesk.Kdlib.{next_monthly_reset_on}

days_from_march-add :
    (y m d k : ℕ) → 1 ≤ d → d ≤ k → days_from_march y m k ≡ days_from_march y m d + (k - d)
unfolding days_from_march
days_from_march-add y m d k h l = omega arith

days_in_month-le : (y m : ℕ) → days_in_month y m ≤ 31
days_in_month-le y m = ground arith

-- The first of the month that follows, for a date of the calendar.
abbrev pub following_year : ℕ → ℕ → ℕ
following_year y m = if m == 12 then y + 1 else y

abbrev pub following_month : ℕ → ℕ
following_month m = if m == 12 then 1 else m + 1

first_of_next-december :
    (y d : ℕ) → 1 ≤ d → d ≤ 31 → days_from_march (y + 1) 1 1 ≡ days_from_march y 12 d + (32 - d)
unfolding days_from_march
first_of_next-december y d h k = omega arith

first_of_next-early :
    (y m d : ℕ)
    → IsDate y m d
    → m ≤ 11
    → days_from_march y (m + 1) 1 ≡ days_from_march y m d + (days_in_month y m + 1 - d)
first_of_next-early y m d v h =
    let carry =
      days_from_march-carry y m (days_in_month y m + 1) v.year_pos v.month_pos h (omega arith) in
    ap (days_from_march y (m + 1)) (omega arith)
    ∙ sym carry
    ∙ days_from_march-add y m d (days_in_month y m + 1) v.day_pos (omega (arith, v.day_le))

december :
    (y m d : ℕ)
    → IsDate y m d
    → m ≡ 12
    → days_from_march (y + 1) 1 1 ≡ days_from_march y 12 d + (32 - d)
december y m d v e =
    first_of_next-december y d v.day_pos (omega (arith, v.day_le, days_in_month-le y m))

first_of_next :
    (y m d : ℕ)
    → IsDate y m d
    → days_from_march (following_year y m) (following_month m) 1
      ≡ days_from_march y m d + (days_in_month y m + 1 - d)
first_of_next y m d v = elim (Bool-cases (m == 12)) [
  | inl e ↦ rw ((==_iff m 12).0 e) (december y m d v ((==_iff m 12).0 e))
  | inr e ↦ rw e (first_of_next-early y m d v (ground arith))
]

reset-midnight :
    (now : Time)
    → next_monthly_reset_on now
      ≡ midnight
          (following_year (date now).year (date now).month)
          (following_month (date now).month)
          1
unfolding next_monthly_reset_on
reset-midnight now = ground arith

next-IsDate : (y m d : ℕ) → IsDate y m d → IsDate (following_year y m) (following_month m) 1
next-IsDate y m d v = ground arith

date-civil : (t : Time) → date t ≡ civil (day_number t)
unfolding date
date-civil t = refl

-- A midnight that is k days after the day of `now`.
midnight_later :
    (now f k : ℕ)
    → 1 ≤ k
    → k ≤ 31
    → f ≡ now / day_length + 306 + k
    → (now < (f - 306) * day_length)
      × ((f - 306) * day_length ≤ now + 31 * day_length)
      × ((f - 306) * day_length / day_length + 306 ≡ f)
midnight_later now f k h l e = omega arith

-- The reset is later than now, by 31 days at most, and is the midnight at the beginning of the first of
-- the month that follows the month of now.
pub next_monthly_reset_on-date :
    (now : Time)
    → (now < next_monthly_reset_on now)
      × (next_monthly_reset_on now ≤ now + 31 * day_length)
      × (date (next_monthly_reset_on now) ≡ record {
        year = following_year (date now).year (date now).month;
        month = following_month (date now).month;
        day = 1;
      })
      × (next_monthly_reset_on now % day_length ≡ 0)
unfolding midnight day_number
next_monthly_reset_on-date now =
    let today = date now in
    let v = date-IsDate now in
    let k = days_in_month today.year today.month + 1 - today.day in
    let e =
      first_of_next today.year today.month today.day v
      ∙ ap (λ (n : ℕ). n + k) (days_from_march-date now) in
    let later =
      midnight_later now
        (days_from_march (following_year today.year today.month) (following_month today.month) 1) k
        (omega (arith, v.day_le))
        (omega (arith, days_in_month-le today.year today.month, v.day_pos)) e in
    rw reset-midnight (
      later.0,
      later.1,
      date-civil _
          ∙ ap civil later.2
          ∙ civil-days_from_march _ _ 1 (next-IsDate today.year today.month today.day v),
      omega arith,
    )
