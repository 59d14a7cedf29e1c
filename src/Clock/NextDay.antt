-- ===== src/Clock/NextDay.antt =====
-- The day after a day, in the three shapes that it has.
use keydesk.Prelude.{◌+◌, ◌<◌, ap, arith, ℕ, ◌∙◌, ◌≡◌}
use native.Mathlib.Decide.{dec_lt}
use keydesk.Clock.{Time, Date, days_from_march, normal_date, next_day_date, civil, date}
use keydesk.Clock.Civil.{IsDate, days_in_month, civil-days_from_march}
use keydesk.Clock.Months.{date-IsDate, normal_date_mid, days_from_march-carry}

-- The three shapes of the day after a date.
pub data NextDay (y m d : ℕ) (n : Date) : Type 0 where
  within_month :
      d < days_in_month y m → n ≡ record { year = y; month = m; day = d + 1 } → NextDay y m d n
  next_month :
      m < 12
      → d ≡ days_in_month y m
      → n ≡ record { year = y; month = m + 1; day = 1 }
      → NextDay y m d n
  next_year : m ≡ 12 → d ≡ 31 → n ≡ record { year = y + 1; month = 1; day = 1 } → NextDay y m d n

next_day_inside :
    (y m d : ℕ)
    → IsDate y m d
    → d < days_in_month y m
    → normal_date y m (d + 1) ≡ record { year = y; month = m; day = d + 1 }
next_day_inside y m d v h =
    normal_date_mid y m (d + 1) v.month_pos v.month_le
    ∙ civil-days_from_march y m (d + 1) (record {
      year_pos = v.year_pos;
      month_pos = v.month_pos;
      month_le = v.month_le;
      day_pos = omega arith;
      day_le = omega arith;
    })

next_day_month :
    (y m d : ℕ)
    → IsDate y m d
    → m < 12
    → d ≡ days_in_month y m
    → normal_date y m (d + 1) ≡ record { year = y; month = m + 1; day = 1 }
next_day_month y m d v h e =
    normal_date_mid y m (d + 1) v.month_pos v.month_le
    ∙ days_path
    ∙ civil-days_from_march y (m + 1) 1 (record {
      year_pos = v.year_pos;
      month_pos = omega arith;
      month_le = omega arith;
      day_pos = omega arith;
      day_le = ground arith;
    })
  where
    days_path : civil (days_from_march y m (d + 1)) ≡ civil (days_from_march y (m + 1) 1)
    days_path = ap civil (
        days_from_march-carry y m (d + 1) v.year_pos v.month_pos (omega arith) (omega arith)
        ∙ ap (days_from_march y (m + 1)) (omega arith))

days_from_march-december : (y : ℕ) → days_from_march y 12 32 ≡ days_from_march (y + 1) 1 1
unfolding days_from_march
days_from_march-december y = omega arith

next_day_year : (y : ℕ) → normal_date y 12 32 ≡ record { year = y + 1; month = 1; day = 1 }
next_day_year y =
    normal_date_mid y 12 32 (omega arith) (omega arith)
    ∙ ap civil (days_from_march-december y)
    ∙ civil-days_from_march (y + 1) 1 1 (record {
      year_pos = omega arith;
      month_pos = omega arith;
      month_le = omega arith;
      day_pos = omega arith;
      day_le = omega arith;
    })

NextDay-of : (y m d : ℕ) → IsDate y m d → NextDay y m d (normal_date y m (d + 1))
NextDay-of y m d v = elim (dec_lt d (days_in_month y m)) [
  | yes h ↦ within_month h (next_day_inside y m d v h)
  | no h ↦ elim (dec_lt m 12) [
    | yes k ↦
        next_month k (omega (arith, v.day_le)) (next_day_month y m d v k (omega (arith, v.day_le)))
    | no k ↦
        let e : m ≡ 12 = omega (arith, v.month_le) in
        let f : d ≡ 31 = ground arith in next_year e f (rw (e, f) (next_day_year y))
  ]
]

pub next_day_date-NextDay :
    (t : Time) → NextDay (date t).year (date t).month (date t).day (next_day_date t)
unfolding next_day_date
next_day_date-NextDay t = NextDay-of _ _ _ (date-IsDate t)
