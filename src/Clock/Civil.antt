-- ===== src/Clock/Civil.antt =====
-- The calendar of Go's time package: dates and day numbers are inverse to each other.
use keydesk.Prelude.{
  ℕ, ◌+◌, ◌-◌, ◌*◌, ◌/◌, ◌%◌, ◌≤◌, ◌<◌, ◌≡◌, ◌⊎◌, inl, inr, Bool, true, ◌==◌, ◌||◌, ◌&&◌, not,
  if◌then◌else◌, arith, ◌∙◌, ap, Bool-cases, leb→le, refl, subst, sym,
}
use keydesk.Clock.{civil, of_day_of_era, of_day_of_year, ltb, days_from_march, leb, year_start}

abbrev pub is_leap : ℕ → Bool
is_leap y = (y % 4 == 0) && (not (y % 100 == 0) || (y % 400 == 0))

abbrev pub has_30_days : ℕ → Bool
has_30_days m = (m == 11) || (m == 9) || (m == 6) || (m == 4)

abbrev pub days_in_month : ℕ → ℕ → ℕ
days_in_month y m =
    if has_30_days m then 30 else if m == 2 then (if is_leap y then 29 else 28) else 31

-- A date of the calendar, from the year 1 on.
pub record IsDate (y m d : ℕ) : Type 0 where
  pub year_pos : 1 ≤ y
  pub month_pos : 1 ≤ m
  pub month_le : m ≤ 12
  pub day_pos : 1 ≤ d
  pub day_le : d ≤ days_in_month y m

-- The year of the era, from a day of the era.
year_of_era :
    (yoe doy : ℕ)
    → yoe < 400
    → (doy < 365) ⊎ ((doy ≡ 365) × (is_leap (yoe + 1) ≡ true))
    → let doe = 365 * yoe + yoe / 4 - yoe / 100 + doy in
      (doe - doe / 1460 + doe / 36524 - doe / 146096) / 365 ≡ yoe
year_of_era yoe doy h (inl k) = omega arith
year_of_era yoe doy h (inr (e, l)) = ground arith

doe_lt :
    (yoe doy : ℕ)
    → yoe < 400
    → (doy < 365) ⊎ ((doy ≡ 365) × (is_leap (yoe + 1) ≡ true))
    → 365 * yoe + yoe / 4 - yoe / 100 + doy < 146097
doe_lt yoe doy h (inl k) = omega arith
doe_lt yoe doy h (inr (e, l)) = ground arith

month_of_year :
    (mp d : ℕ)
    → mp < 12
    → (153 * mp + 2) / 5 + d < (153 * (mp + 1) + 2) / 5
    → (5 * ((153 * mp + 2) / 5 + d) + 2) / 153 ≡ mp
month_of_year mp d h k = omega arith

era_split :
    (y doy : ℕ)
    → year_start y + doy ≡ y / 400 * 146097 + (365 * (y % 400) + y % 400 / 4 - y % 400 / 100 + doy)
era_split y doy = omega arith

era_of : (y doe : ℕ) → doe < 146097 → (y / 400 * 146097 + doe) / 146097 ≡ y / 400
era_of y doe h = omega arith

doe_of : (y doe : ℕ) → doe < 146097 → (y / 400 * 146097 + doe) % 146097 ≡ doe
doe_of y doe h = omega arith

is_leap-mod : (y : ℕ) → is_leap (y % 400 + 1) ≡ is_leap (y + 1)
is_leap-mod y = ground arith

-- A day that the year from the first of March has.
abbrev IsDay : ℕ → ℕ → Type 0
IsDay y doy = (doy < 365) ⊎ ((doy ≡ 365) × (is_leap (y + 1) ≡ true))

IsDay-mod : (y doy : ℕ) → IsDay y doy → IsDay (y % 400) doy
IsDay-mod y doy (inl h) = inl h
IsDay-mod y doy (inr (e, l)) = inr (e, is_leap-mod y ∙ l)

day_of_era-day_of_year :
    (era yoe doy : ℕ)
    → yoe < 400
    → IsDay yoe doy
    → of_day_of_era era (365 * yoe + yoe / 4 - yoe / 100 + doy)
      ≡ of_day_of_year (yoe + era * 400) doy
unfolding of_day_of_era
day_of_era-day_of_year era yoe doy h k =
    rw (year_of_era yoe doy h k) (ap (of_day_of_year (yoe + era * 400)) (omega arith))

civil-day_of_year : (y doy : ℕ) → IsDay y doy → civil (year_start y + doy) ≡ of_day_of_year y doy
unfolding civil
civil-day_of_year y doy k =
    let k' : IsDay (y % 400) doy = IsDay-mod y doy k in
    let below = doe_lt (y % 400) doy (omega arith) k' in
    rw (era_split y doy, era_of y _ below, doe_of y _ below)
      (day_of_era-day_of_year (y / 400) (y % 400) doy (omega arith) k'
        ∙ ap (λ (n : ℕ). of_day_of_year n doy) (omega arith))

-- A day by its month, counted from March, and its place in it.
day_of_year-month :
    (y mp d m y' : ℕ)
    → mp < 12
    → (153 * mp + 2) / 5 + d < (153 * (mp + 1) + 2) / 5
    → m ≡ (if ltb mp 10 then mp + 3 else mp - 9)
    → y' ≡ (if leb m 2 then y + 1 else y)
    → of_day_of_year y ((153 * mp + 2) / 5 + d) ≡ record { year = y'; month = m; day = d + 1 }
unfolding of_day_of_year
day_of_year-month y mp d m y' h k em ey = rw (month_of_year mp d h k, em, ey) (ground arith)

month_room :
    (y m d mp : ℕ)
    → IsDate y m d
    → (mp ≡ m - 3) × (3 ≤ m) ⊎ (mp ≡ m + 9) × (m ≤ 2)
    → (153 * mp + 2) / 5 + (d - 1) < (153 * (mp + 1) + 2) / 5
month_room y m d mp v h = ground arith

-- `Y` is the year that the date has when the year begins in March.
march-IsDay :
    (y m d mp Y : ℕ)
    → IsDate y m d
    → (mp ≡ m - 3) × (3 ≤ m) × (Y ≡ y) ⊎ (mp ≡ m + 9) × (m ≤ 2) × (Y ≡ y - 1)
    → IsDay Y ((153 * mp + 2) / 5 + (d - 1))
march-IsDay y m d mp Y v (inl (e, l, f)) = inl (omega (arith, month_room y m d mp v (inl (e, l))))
march-IsDay y m d mp Y v (inr (e, l, f)) =
    let g : Y + 1 ≡ y = omega arith in rw g (ground (arith, month_room y m d mp v (inr (e, l))))

civil-march :
    (y m d mp Y : ℕ)
    → IsDate y m d
    → (mp ≡ m - 3) × (3 ≤ m) × (Y ≡ y) ⊎ (mp ≡ m + 9) × (m ≤ 2) × (Y ≡ y - 1)
    → civil (year_start Y + ((153 * mp + 2) / 5 + (d - 1)))
      ≡ record { year = y; month = m; day = d }
civil-march y m d mp Y v h =
    let room : (153 * mp + 2) / 5 + (d - 1) < (153 * (mp + 1) + 2) / 5 =
      ground (arith, month_room y m d mp v) in
    civil-day_of_year Y _ (march-IsDay y m d mp Y v h)
    ∙ day_of_year-month Y mp (d - 1) m y (omega arith) room (ground arith) (ground arith)
    ∙ ap (λ (n : ℕ). record { year = y; month = m; day = n }) (omega arith)

-- The date of a calendar date's day number is that date.
pub civil-days_from_march :
    (y m d : ℕ)
    → IsDate y m d
    → civil (days_from_march y m d) ≡ record { year = y; month = m; day = d }
unfolding days_from_march
civil-days_from_march y m d v = elim (Bool-cases (leb m 2)) [
  | inl early ↦ rw early (civil-march y m d (m + 9) (y - 1) v (inr (refl, leb→le m 2 early, refl)))
  | inr late ↦ rw late (civil-march y m d (m - 3) y v (inl (refl, ground arith, refl)))
]

-- The other way round: what year a day of the era falls in.
abbrev Year : ℕ → ℕ → Type 0
Year doe yoe = (doe < 146097) × (yoe ≡ (doe - doe / 1460 + doe / 36524 - doe / 146096) / 365)

Year-bounds :
    (doe yoe : ℕ)
    → Year doe yoe
    → (yoe < 400)
      × (365 * yoe + yoe / 4 - yoe / 100 ≤ doe)
      × (doe ≤ 365 * yoe + yoe / 4 - yoe / 100 + 365)
Year-bounds doe yoe (h, e) = omega arith

last_day_fourth :
    (doe yoe : ℕ) → Year doe yoe → doe ≡ 365 * yoe + yoe / 4 - yoe / 100 + 365 → (yoe + 1) % 4 ≡ 0
last_day_fourth doe yoe (h, e) l = omega arith

last_day_century :
    (doe yoe : ℕ)
    → Year doe yoe
    → doe ≡ 365 * yoe + yoe / 4 - yoe / 100 + 365
    → (yoe + 1) % 100 ≡ 0
    → yoe ≡ 399
last_day_century doe yoe (h, e) l k = omega arith

Year-IsDay : (doe yoe : ℕ) → Year doe yoe → IsDay yoe (doe - (365 * yoe + yoe / 4 - yoe / 100))
Year-IsDay doe yoe y =
    ground (arith, Year-bounds doe yoe y, last_day_fourth doe yoe y, last_day_century doe yoe y)

era_join :
    (z yoe : ℕ)
    → yoe < 400
    → 365 * yoe + yoe / 4 - yoe / 100 ≤ z % 146097
    → z ≡ year_start (yoe + z / 146097 * 400) + (z % 146097 - (365 * yoe + yoe / 4 - yoe / 100))
era_join z yoe h k = omega arith

IsDay-era : (era yoe doy : ℕ) → IsDay yoe doy → IsDay (yoe + era * 400) doy
IsDay-era era yoe doy (inl h) = inl h
IsDay-era era yoe doy (inr h) = inr (h.0, ground arith)

-- A day number is the day in a year that begins in March.
IsDay-of_civil :
    (z : ℕ)
    → (y : ℕ) × (doy : ℕ) × (z ≡ year_start y + doy)
      × IsDay y doy
      × (civil z ≡ of_day_of_year y doy)
unfolding civil of_day_of_era
IsDay-of_civil z =
    let doe = z % 146097 in
    let yoe = (doe - doe / 1460 + doe / 36524 - doe / 146096) / 365 in
    let b = Year-bounds doe yoe (omega arith, refl) in
    let k = Year-IsDay doe yoe (omega arith, refl) in
    (
      yoe + z / 146097 * 400,
      doe - (365 * yoe + yoe / 4 - yoe / 100),
      era_join z yoe b.0 b.1,
      IsDay-era (z / 146097) yoe (doe - (365 * yoe + yoe / 4 - yoe / 100)) k,
      refl,
    )

-- What month a day of the year falls in.
month_bounds :
    (doy mp : ℕ)
    → doy ≤ 365
    → mp ≡ (5 * doy + 2) / 153
    → (mp < 12) × ((153 * mp + 2) / 5 ≤ doy) × (doy < (153 * (mp + 1) + 2) / 5)
month_bounds doy mp h e = omega arith

IsDay-le : (y doy : ℕ) → IsDay y doy → doy ≤ 365
IsDay-le y doy h = ground arith

day_room :
    (y doy mp : ℕ)
    → IsDay y doy
    → mp ≡ (5 * doy + 2) / 153
    → doy - (153 * mp + 2) / 5 + 1
      ≤ days_in_month
          (if leb (if ltb mp 10 then mp + 3 else mp - 9) 2 then y + 1 else y)
          (if ltb mp 10 then mp + 3 else mp - 9)
day_room y doy mp h e = ground (arith, month_bounds doy mp (IsDay-le y doy h) e)

of_day_of_year-IsDate :
    (y doy : ℕ)
    → IsDay y doy
    → 306 ≤ year_start y + doy
    → let t = of_day_of_year y doy in IsDate t.year t.month t.day
unfolding of_day_of_year
of_day_of_year-IsDate y doy h k =
    let b = month_bounds doy ((5 * doy + 2) / 153) (IsDay-le y doy h) refl in
    record {
      year_pos = ground arith;
      month_pos = ground arith;
      month_le = ground arith;
      day_pos = omega arith;
      day_le = day_room y doy ((5 * doy + 2) / 153) h refl;
    }

days_from_march-day_of_year :
    (y doy : ℕ)
    → IsDay y doy
    → let t = of_day_of_year y doy in days_from_march t.year t.month t.day ≡ year_start y + doy
unfolding of_day_of_year days_from_march
days_from_march-day_of_year y doy h =
    let b = month_bounds doy ((5 * doy + 2) / 153) (IsDay-le y doy h) refl in ground arith

-- From the zero time on, the date of a day is a date of the calendar.
pub civil-IsDate : (z : ℕ) → 306 ≤ z → IsDate (civil z).year (civil z).month (civil z).day
civil-IsDate z h =
    let (y, doy, e, k, f) = IsDay-of_civil z in
    rw f (of_day_of_year-IsDate y doy k (subst (λ (n : ℕ). 306 ≤ n) e h))

-- The number of a day's date is that day.
pub days_from_march-civil :
    (z : ℕ) → days_from_march (civil z).year (civil z).month (civil z).day ≡ z
days_from_march-civil z =
    let (y, doy, e, k, f) = IsDay-of_civil z in rw f (days_from_march-day_of_year y doy k ∙ sym e)
