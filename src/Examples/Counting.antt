-- ===== src/Examples/Counting.antt =====
-- Counters, addresses and dates.
use keydesk.Counters.Totals.{NotYearApart}
use keydesk.Prelude.{◌↔◌, ◌⊎◌, ◌≤◌, ◌%◌}
use keydesk.Kdlib.Reset.{next_monthly_reset_on-date, following_year, following_month}
use keydesk.Kdlib.Net.Range.{offset, random_addr_ipv4-offset}
use keydesk.Kdlib.Blur.{blur_ipv4_addr, blur_ipv4_addr-differs}
use keydesk.Kdlib.Net.{random_addr_ipv4, masked}
use keydesk.Storage.Types.{Prefix, ip4}
use keydesk.Kdlib.{next_monthly_reset_on}
use keydesk.Counters.Totals.{
  Sample, run_counters, sum_rx, IsNested, inc_date_switch_related-IsNested, sum_tx,
  monthly-year_apart, total-run_counters,
}
use keydesk.Counters.Periods.{is_lost, prev_day-next_day}
use keydesk.Counters.{DateSummaryNetCounters, inc_date_switch_related, no_traffic, u64}
use keydesk.Clock.{
  Time, date, day_length, days_from_march, civil, of_day_of_era, of_day_of_year, day_number,
}
use keydesk.Prelude.{
  ◌%◌, ◌*◌, ◌+◌, ◌-◌, ◌<◌, List, [], ◌^◌, arith, if◌then◌else◌, refl, true, ℕ, ◌∷◌, ◌≡◌, ◌≤◌, ◌≢◌,
}

-- 0000-03-01 is day 0: 30 January 2024, 31 January 2024 at noon, and 1 February 2024.
abbrev noon_of : ℕ → Time
noon_of day = (day - 306) * day_length + 12 * 3600 * 1000000000

abbrev january_31 : Time
january_31 = noon_of (days_from_march 2024 1 31)

abbrev february_1 : Time
february_1 = noon_of (days_from_march 2024 2 1)

abbrev counted : DateSummaryNetCounters
counted = record {
  ver = 1;
  update = january_31;
  total = record { rx = 90; tx = 9 };
  yearly = record { rx = 40; tx = 4 };
  monthly = record { rx = 40; tx = 4 };
  weekly = record { rx = 30; tx = 3 };
  daily = record { rx = 20; tx = 2 };
  prev_day = record { rx = 10; tx = 1 };
}

prev_day_example :
    ((inc_date_switch_related february_1 5 6 counted).prev_day
      ≡ (if is_lost (date january_31) then no_traffic else counted.daily))
    × ((inc_date_switch_related february_1 5 6 counted).daily ≡ record { rx = 5; tx = 6 })
unfolding day_number days_from_march
prev_day_example = prev_day-next_day february_1 5 6 counted (omega arith) refl

january_31-is_lost : is_lost (date january_31) ≡ true
unfolding is_lost date civil of_day_of_era of_day_of_year day_number days_from_march
january_31-is_lost = refl

abbrev two_samples : List Sample
two_samples =
    record { now = january_31; rx = 1; tx = 2 } ∷ record { now = february_1; rx = 3; tx = 4 } ∷ []

total_example :
    ((run_counters two_samples counted).total.rx ≡ (90 + sum_rx two_samples) % u64)
    × ((run_counters two_samples counted).total.tx ≡ (9 + sum_tx two_samples) % u64)
unfolding days_from_march
total_example =
    total-run_counters two_samples counted (omega arith) (omega arith)
      (omega arith, (omega arith, tt))

abbrev a_year_later : Time
a_year_later = noon_of (days_from_march 2025 1 31)

counted-IsNested : IsNested (λ x. x.rx) counted × IsNested (λ x. x.tx) counted
counted-IsNested = (
  record {
    daily_monthly = omega arith;
    daily_weekly = omega arith;
    monthly_yearly = omega arith;
    weekly_total = omega arith;
    yearly_total = omega arith;
  },
  record {
    daily_monthly = omega arith;
    daily_weekly = omega arith;
    monthly_yearly = omega arith;
    weekly_total = omega arith;
    yearly_total = omega arith;
  },
)

inc_date_switch_related-IsNested_example :
    IsNested (λ x. x.rx) (inc_date_switch_related february_1 5 6 counted)
    × IsNested (λ x. x.tx) (inc_date_switch_related february_1 5 6 counted)
unfolding date civil of_day_of_era of_day_of_year day_number days_from_march
inc_date_switch_related-IsNested_example =
    inc_date_switch_related-IsNested february_1 5 6 counted counted-IsNested.0 counted-IsNested.1
      (omega arith) (omega arith) (λ p. omega (arith, p.0))

year_apart_example :
    (((inc_date_switch_related a_year_later 5 6 counted).monthly.rx
        ≤ (inc_date_switch_related a_year_later 5 6 counted).yearly.rx)
      × ((inc_date_switch_related a_year_later 5 6 counted).monthly.tx
          ≤ (inc_date_switch_related a_year_later 5 6 counted).yearly.tx))
    ↔ (NotYearApart counted.update a_year_later
        ⊎ ((counted.monthly.rx ≡ 0) × (counted.monthly.tx ≡ 0)))
unfolding days_from_march
year_apart_example =
    monthly-year_apart a_year_later 5 6 counted counted-IsNested.0 counted-IsNested.1 (omega arith)
      (omega arith) (omega arith) (omega arith)

reset_example :
    (january_31 < next_monthly_reset_on january_31)
    × (next_monthly_reset_on january_31 ≤ january_31 + 31 * day_length)
    × (date (next_monthly_reset_on january_31) ≡ record {
      year = following_year (date january_31).year (date january_31).month;
      month = following_month (date january_31).month;
      day = 1;
    })
    × (next_monthly_reset_on january_31 % day_length ≡ 0)
reset_example = next_monthly_reset_on-date january_31

abbrev cgnat : Prefix
cgnat = record { base = 0x64400000; bits = 24 }

offset_example :
    (random_addr_ipv4 cgnat 1000 ≡ ip4 (masked 32 cgnat + offset cgnat 1000))
    × (offset cgnat 1000 + 1 < 2 ^ (32 - cgnat.bits))
offset_example = random_addr_ipv4-offset cgnat 1000 (omega arith)

blur_example : blur_ipv4_addr 0x64400007 24 0xdeadbeef ≢ blur_ipv4_addr 0x64400009 24 0xdeadbeef
blur_example = blur_ipv4_addr-differs 0x64400007 0x64400009 24 0xdeadbeef refl (omega arith)
