-- ===== src/Counters.antt =====
-- keydesk/storage/types.go and stats.go: traffic counters of a day, a week, a month and a year.
-- A counter is a uint64, so every addition wraps at 2 ^ 64.
pub mod Totals
pub mod Periods
use keydesk.Prelude.{ℕ, ◌+◌, ◌%◌, ◌^◌, Bool, not, ltb, ◌==◌, if◌then◌else◌, ◌&&◌}
use keydesk.Clock.{
  Time, Date, Week, is_zero, before, date, iso_week, next_month_date, next_day_date, same_day,
  same_month, same_week,
}

abbrev pub u64 : ℕ
u64 = 2 ^ 64

pub record RxTx : Type 0 where
  pub rx : ℕ
  pub tx : ℕ

abbrev pub no_traffic : RxTx
no_traffic = record { rx = 0; tx = 0 }

-- `x.Inc(rx, tx)`
unfoldable pub inc : RxTx → ℕ → ℕ → RxTx
inc x rx tx = record { rx = (x.rx + rx) % u64; tx = (x.tx + tx) % u64 }

-- `x.Reset(rx, tx)`
unfoldable pub reset : RxTx → ℕ → ℕ → RxTx
reset x rx tx = record { rx = rx; tx = tx }

pub record DateSummaryNetCounters : Type 0 where
  pub ver : ℕ
  pub update : Time
  pub total : RxTx
  pub yearly : RxTx
  pub monthly : RxTx
  pub weekly : RxTx
  pub daily : RxTx
  pub prev_day : RxTx

-- The counters after the first statistics of all: everything but the total starts at 0.
first_update : DateSummaryNetCounters → DateSummaryNetCounters
first_update c = record c {
  prev_day = reset c.prev_day 0 0;
  daily = reset c.daily 0 0;
  weekly = reset c.weekly 0 0;
  monthly = reset c.monthly 0 0;
  yearly = reset c.yearly 0 0;
}

-- A second time on the same day: every period takes the traffic.
same_day_update : ℕ → ℕ → DateSummaryNetCounters → DateSummaryNetCounters
same_day_update rx tx c = record c {
  daily = inc c.daily rx tx;
  weekly = inc c.weekly rx tx;
  monthly = inc c.monthly rx tx;
  yearly = inc c.yearly rx tx;
}

-- `if prevYear != year`
year_change : ℕ → ℕ → DateSummaryNetCounters → DateSummaryNetCounters
year_change prev_year year c =
    if prev_year == year
    then c
    else if prev_year + 1 == year
    then record c { yearly = reset c.yearly 0 0 }
    else record c {
      yearly = reset c.yearly 0 0;
      monthly = reset c.monthly 0 0;
      weekly = reset c.weekly 0 0;
      daily = reset c.daily 0 0;
      prev_day = reset c.prev_day 0 0;
    }

year_inc : ℕ → ℕ → DateSummaryNetCounters → DateSummaryNetCounters
year_inc rx tx c = record c { yearly = inc c.yearly rx tx }

-- `if prevWeekYear != weekYear || prevWeek != week`, and the increment behind it
week_change : Bool → ℕ → ℕ → DateSummaryNetCounters → DateSummaryNetCounters
week_change same rx tx c = record c {
  weekly = inc (if same then c.weekly else reset c.weekly 0 0) rx tx;
}

-- `if prevMonth != month`: `adjacent` says that a month after the last update is in this month.
month_change : Bool → Bool → DateSummaryNetCounters → DateSummaryNetCounters
month_change same adjacent c =
    if same then c else if adjacent then record c { monthly = reset c.monthly 0 0 } else record c {
      monthly = reset c.monthly 0 0;
      daily = reset c.daily 0 0;
      prev_day = reset c.prev_day 0 0;
    }

month_inc : ℕ → ℕ → DateSummaryNetCounters → DateSummaryNetCounters
month_inc rx tx c = record c { monthly = inc c.monthly rx tx }

-- `if prevDay != day`: `adjacent` says that the day after the last update is today.
day_change : Bool → Bool → DateSummaryNetCounters → DateSummaryNetCounters
day_change same adjacent c = if same then c else record c {
  prev_day = (if adjacent then c.daily else reset c.prev_day 0 0);
  daily = reset c.daily 0 0;
}

day_reset : ℕ → ℕ → DateSummaryNetCounters → DateSummaryNetCounters
day_reset rx tx c = record c { daily = reset c.daily rx tx }

-- What follows the test for the same day. `last` is the time of the last update.
later_day_update : Time → Time → ℕ → ℕ → DateSummaryNetCounters → DateSummaryNetCounters
later_day_update last now rx tx c =
    let prev = date last in
    let today = date now in
    let yearly = year_inc rx tx (year_change prev.year today.year c) in
    let weekly = week_change (same_week (iso_week last) (iso_week now)) rx tx yearly in
    let monthly =
      month_inc rx tx (
        month_change (prev.month == today.month) (same_month (next_month_date last) today)
          weekly) in
    day_reset rx tx
      (day_change (prev.day == today.day) (same_day (next_day_date last) today) monthly)

-- `incDateSwitchRelated`; the deferred assignment of `Update` is the last one.
unfoldable pub inc_date_switch_related :
    Time → ℕ → ℕ → DateSummaryNetCounters → DateSummaryNetCounters
unfolding inc reset first_update same_day_update year_change year_inc week_change month_change
    month_inc day_change day_reset later_day_update
inc_date_switch_related now rx tx counters =
    if before now counters.update
    then counters
    else (let last = counters.update in
        let c = record counters { update = now; total = inc counters.total rx tx } in
        if is_zero last
        then first_update c
        else if same_day (date last) (date now)
        then same_day_update rx tx c
        else later_day_update last now rx tx c)
