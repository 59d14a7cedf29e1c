-- ===== src/Counters/Totals.antt =====
-- How the total of the counters grows, and how the periods compare with each other.
use keydesk.Prelude.{
  ◌↔◌, ◌⊎◌, inl, inr, Bool-cases, ◌&&◌, ◌==◌, ℕ, List, ◌≤◌, ◌+◌, ◌∷◌, ◌≡◌, ◌%◌, ◌<◌, arith, [], ap,
  ◌≢◌,
}
use keydesk.Clock.{Time, date}
use keydesk.Counters.{RxTx, DateSummaryNetCounters, inc, inc_date_switch_related, u64, no_traffic}

-- A sample of the statistics: when it was taken, and what was received and sent since the one before.
pub record Sample : Type 0 where
  pub now : Time
  pub rx : ℕ
  pub tx : ℕ

unfoldable pub run_counters : List Sample → DateSummaryNetCounters → DateSummaryNetCounters
run_counters [] c = c
run_counters (s ∷ ss) c = run_counters ss (inc_date_switch_related s.now s.rx s.tx c)

-- The samples come in the order of time, none before `from`.
abbrev pub InOrder : Time → List Sample → Type 0
InOrder from [] = Unit
InOrder from (s ∷ ss) = (from ≤ s.now) × InOrder s.now ss

abbrev pub sum_rx : List Sample → ℕ
sum_rx [] = 0
sum_rx (s ∷ ss) = s.rx + sum_rx ss

abbrev pub sum_tx : List Sample → ℕ
sum_tx [] = 0
sum_tx (s ∷ ss) = s.tx + sum_tx ss

pub total_step :
    (now : Time) (rx tx : ℕ) (c : DateSummaryNetCounters)
    → c.update ≤ now
    → ((inc_date_switch_related now rx tx c).total ≡ inc c.total rx tx)
      × ((inc_date_switch_related now rx tx c).update ≡ now)
unfolding inc_date_switch_related
total_step now rx tx c h = ground arith

-- Over samples in the order of time the total takes all the traffic of the samples, modulo 2 ^ 64.
pub total-run_counters :
    (ss : List Sample) (c : DateSummaryNetCounters)
    → c.total.rx < u64
    → c.total.tx < u64
    → InOrder c.update ss
    → ((run_counters ss c).total.rx ≡ (c.total.rx + sum_rx ss) % u64)
      × ((run_counters ss c).total.tx ≡ (c.total.tx + sum_tx ss) % u64)
unfolding run_counters inc
total-run_counters [] c h k o = omega arith
total-run_counters (s ∷ ss) c h k o =
    let c' = inc_date_switch_related s.now s.rx s.tx c in
    let (e, u) = total_step s.now s.rx s.tx c o.0 in
    let r : c'.total.rx ≡ (c.total.rx + s.rx) % u64 = ap (λ (x : RxTx). x.rx) e in
    let t : c'.total.tx ≡ (c.total.tx + s.tx) % u64 = ap (λ (x : RxTx). x.tx) e in
    let ih = total-run_counters ss c' (omega arith) (omega arith) (rw u o.1) in
    (omega arith, omega arith)

-- The day lies in the week and in the month, and the month in the year. A week may begin in the month
-- or the year before, so it is compared with the total only.
pub record IsNested (a : RxTx → ℕ) (c : DateSummaryNetCounters) : Type 0 where
  pub daily_monthly : a c.daily ≤ a c.monthly
  pub daily_weekly : a c.daily ≤ a c.weekly
  pub monthly_yearly : a c.monthly ≤ a c.yearly
  pub weekly_total : a c.weekly ≤ a c.total
  pub yearly_total : a c.yearly ≤ a c.total

-- The last update was not in this month of the year before.
abbrev pub NotYearApart : Time → Time → Type 0
NotYearApart last now =
    ((date last).year + 1 ≡ (date now).year) × ((date last).month ≡ (date now).month) → ⊥

inc_date-IsNested_rx :
    (now : Time) (rx tx : ℕ) (c : DateSummaryNetCounters)
    → IsNested (λ x. x.rx) c
    → c.total.rx + rx < u64
    → NotYearApart c.update now
    → IsNested (λ x. x.rx) (inc_date_switch_related now rx tx c)
unfolding inc_date_switch_related
inc_date-IsNested_rx now rx tx c v h k = ground arith

inc_date-IsNested_tx :
    (now : Time) (rx tx : ℕ) (c : DateSummaryNetCounters)
    → IsNested (λ x. x.tx) c
    → c.total.tx + tx < u64
    → NotYearApart c.update now
    → IsNested (λ x. x.tx) (inc_date_switch_related now rx tx c)
unfolding inc_date_switch_related
inc_date-IsNested_tx now rx tx c v h k = ground arith

-- Let the day hold no more than the week and the month, the month no more than the year, and the week
-- and the year no more than the total, in what was received and in what was sent. Where the total does
-- not overflow, an update that is not in the month of the last one a year later keeps all that. (The
-- week is compared with the total only, since it may begin in the month or the year before.)
pub inc_date_switch_related-IsNested :
    (now : Time) (rx tx : ℕ) (c : DateSummaryNetCounters)
    → IsNested (λ x. x.rx) c
    → IsNested (λ x. x.tx) c
    → c.total.rx + rx < u64
    → c.total.tx + tx < u64
    → NotYearApart c.update now
    → IsNested (λ x. x.rx) (inc_date_switch_related now rx tx c)
      × IsNested (λ x. x.tx) (inc_date_switch_related now rx tx c)
inc_date_switch_related-IsNested now rx tx c v w h k n =
    (inc_date-IsNested_rx now rx tx c v h n, inc_date-IsNested_tx now rx tx c w k n)

-- What an update makes of the month and of the year, in the month of the last update a year later.
year_apart_sums :
    (now : Time) (rx tx : ℕ) (c : DateSummaryNetCounters)
    → c.update ≤ now
    → c.update ≢ 0
    → (date c.update).year + 1 ≡ (date now).year
    → (date c.update).month ≡ (date now).month
    → ((inc_date_switch_related now rx tx c).monthly ≡ inc c.monthly rx tx)
      × ((inc_date_switch_related now rx tx c).yearly ≡ inc no_traffic rx tx)
unfolding inc_date_switch_related
year_apart_sums now rx tx c h z y m = ground arith

-- A month that is empty before such an update stays within its year.
empty_month :
    (now : Time) (rx tx : ℕ) (c : DateSummaryNetCounters)
    → c.update ≤ now
    → c.update ≢ 0
    → (date c.update).year + 1 ≡ (date now).year
    → (date c.update).month ≡ (date now).month
    → c.monthly.rx + rx < u64
    → c.monthly.tx + tx < u64
    → (((inc_date_switch_related now rx tx c).monthly.rx
          ≤ (inc_date_switch_related now rx tx c).yearly.rx)
        × ((inc_date_switch_related now rx tx c).monthly.tx
            ≤ (inc_date_switch_related now rx tx c).yearly.tx))
      ↔ ((c.monthly.rx ≡ 0) × (c.monthly.tx ≡ 0))
unfolding inc
empty_month now rx tx c h z y m r t =
    let (a, b) = year_apart_sums now rx tx c h z y m in
    rw (a, b)
      (
        λ p. (omega (arith, p.0, r), omega (arith, p.1, t)),
        λ p. (omega (arith, p.0, r), omega (arith, p.1, t)),
      )

-- Let the periods be nested and the total not overflow, and let there have been an update before, at
-- no later time. Then the month holds no more than its year after an update, in what was received and
-- in what was sent, exactly if the update is not in the month of the last one a year later, or the
-- month was empty.
pub monthly-year_apart :
    (now : Time) (rx tx : ℕ) (c : DateSummaryNetCounters)
    → IsNested (λ x. x.rx) c
    → IsNested (λ x. x.tx) c
    → c.total.rx + rx < u64
    → c.total.tx + tx < u64
    → c.update ≤ now
    → c.update ≢ 0
    → (((inc_date_switch_related now rx tx c).monthly.rx
          ≤ (inc_date_switch_related now rx tx c).yearly.rx)
        × ((inc_date_switch_related now rx tx c).monthly.tx
            ≤ (inc_date_switch_related now rx tx c).yearly.tx))
      ↔ (NotYearApart c.update now ⊎ ((c.monthly.rx ≡ 0) × (c.monthly.tx ≡ 0)))
monthly-year_apart now rx tx c v w r t h z =
    elim (Bool-cases
      ((date c.update).year + 1 == (date now).year && (date c.update).month == (date now).month)) [
        | inl e ↦
            let both =
              empty_month now rx tx c h z (ground (arith, e)) (ground (arith, e))
                (omega (arith, r, v.monthly_yearly, v.yearly_total))
                (omega (arith, t, w.monthly_yearly, w.yearly_total)) in
            (λ p. inr (both.0 p), apart both (ground (arith, e)) (ground (arith, e)))
        | inr e ↦
            let far : NotYearApart c.update now = λ p. ground (arith, e, p) in
            (λ p. inl far, λ q. nested far)
      ]
  where
    Within : Type 0
    Within =
        ((inc_date_switch_related now rx tx c).monthly.rx
          ≤ (inc_date_switch_related now rx tx c).yearly.rx)
        × ((inc_date_switch_related now rx tx c).monthly.tx
            ≤ (inc_date_switch_related now rx tx c).yearly.tx)

    nested : NotYearApart c.update now → Within
    nested far =
        let (a, b) = inc_date_switch_related-IsNested now rx tx c v w r t far in
        (a.monthly_yearly, b.monthly_yearly)

    apart :
        Within ↔ ((c.monthly.rx ≡ 0) × (c.monthly.tx ≡ 0))
        → (date c.update).year + 1 ≡ (date now).year
        → (date c.update).month ≡ (date now).month
        → NotYearApart c.update now ⊎ ((c.monthly.rx ≡ 0) × (c.monthly.tx ≡ 0))
        → Within
    apart both y m (inl far) = absurd (far (y, m))
    apart both y m (inr empty) = both.1 empty
