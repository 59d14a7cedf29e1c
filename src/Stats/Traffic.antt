-- ===== src/Stats/Traffic.antt =====
-- `handleTrafficStat` and `handleUserUsageStats` of keydesk/storage/stats.go. The endpoint counts the
-- traffic of a peer from 0 again after a restart; what it counted last is kept beside the counters.
use keydesk.Counters.Totals.{total_step}
use keydesk.Storage.Types.{Bytes, MarkedUsersCounters, Quota}
use keydesk.Clock.{Time}
use keydesk.Prelude.{
  ◌+◌, ◌-◌, List, Option, String, [], if◌then◌else◌, leb, ltb, none, some, ℕ, ◌∷◌, ◌≤◌, ◌%◌, ◌<◌,
  arith, refl, ◌≡◌, subst, sym, true,
}
use text.Mathlib.TextPositions.{compare_refl}
use text.Mathlib.Text.{◌==◌ as str_eq}
use keydesk.Counters.{RxTx, DateSummaryNetCounters, inc, reset, inc_date_switch_related, u64}

-- `m[key]` of a map as the list of its entries.
unfoldable pub lookup {ℓ} : {A : Type ℓ} → String → List (String × A) → Option A
lookup key [] = none
lookup key ((k, a) ∷ rest) = let found = lookup key rest in if str_eq k key then some a else found

-- The growth of one counter of the endpoint, which starts at 0 again if it went back.
unfoldable pub growth : ℕ → ℕ → ℕ
growth last reading = if leb last reading then reading - last else reading

-- What `handleTrafficStat` changes: the endpoint's last counters, the user's sum, the sum of all users,
-- and the user's counters.
pub record Tally : Type 0 where
  pub os : RxTx
  pub sum : RxTx
  pub total : RxTx
  pub counters : DateSummaryNetCounters

unfoldable pub counted : Time → RxTx → Tally → Tally
counted now traffic t =
    let rx = growth t.os.rx traffic.rx in
    let tx = growth t.os.tx traffic.tx in
    record {
      os = reset t.os traffic.rx traffic.tx;
      sum = inc t.sum rx tx;
      total = inc t.total rx tx;
      counters = inc_date_switch_related now rx tx t.counters;
    }

-- `handleTrafficStat`
unfoldable pub handle_traffic_stat : Bytes → Time → List (Bytes × RxTx) → Tally → Tally
unfolding counted
handle_traffic_stat id now m t = elim (lookup id m) [
  | some traffic ↦ counted now traffic t
  | none ↦ record t { counters = inc_date_switch_related now 0 0 t.counters }
]

mark : ℕ → DateSummaryNetCounters → ℕ → ℕ
mark limit c n = if ltb limit c.prev_day.rx then n + 1 else n

-- `handleUserUsageStats`
unfoldable pub handle_user_usage_stats : MarkedUsersCounters → Quota → ℕ → MarkedUsersCounters
unfolding mark
handle_user_usage_stats s q limit = record s {
  total_users = mark limit q.counters_total s.total_users;
  wg_users = mark limit q.counters_wg s.wg_users;
  ipsec_users = mark limit q.counters_ipsec s.ipsec_users;
  ovc_users = mark limit q.counters_ovc s.ovc_users;
  outline_users = mark limit q.counters_outline s.outline_users;
  proto0_users = mark limit q.counters_proto0 s.proto0_users;
}

-- Readings of one peer in the order of time.
pub record Reading : Type 0 where
  pub now : Time
  pub traffic : RxTx

unfoldable pub run_readings : Bytes → List Reading → Tally → Tally
run_readings id [] t = t
run_readings id (r ∷ rs) t =
    run_readings id rs (handle_traffic_stat id r.now ((id, r.traffic) ∷ []) t)

-- The readings come in order, and the endpoint's counters never go back.
abbrev pub Growing : Time → RxTx → List Reading → Type 0
Growing from last [] = Unit
Growing from last (r ∷ rs) =
    (from ≤ r.now)
    × (last.rx ≤ r.traffic.rx)
    × (last.tx ≤ r.traffic.tx)
    × Growing r.now r.traffic rs

abbrev pub last_traffic : RxTx → List Reading → RxTx
last_traffic last [] = last
last_traffic last (r ∷ rs) = last_traffic r.traffic rs

last_traffic-ge :
    (from : Time) (last : RxTx) (rs : List Reading)
    → Growing from last rs
    → (last.rx ≤ (last_traffic last rs).rx) × (last.tx ≤ (last_traffic last rs).tx)
last_traffic-ge from last [] g = (omega arith, omega arith)
last_traffic-ge from last (r ∷ rs) (h, k, l, g) =
    let (m, n) = last_traffic-ge r.now r.traffic rs g in (omega arith, omega arith)

pub str_eq_refl : (s : String) → str_eq s s ≡ true
str_eq_refl s = rw (compare_refl s) refl

-- One reading that does not go back.
reading_step :
    (id : Bytes) (r : Reading) (t : Tally)
    → t.counters.update ≤ r.now
    → t.os.rx ≤ r.traffic.rx
    → t.os.tx ≤ r.traffic.tx
    → ((handle_traffic_stat id r.now ((id, r.traffic) ∷ []) t).counters.total.rx
        ≡ (t.counters.total.rx + (r.traffic.rx - t.os.rx)) % u64)
      × ((handle_traffic_stat id r.now ((id, r.traffic) ∷ []) t).counters.total.tx
          ≡ (t.counters.total.tx + (r.traffic.tx - t.os.tx)) % u64)
      × ((handle_traffic_stat id r.now ((id, r.traffic) ∷ []) t).counters.update ≡ r.now)
      × ((handle_traffic_stat id r.now ((id, r.traffic) ∷ []) t).os ≡ r.traffic)
unfolding handle_traffic_stat counted lookup growth reset inc
reading_step id r t h k l =
    let (e, u) = total_step r.now (r.traffic.rx - t.os.rx) (r.traffic.tx - t.os.tx) t.counters h in
    ground (arith, str_eq_refl id, e, u)

abbrev Told : Bytes → List Reading → Tally → RxTx → Type 0
Told id rs t last =
    ((run_readings id rs t).counters.total.rx
      ≡ (t.counters.total.rx + ((last_traffic last rs).rx - last.rx)) % u64)
    × ((run_readings id rs t).counters.total.tx
        ≡ (t.counters.total.tx + ((last_traffic last rs).tx - last.tx)) % u64)
    × ((run_readings id rs t).os ≡ last_traffic last rs)

-- Over readings in the order of time whose counters never go back, the total of a user's counters
-- grows by what the endpoint has counted since the last reading before, modulo 2 ^ 64, and the last
-- reading is kept for the next one.
pub total-run_readings :
    (id : Bytes) (rs : List Reading) (t : Tally)
    → Growing t.counters.update t.os rs
    → t.counters.total.rx < u64
    → t.counters.total.tx < u64
    → ((run_readings id rs t).counters.total.rx
        ≡ (t.counters.total.rx + ((last_traffic t.os rs).rx - t.os.rx)) % u64)
      × ((run_readings id rs t).counters.total.tx
          ≡ (t.counters.total.tx + ((last_traffic t.os rs).tx - t.os.tx)) % u64)
      × ((run_readings id rs t).os ≡ last_traffic t.os rs)
unfolding run_readings
total-run_readings id [] t g h k = (omega arith, omega arith, refl)
total-run_readings id (r ∷ rs) t (h, k, l, g) p q =
    let t' = handle_traffic_stat id r.now ((id, r.traffic) ∷ []) t in
    let (x, y, u, o) = reading_step id r t h k l in
    let (m, n) = last_traffic-ge r.now r.traffic rs g in
    let (a, b, c) = subst (Told id rs t') o (
      total-run_readings id rs t'
        (subst (λ v. Growing v t'.os rs) (sym u) (subst (λ v. Growing r.now v rs) (sym o) g))
        (omega arith) (omega arith)) in
    (omega (arith, a, x, m, k), omega (arith, b, y, n, l), c)
