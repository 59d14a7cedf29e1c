-- ===== src/Stats/Balance.antt =====
-- The total of a user's traffic is the sum of the totals of its kinds.
use keydesk.Counters.{inc, u64, RxTx, inc_date_switch_related, no_traffic}
use keydesk.Clock.{Time, Duration}
use keydesk.Storage.Types.{Quota, Bytes, TrafficCountersContainer, User}
use keydesk.Prelude.{
  ◌%◌, ◌+◌, ◌<◌, List, ℕ, ◌≡◌, ◌≤◌, Option, ap, arith, none, refl, some, sym, ◌∙◌, All, [], ◌∷◌,
}
use keydesk.Stats.Merge.{
  user_traffic, tally, merge_user, merge_users, spend_quota, user_activity, Sums,
}
use keydesk.Stats.Maps.{TrafficMap, Parsed}
use keydesk.Stats.Traffic.{Tally, handle_traffic_stat, counted, lookup, growth}
use keydesk.Counters.Totals.{total_step}

-- The counters of all kinds were updated last at this time, by this time at the latest, and their
-- totals add up, modulo 2 ^ 64.
pub record IsBalanced (q : Quota) : Type 0 where
  pub wg_update : q.counters_wg.update ≡ q.counters_total.update
  pub ipsec_update : q.counters_ipsec.update ≡ q.counters_total.update
  pub ovc_update : q.counters_ovc.update ≡ q.counters_total.update
  pub outline_update : q.counters_outline.update ≡ q.counters_total.update
  pub proto0_update : q.counters_proto0.update ≡ q.counters_total.update
  pub rx_sum :
      q.counters_total.total.rx % u64
      ≡ (q.counters_wg.total.rx + q.counters_ipsec.total.rx + q.counters_ovc.total.rx
          + q.counters_outline.total.rx + q.counters_proto0.total.rx)
        % u64
  pub tx_sum :
      q.counters_total.total.tx % u64
      ≡ (q.counters_wg.total.tx + q.counters_ipsec.total.tx + q.counters_ovc.total.tx
          + q.counters_outline.total.tx + q.counters_proto0.total.tx)
        % u64

-- What one kind adds to the sum it adds to the total of its counters.
record Grows (now : Time) (s t : Tally) : Type 0 where
  rx : ℕ
  tx : ℕ
  sum_rx : t.sum.rx ≡ (s.sum.rx + rx) % u64
  sum_tx : t.sum.tx ≡ (s.sum.tx + tx) % u64
  total_rx : t.counters.total.rx ≡ (s.counters.total.rx + rx) % u64
  total_tx : t.counters.total.tx ≡ (s.counters.total.tx + tx) % u64
  update : t.counters.update ≡ now

handle_traffic_stat-Grows :
    (id : Bytes) (now : Time) (m : List (Bytes × RxTx)) (t : Tally)
    → t.counters.update ≤ now
    → t.sum.rx < u64
    → t.sum.tx < u64
    → Grows now t (handle_traffic_stat id now m t)
unfolding handle_traffic_stat inc counted
handle_traffic_stat-Grows id now m t h k l = go (lookup id m)
  where
    go :
        (o : Option RxTx)
        → Grows now t (elim o [
          | some traffic ↦ counted now traffic t
          | none ↦ record t { counters = inc_date_switch_related now 0 0 t.counters }
        ])
    go none =
        (let (e, u) = total_step now 0 0 t.counters h in
          record {
            rx = 0;
            tx = 0;
            sum_rx = omega (arith, k);
            sum_tx = omega (arith, l);
            total_rx = ap (λ (x : RxTx). x.rx) e;
            total_tx = ap (λ (x : RxTx). x.tx) e;
            update = u;
          })
    go (some a) =
        (let (e, u) = total_step now (growth t.os.rx a.rx) (growth t.os.tx a.tx) t.counters h in
          record {
            rx = growth t.os.rx a.rx;
            tx = growth t.os.tx a.tx;
            sum_rx = refl;
            sum_tx = refl;
            total_rx = ap (λ (x : RxTx). x.rx) e;
            total_tx = ap (λ (x : RxTx). x.tx) e;
            update = u;
          })

-- Merging a moment's statistics keeps the totals of a user balanced, whatever the endpoint reports.
pub user_traffic-IsBalanced :
    (id : Bytes) (now : Time) (m : TrafficMap) (q : Quota) (t : TrafficCountersContainer)
    → q.counters_total.update ≤ now
    → IsBalanced q
    → IsBalanced (user_traffic id now m q t).1
unfolding user_traffic inc tally
user_traffic-IsBalanced id now m q t h b =
    let wg0 = tally q.os_wg_counters no_traffic t.traffic_wg q.counters_wg in
    let wg = handle_traffic_stat id now m.wg wg0 in
    let a =
      handle_traffic_stat-Grows id now m.wg wg0 (omega (arith, h, b.wg_update)) (omega arith)
        (omega arith) in
    let ipsec0 = tally q.os_ipsec_counters wg.sum t.traffic_ipsec q.counters_ipsec in
    let ipsec = handle_traffic_stat id now m.ipsec ipsec0 in
    let c =
      handle_traffic_stat-Grows id now m.ipsec ipsec0 (omega (arith, h, b.ipsec_update))
        (omega (arith, a.sum_rx)) (omega (arith, a.sum_tx)) in
    let ovc0 = tally q.os_ovc_counters ipsec.sum t.traffic_ovc q.counters_ovc in
    let ovc = handle_traffic_stat id now m.ovc ovc0 in
    let d =
      handle_traffic_stat-Grows id now m.ovc ovc0 (omega (arith, h, b.ovc_update))
        (omega (arith, c.sum_rx)) (omega (arith, c.sum_tx)) in
    let outline0 = tally q.os_outline_counters ovc.sum t.traffic_outline q.counters_outline in
    let outline = handle_traffic_stat id now m.outline outline0 in
    let e =
      handle_traffic_stat-Grows id now m.outline outline0 (omega (arith, h, b.outline_update))
        (omega (arith, d.sum_rx)) (omega (arith, d.sum_tx)) in
    let proto00 = tally q.os_proto0_counters outline.sum t.traffic_proto0 q.counters_proto0 in
    let proto0 = handle_traffic_stat id now m.proto0 proto00 in
    let f =
      handle_traffic_stat-Grows id now m.proto0 proto00 (omega (arith, h, b.proto0_update))
        (omega (arith, e.sum_rx)) (omega (arith, e.sum_tx)) in
    let (g, u) = total_step now proto0.sum.rx proto0.sum.tx q.counters_total h in
    let grx : (inc_date_switch_related now proto0.sum.rx proto0.sum.tx q.counters_total).total.rx
        ≡ (q.counters_total.total.rx + proto0.sum.rx) % u64 =
      ap (λ (x : RxTx). x.rx) g in
    let gtx : (inc_date_switch_related now proto0.sum.rx proto0.sum.tx q.counters_total).total.tx
        ≡ (q.counters_total.total.tx + proto0.sum.tx) % u64 =
      ap (λ (x : RxTx). x.tx) g in
    record {
      wg_update = a.update ∙ sym u;
      ipsec_update = c.update ∙ sym u;
      ovc_update = d.update ∙ sym u;
      outline_update = e.update ∙ sym u;
      proto0_update = f.update ∙ sym u;
      rx_sum = omega (
        arith, grx, a.sum_rx, c.sum_rx, d.sum_rx, e.sum_rx, f.sum_rx, a.total_rx, c.total_rx,
        d.total_rx, e.total_rx, f.total_rx, b.rx_sum,
      );
      tx_sum = omega (
        arith, gtx, a.sum_tx, c.sum_tx, d.sum_tx, e.sum_tx, f.sum_tx, a.total_tx, c.total_tx,
        d.total_tx, e.total_tx, f.total_tx, b.tx_sum,
      );
    }

merge_user-IsBalanced :
    (now : Time) (p : Parsed) (inactivity : Duration) (monthly : ℕ) (u : User) (s : Sums)
    → u.quotas.counters_total.update ≤ now
    → IsBalanced u.quotas
    → IsBalanced (merge_user now p inactivity monthly u s).0.quotas
unfolding merge_user spend_quota user_activity
merge_user-IsBalanced now p inactivity monthly u s h b =
    let k = user_traffic-IsBalanced u.wg_public_key now p.traffic u.quotas s.traffic h b in
    record {
      wg_update = ground (arith, k.wg_update);
      ipsec_update = ground (arith, k.ipsec_update);
      ovc_update = ground (arith, k.ovc_update);
      outline_update = ground (arith, k.outline_update);
      proto0_update = ground (arith, k.proto0_update);
      rx_sum = ground (arith, k.rx_sum);
      tx_sum = ground (arith, k.tx_sum);
    }

-- The counters of a user are balanced and were not updated after this time.
abbrev pub IsReady : Time → User → Type 0
IsReady now u = (u.quotas.counters_total.update ≤ now) × IsBalanced u.quotas

-- Merging a moment's statistics keeps the total of every user the sum of the user's kinds of traffic,
-- modulo 2 ^ 64, whatever the endpoint reports.
pub merge_users-IsBalanced :
    (now : Time) (p : Parsed) (inactivity : Duration) (monthly : ℕ) (us : List User) (s : Sums)
    → All (IsReady now) us
    → All (λ u. IsBalanced u.quotas) (merge_users now p inactivity monthly us s).0
unfolding merge_users
merge_users-IsBalanced now p inactivity monthly [] s h = tt
merge_users-IsBalanced now p inactivity monthly (u ∷ us) s (h, k) = (
  merge_user-IsBalanced now p inactivity monthly u s h.0 h.1,
  merge_users-IsBalanced now p inactivity monthly us (merge_user now p inactivity monthly u s).1 k,
)
