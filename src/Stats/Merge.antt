-- ===== src/Stats/Merge.antt =====
-- `mergeStats` of keydesk/storage/stats.go: the endpoint's statistics of a moment, for every user and
-- for the brigade. The time of the call is an argument.
use keydesk.Stats.Maps.{TrafficMap, Parsed}
use keydesk.Kdlib.{next_monthly_reset_on}
use keydesk.Clock.{Time, before, unix_epoch, is_zero, Duration, zero_time, after}
use keydesk.Storage.Types.{
  Bytes, TrafficCountersContainer, Quota, User, MarkedUsersCounters, UsersCounters, UsersNetworks,
}
use keydesk.Prelude.{
  ◌%◌, ◌&&◌, ◌*◌, ◌+◌, ◌-◌, ◌==◌, Bool, List, [], ◌^◌, if◌then◌else◌, leb, not, ◌||◌, ℕ, ◌∷◌,
}
use keydesk.Counters.{RxTx, inc, no_traffic, u64, inc_date_switch_related, DateSummaryNetCounters}
use keydesk.Stats.Traffic.{Tally, handle_traffic_stat, handle_user_usage_stats}
use keydesk.Stats.Activity.{handle_last_activity, last_activity_mark}

unfoldable pub tally : RxTx → RxTx → RxTx → DateSummaryNetCounters → Tally
tally os sum total counters = record { os = os; sum = sum; total = total; counters = counters }

-- The traffic of one user, of every kind and in sum.
unfoldable pub user_traffic :
    Bytes
    → Time
    → TrafficMap
    → Quota
    → TrafficCountersContainer
    → RxTx × Quota × TrafficCountersContainer
unfolding tally
user_traffic id now m q t =
    let wg =
      handle_traffic_stat id now m.wg
        (tally q.os_wg_counters no_traffic t.traffic_wg q.counters_wg) in
    let ipsec =
      handle_traffic_stat id now m.ipsec
        (tally q.os_ipsec_counters wg.sum t.traffic_ipsec q.counters_ipsec) in
    let ovc =
      handle_traffic_stat id now m.ovc
        (tally q.os_ovc_counters ipsec.sum t.traffic_ovc q.counters_ovc) in
    let outline =
      handle_traffic_stat id now m.outline
        (tally q.os_outline_counters ovc.sum t.traffic_outline q.counters_outline) in
    let proto0 =
      handle_traffic_stat id now m.proto0
        (tally q.os_proto0_counters outline.sum t.traffic_proto0 q.counters_proto0) in
    let sum = proto0.sum in
    (
      sum,
      record q {
        os_wg_counters = wg.os;
        counters_wg = wg.counters;
        os_ipsec_counters = ipsec.os;
        counters_ipsec = ipsec.counters;
        os_ovc_counters = ovc.os;
        counters_ovc = ovc.counters;
        os_outline_counters = outline.os;
        counters_outline = outline.counters;
        os_proto0_counters = proto0.os;
        counters_proto0 = proto0.counters;
        counters_total = inc_date_switch_related now sum.rx sum.tx q.counters_total;
      },
      record {
        traffic_summary = inc t.traffic_summary sum.rx sum.tx;
        traffic_wg = wg.total;
        traffic_ipsec = ipsec.total;
        traffic_ovc = ovc.total;
        traffic_outline = outline.total;
        traffic_proto0 = proto0.total;
      },
    )

unfoldable pub reset_due : Time → ℕ → Quota → Quota
reset_due now monthly q =
    if before q.limit_monthly_reset_on now
    then record q {
      limit_monthly_remaining = monthly;
      limit_monthly_reset_on = next_monthly_reset_on now;
    }
    else q

-- The monthly quota: it starts again when its reset is due, and pays for the traffic down to 0.
unfoldable pub spend_quota : Time → ℕ → RxTx → Quota → Quota
unfolding reset_due
spend_quota now monthly sum q =
    let spent = (sum.rx + sum.tx) % u64 in
    let q' = reset_due now monthly q in
    record q' {
      limit_monthly_remaining =
          (if leb spent q'.limit_monthly_remaining then q'.limit_monthly_remaining - spent else 0);
    }

-- What `mergeStats` keeps while it goes over the users.
pub record Sums : Type 0 where
  pub traffic : TrafficCountersContainer
  pub users50gb : MarkedUsersCounters
  pub users100gb : MarkedUsersCounters
  pub users500gb : MarkedUsersCounters
  pub users1000gb : MarkedUsersCounters
  pub users : UsersCounters
  pub networks : UsersNetworks
  pub last_activity : Time

-- The six calls of `handleLastActivity`, and the mark of the last activity of any kind.
unfoldable pub user_activity : Bytes → Time → Time → Parsed → Quota → Sums → Time × Quota × Sums
user_activity id now edge p q s =
    let wg = handle_last_activity id now edge p.last_seen.wg p.endpoints.wg (record {
      active = s.users.active_wg_users_count;
      points = q.last_wg_activity;
      networks = s.networks;
      latest = q.last_activity.total;
    }) in
    let ipsec = handle_last_activity id now edge p.last_seen.ipsec p.endpoints.ipsec (record {
      active = s.users.active_ipsec_users_count;
      points = q.last_ipsec_activity;
      networks = wg.networks;
      latest = wg.latest;
    }) in
    let ovc = handle_last_activity id now edge p.last_seen.ovc p.endpoints.ovc (record {
      active = s.users.active_ovc_users_count;
      points = q.last_ovc_activity;
      networks = ipsec.networks;
      latest = ipsec.latest;
    }) in
    let olc = handle_last_activity id now edge p.last_seen.olc p.endpoints.olc (record {
      active = s.users.active_olc_users_count;
      points = q.last_olc_activity;
      networks = ovc.networks;
      latest = ovc.latest;
    }) in
    let outline = handle_last_activity id now edge p.last_seen.outline p.endpoints.outline (record {
      active = s.users.active_outline_users_count;
      points = q.last_outline_activity;
      networks = olc.networks;
      latest = olc.latest;
    }) in
    let proto0 = handle_last_activity id now edge p.last_seen.proto0 p.endpoints.proto0 (record {
      active = s.users.active_proto0_users_count;
      points = q.last_proto0_activity;
      networks = outline.networks;
      latest = outline.latest;
    }) in
    let all = record (q.last_activity) {
      total = (if q.last_activity.total == unix_epoch then zero_time else q.last_activity.total);
    } in
    (
      proto0.latest,
      record q {
        last_wg_activity = wg.points;
        last_ipsec_activity = ipsec.points;
        last_ovc_activity = ovc.points;
        last_olc_activity = olc.points;
        last_outline_activity = outline.points;
        last_proto0_activity = proto0.points;
        last_activity = last_activity_mark now proto0.latest all;
      },
      record s {
        networks = proto0.networks;
        users = record (s.users) {
          active_wg_users_count = wg.active;
          active_ipsec_users_count = ipsec.active;
          active_ovc_users_count = ovc.active;
          active_olc_users_count = olc.active;
          active_outline_users_count = outline.active;
          active_proto0_users_count = proto0.active;
        };
      },
    )

marks : Quota → TrafficCountersContainer → Sums → Sums
marks q traffic s = record s {
  traffic = traffic;
  users50gb = handle_user_usage_stats s.users50gb q (50 * 2 ^ 30);
  users100gb = handle_user_usage_stats s.users100gb q (100 * 2 ^ 30);
  users500gb = handle_user_usage_stats s.users500gb q (500 * 2 ^ 30);
  users1000gb = handle_user_usage_stats s.users1000gb q (1024 * 2 ^ 30);
}

plus_if : Bool → ℕ → ℕ
plus_if t n = if t then n + 1 else n

-- The counts of throttled, active and blocked users, and the last activity of the brigade.
status : User → Quota → Time → Time → Time → Sums → Sums
status u q now edge latest s = record s {
  last_activity =
      (if is_zero s.last_activity || before s.last_activity latest
        then latest
        else s.last_activity);
  users = record (s.users) {
    throttled_users_count =
        plus_if (not (is_zero q.throttling_till) && after q.throttling_till now)
          s.users.throttled_users_count;
    active_users_count = plus_if (after q.last_activity.total edge) s.users.active_users_count;
    blocked_users_count = plus_if u.is_blocked s.users.blocked_users_count;
  };
}

-- One round of the loop over the users. A user's key is stored as the text that the maps go by.
unfoldable pub merge_user : Time → Parsed → Duration → ℕ → User → Sums → User × Sums
unfolding user_traffic spend_quota user_activity marks status plus_if
merge_user now p inactivity monthly u s =
    let id = u.wg_public_key in
    let edge = now - inactivity in
    let (sum, q1, traffic) = user_traffic id now p.traffic u.quotas s.traffic in
    let s1 = marks q1 traffic s in
    let q2 = spend_quota now monthly sum q1 in
    let (latest, q3, s2) = user_activity id now edge p q2 s1 in
    (record u { quotas = q3 }, status u q3 now edge latest s2)

unfoldable pub merge_users : Time → Parsed → Duration → ℕ → List User → Sums → List User × Sums
merge_users now p inactivity monthly [] s = ([], s)
merge_users now p inactivity monthly (u ∷ us) s =
    let (u', s1) = merge_user now p inactivity monthly u s in
    let (us', s2) = merge_users now p inactivity monthly us s1 in (u' ∷ us', s2)
