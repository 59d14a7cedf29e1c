-- ===== src/Stats/Brigade.antt =====
-- What `mergeStats` of keydesk/storage/stats.go does to the whole brigade, and what `putStatsStats`
-- writes to stats.json.
use keydesk.Stats.Parse.{wg_stat_parse}
use keydesk.World.{◌>>=◌, ◌>>◌, pure, lift, M, Stats}
use keydesk.World.Api.{wg_stat}
use keydesk.Storage.Db.{BrigadeStorage, open_with_reading, commit_brigade}
use keydesk.World.{Stats, M}
use keydesk.Counters.{no_traffic, RxTx, DateSummaryNetCounters, inc_date_switch_related}
use keydesk.Clock.{Time, Duration, before}
use keydesk.Storage.Types.{
  MarkedUsersCounters, TrafficCountersContainer, Brigade, BrigadeCounters, UsersNetworks,
}
use keydesk.Prelude.{◌-◌, keep, length, not, ℕ, Option, String}
use keydesk.Stats.Merge.{Sums, merge_users}
use keydesk.Stats.Maps.{Parsed}
use keydesk.Stats.Stack.{put, no_users_counters}

abbrev pub no_marks : MarkedUsersCounters
no_marks = record {
  total_users = 0;
  wg_users = 0;
  ipsec_users = 0;
  ovc_users = 0;
  olc_users = 0;
  outline_users = 0;
  proto0_users = 0;
}

abbrev pub no_container : TrafficCountersContainer
no_container = record {
  traffic_summary = no_traffic;
  traffic_wg = no_traffic;
  traffic_ipsec = no_traffic;
  traffic_ovc = no_traffic;
  traffic_outline = no_traffic;
  traffic_proto0 = no_traffic;
}

-- Before the loop over the users.
abbrev pub first_sums : Brigade → Sums
first_sums b = record {
  traffic = no_container;
  users50gb = no_marks;
  users100gb = no_marks;
  users500gb = no_marks;
  users1000gb = no_marks;
  users = no_users_counters;
  networks = b.endpoints;
  last_activity = b.counters.last_activity;
}

-- `incDateSwitchRelated` of a sum of traffic
add_traffic : Time → RxTx → DateSummaryNetCounters → DateSummaryNetCounters
add_traffic now t c = inc_date_switch_related now t.rx t.tx c

-- The counters of the brigade after the loop.
unfoldable pub brigade_counters : Time → Time → ℕ → Sums → BrigadeCounters → BrigadeCounters
unfolding add_traffic
brigade_counters now timestamp count s c = record {
  users_counters = record (s.users) { total_users_count = count };
  users50gb = s.users50gb;
  users100gb = s.users100gb;
  users500gb = s.users500gb;
  users1000gb = s.users1000gb;
  total_traffic = add_traffic now s.traffic.traffic_summary c.total_traffic;
  total_wg_traffic = add_traffic now s.traffic.traffic_wg c.total_wg_traffic;
  total_ipsec_traffic = add_traffic now s.traffic.traffic_ipsec c.total_ipsec_traffic;
  total_ovc_traffic = add_traffic now s.traffic.traffic_ovc c.total_ovc_traffic;
  total_outline_traffic = add_traffic now s.traffic.traffic_outline c.total_outline_traffic;
  total_proto0_traffic = add_traffic now s.traffic.traffic_proto0 c.total_proto0_traffic;
  last_activity = s.last_activity;
  counters_update_time = timestamp;
}

-- Networks that have not been seen for long are forgotten.
unfoldable pub expire : Time → UsersNetworks → UsersNetworks
expire limit networks = keep (λ n. not (before n.1 limit)) networks

-- `mergeStats` of the parsed statistics
unfoldable pub merge_stats : Time → Parsed → Duration → Duration → ℕ → Brigade → Brigade
merge_stats now p ttl inactivity monthly b =
    let (users, s) = merge_users now p inactivity monthly b.users (first_sums b) in
    let c = brigade_counters now p.timestamp (length users) s b.counters in
    record b {
      users = users;
      endpoints = expire (now - ttl) s.networks;
      counters = c;
      stats_stack = put c s.traffic b.stats_stack;
    }

-- The record that `putStatsStats` writes; `now` is the time of its call.
unfoldable pub stats_of : Time → Brigade → Stats
stats_of now b = record {
  counters = record {
    users = b.counters.users_counters;
    net = record {
      total_traffic = b.counters.total_traffic.total;
      total_wg_traffic = b.counters.total_wg_traffic.total;
      total_ipsec_traffic = b.counters.total_ipsec_traffic.total;
      total_ovc_traffic = b.counters.total_ovc_traffic.total;
      total_outline_traffic = b.counters.total_outline_traffic.total;
      total_proto0_traffic = b.counters.total_proto0_traffic.total;
    };
    counters_update_time = b.counters.counters_update_time;
  };
  users50gb = b.counters.users50gb;
  users100gb = b.counters.users100gb;
  users500gb = b.counters.users500gb;
  users1000gb = b.counters.users1000gb;
  yesterday_traffic = b.counters.total_traffic.prev_day;
  last_activity = b.counters.last_activity;
  ver = 2;
  brigade_id = b.brigade_id;
  update_time = now;
  brigade_created_at = b.created_at;
  keydesk_first_visit = b.keydesk_first_visit;
  endpoints = b.endpoints;
}

-- `getStatsQuota`: the endpoint is asked, and the merged brigade is stored.
unfoldable pub get_stats_quota :
    (String → Option String) → BrigadeStorage → Duration → Time → M Brigade
get_stats_quota parse_prefix db ttl now = do
  b ← open_with_reading db
  resp ← wg_stat db.actual_addr_port b.wg_public_key
  parsed ← lift (wg_stat_parse parse_prefix resp)
  let merged = merge_stats now parsed ttl db.max_user_inactivity_period db.monthly_quota_remaining b
  commit_brigade merged
  pure merged
