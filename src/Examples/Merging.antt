-- ===== src/Examples/Merging.antt =====
-- Statistics of the endpoint.
use keydesk.Stats.Activity.{last_activity_mark}
use keydesk.Storage.Accounts.{new_counters}
use keydesk.Stats.Brigade.{no_container, first_sums}
use keydesk.Clock.{day_length}
use keydesk.Counters.{no_traffic, u64}
use keydesk.Stats.Stack.{put, no_stats, last_time, sum_of, dropped, put-months}
use keydesk.Stats.Current.{IsCurrent, last_activity_mark-IsCurrent}
use keydesk.Storage.Types.{
  LastActivityPoints, BrigadeCounters, TrafficCountersContainer, StatsCounters,
}
use keydesk.Stats.Balance.{IsBalanced, merge_users-IsBalanced}
use keydesk.Stats.Merge.{merge_users}
use keydesk.Stats.Maps.{Parsed}
use keydesk.Stats.Traffic.{Reading, Tally, run_readings, last_traffic, total-run_readings}
use keydesk.Prelude.{◌%◌, ◌*◌, ◌+◌, ◌-◌, All, List, [], arith, length, refl, ◌∷◌, ◌≡◌}
use keydesk.Examples.Data.{two_users, no_quota}

abbrev readings : List Reading
readings =
    record { now = 10; traffic = record { rx = 5; tx = 6 } }
    ∷ record { now = 20; traffic = record { rx = 9; tx = 6 } }
    ∷ []

abbrev tally_of : Tally
tally_of = record {
  os = record { rx = 2; tx = 1 };
  sum = no_traffic;
  total = no_traffic;
  counters = new_counters;
}

readings_example :
    ((run_readings "k" readings tally_of).counters.total.rx
      ≡ (0 + ((last_traffic tally_of.os readings).rx - 2)) % u64)
    × ((run_readings "k" readings tally_of).counters.total.tx
        ≡ (0 + ((last_traffic tally_of.os readings).tx - 1)) % u64)
    × ((run_readings "k" readings tally_of).os ≡ last_traffic tally_of.os readings)
readings_example =
    total-run_readings "k" readings tally_of
      (omega arith, omega arith, omega arith, (omega arith, omega arith, omega arith, tt))
      (omega arith) (omega arith)

abbrev reported : Parsed
reported = record {
  timestamp = 100;
  traffic = record {
    wg = ("bkey", record { rx = 5; tx = 6 }) ∷ [];
    ipsec = [];
    ovc = [];
    outline = ("bkey", record { rx = 1; tx = 1 }) ∷ [];
    proto0 = [];
  };
  last_seen = record {
    wg = ("bkey", 90) ∷ [];
    ipsec = [];
    ovc = [];
    olc = [];
    outline = [];
    proto0 = [];
  };
  endpoints = record { wg = []; ipsec = []; ovc = []; olc = []; outline = []; proto0 = [] };
}

no_quota-IsBalanced : IsBalanced no_quota
no_quota-IsBalanced = record {
  wg_update = refl;
  ipsec_update = refl;
  ovc_update = refl;
  outline_update = refl;
  proto0_update = refl;
  rx_sum = refl;
  tx_sum = refl;
}

merge_users-IsBalanced_example :
    All
      (λ u. IsBalanced u.quotas)
      (merge_users 100 reported 30 50 two_users.users (first_sums two_users)).0
merge_users-IsBalanced_example =
    merge_users-IsBalanced 100 reported 30 50 two_users.users (first_sums two_users)
      ((omega arith, no_quota-IsBalanced), ((omega arith, no_quota-IsBalanced), tt))

abbrev seen_before : LastActivityPoints
seen_before = record {
  update = 10;
  total = 5;
  yearly = 5;
  monthly = 5;
  prev_monthly = 0;
  weekly = 5;
  daily = 5;
}

last_activity_mark-IsCurrent_example :
    IsCurrent (40 * day_length) (last_activity_mark (40 * day_length) (39 * day_length) seen_before)
    × ((last_activity_mark (40 * day_length) (39 * day_length) seen_before).update
        ≡ 40 * day_length)
last_activity_mark-IsCurrent_example =
    last_activity_mark-IsCurrent (40 * day_length) (39 * day_length) seen_before (omega arith) refl

abbrev moment : BrigadeCounters
moment = record (two_users.counters) { counters_update_time = 40 * day_length }

abbrev moved : TrafficCountersContainer
moved = record no_container { traffic_summary = record { rx = 7; tx = 8 } }

abbrev month_stats : StatsCounters
month_stats = record no_stats { counters_update_time = 5 * day_length }

months_example :
    (length (put moment moved (no_stats ∷ month_stats ∷ [])) ≡ 2)
    × (last_time (put moment moved (no_stats ∷ month_stats ∷ [])) ≡ 40 * day_length)
    × (sum_of (λ r. r.rx) (put moment moved (no_stats ∷ month_stats ∷ []))
          + dropped (λ r. r.rx) (40 * day_length) (no_stats ∷ month_stats ∷ [])
        ≡ 7)
    × (sum_of (λ r. r.tx) (put moment moved (no_stats ∷ month_stats ∷ []))
          + dropped (λ r. r.tx) (40 * day_length) (no_stats ∷ month_stats ∷ [])
        ≡ 8)
months_example = put-months moment moved no_stats month_stats [] (omega arith) (omega arith)
