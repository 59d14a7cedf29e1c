-- ===== src/Stats/Activity.antt =====
-- `lastActivityMark` and `handleLastActivity` of keydesk/storage/stats.go: when a user was last active,
-- and when in the current day, week, month and year.
use keydesk.Prelude.{
  ◌&&◌, ◌+◌, ◌==◌, List, Option, String, [], if◌then◌else◌, none, not, some, ◌||◌, ℕ, ◌∷◌,
}
use text.Mathlib.Text.{◌==◌ as str_eq}
use keydesk.Clock.{
  Time, Date, date, iso_week, zero_time, unix_epoch, is_zero, before, after, same_day, same_week,
  same_month, prev_month_date,
}
use keydesk.Storage.Types.{LastActivityPoints, UsersNetworks, Bytes}
use keydesk.Stats.Traffic.{lookup}

-- A stored zero of Unix time stands for no time at all.
unfoldable pub unix_fixed : LastActivityPoints → LastActivityPoints
unix_fixed p = record p { total = (if p.total == unix_epoch then zero_time else p.total) }

unfoldable pub today_marked : Time → LastActivityPoints → LastActivityPoints
today_marked seen p = record p { daily = seen; weekly = seen; monthly = seen; yearly = seen }

unfoldable pub week_marked : Time → Time → LastActivityPoints → LastActivityPoints
week_marked now seen p =
    if same_week (iso_week seen) (iso_week now)
    then record p { weekly = seen }
    else if not (is_zero p.weekly) && not (same_week (iso_week p.weekly) (iso_week now))
    then record p { weekly = zero_time }
    else p

-- The month before takes the mark of the month when the month is over.
unfoldable pub prev_month_dropped : Date → LastActivityPoints → LastActivityPoints
prev_month_dropped prev p =
    if not (is_zero p.prev_monthly) && not (same_month (date p.prev_monthly) prev)
    then record p { prev_monthly = zero_time }
    else p

unfoldable pub prev_month_taken : Date → Date → LastActivityPoints → LastActivityPoints
prev_month_taken prev today p =
    if not (is_zero p.monthly)
      && not ((date p.monthly).month == today.month)
      && same_month (date p.monthly) prev
    then record p { prev_monthly = p.monthly }
    else p

unfoldable pub year_marked : Date → Time → LastActivityPoints → LastActivityPoints
year_marked today seen p =
    if ((date seen).year == today.year) && after seen p.yearly
    then record p { yearly = seen }
    else if not (is_zero p.yearly) && not ((date p.yearly).year == today.year)
    then record p { yearly = zero_time }
    else p

unfoldable pub month_marked : Date → Time → LastActivityPoints → LastActivityPoints
month_marked today seen p =
    if same_month (date seen) today && after seen p.monthly
    then record p { monthly = seen }
    else if not (is_zero p.monthly) && not (same_month (date p.monthly) today)
    then record p { monthly = zero_time }
    else p

unfoldable pub day_marked : Date → LastActivityPoints → LastActivityPoints
day_marked today p =
    if not (is_zero p.daily) && not (same_day (date p.daily) today)
    then record p { daily = zero_time }
    else p

-- What follows the choice of the time of the last activity.
unfoldable pub marked : Time → Time → LastActivityPoints → LastActivityPoints
marked now seen p =
    let today = date now in
    let prev = prev_month_date now in
    if same_day (date seen) today
    then today_marked seen p
    else day_marked today (
        month_marked today seen (
          year_marked today seen
            (prev_month_taken prev today (prev_month_dropped prev (week_marked now seen p)))))

-- With no activity in the statistics the last one that is known counts again.
unfoldable pub chosen : Time → Time → LastActivityPoints → LastActivityPoints
chosen now seen p =
    if is_zero seen || (seen == unix_epoch)
    then (if is_zero p.total then p else marked now p.total p)
    else marked now seen (record p { total = seen })

-- `lastActivityMark`
unfoldable pub last_activity_mark : Time → Time → LastActivityPoints → LastActivityPoints
unfolding unix_fixed today_marked week_marked prev_month_dropped prev_month_taken year_marked
    month_marked day_marked marked chosen
last_activity_mark now seen p =
    if before now p.update then p else record (chosen now seen (unix_fixed p)) { update = now }

-- The time of a key of a map, the zero time if it is not there.
unfoldable pub time_at : String → List (String × Time) → Time
time_at key m = elim (lookup key m) [ none ↦ zero_time | some t ↦ t ]

-- `endpoints[prefix] = t`
unfoldable pub set_time : String → Time → UsersNetworks → UsersNetworks
set_time key t [] = (key, t) ∷ []
set_time key t ((k, u) ∷ rest) =
    let rest' = set_time key t rest in if str_eq k key then (k, t) ∷ rest else (k, u) ∷ rest'

-- `none` for a prefix that is not valid.
unfoldable pub noted : Time → Option (Option String) → UsersNetworks → UsersNetworks
noted seen (some (some prefix)) networks =
    if before (time_at prefix networks) seen then set_time prefix seen networks else networks
noted seen _ networks = networks

-- What `handleLastActivity` changes: the number of active users, the points of one kind, the networks,
-- and the last activity of any kind.
pub record Seen : Type 0 where
  pub active : ℕ
  pub points : LastActivityPoints
  pub networks : UsersNetworks
  pub latest : Time

-- `handleLastActivity`
unfoldable pub handle_last_activity :
    Bytes → Time → Time → List (Bytes × Time) → List (Bytes × Option String) → Seen → Seen
unfolding unix_fixed time_at set_time noted
handle_last_activity id now edge last_seen endpoints s =
    let seen = time_at id last_seen in
    let points = last_activity_mark now seen (unix_fixed s.points) in
    record {
      active = (if after points.total edge then s.active + 1 else s.active);
      points = points;
      networks = noted seen (lookup id endpoints) s.networks;
      latest = (if after seen s.latest then seen else s.latest);
    }
