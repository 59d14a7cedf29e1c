-- ===== src/Keydesk/Users.antt =====
-- The handlers of keydesk/user.go that list, delete, block and unblock users.
use keydesk.World.{blocked_forever}
use keydesk.Messages.Handlers.{no_response}
use keydesk.Storage.Removal.{delete_user, unblock_user}
use keydesk.Storage.Brigades.{list_users}
use keydesk.Messages.Handlers.{Responder, payload, failure}
use keydesk.Storage.Db.{BrigadeStorage}
use keydesk.Storage.Types.{Person, User, Uuid}
use keydesk.Prelude.Ints.{ℤ, pos, negsuc}
use keydesk.Prelude.{
  ◌%◌, ◌*◌, ◌+◌, ◌-◌, ◌/◌, Bool, List, Option, String, ◌^◌, false, if◌then◌else◌, ltb, map, none,
  not, some, true, ℕ,
}
use keydesk.World.{World, Result, ok, err}
use keydesk.Clock.{Time, is_zero, second}
use keydesk.Counters.{RxTx}

-- `int64` of a uint64.
unfoldable pub to_int64 : ℕ → ℤ
to_int64 n = if ltb n (2 ^ 63) then pos n else negsuc (2 ^ 64 - n - 1)

-- A number of bytes in hundredths of a GB, rounded to the nearest. The code computes it in float64,
-- which holds all the numbers on the way, and hands it out as a float32.
unfoldable pub hundredths_gb : ℕ → ℕ
hundredths_gb bytes = (bytes / 1024 / 1024 * 100 + 512) / 1024

-- models.User; a time that is zero is left out.
pub record UserModel : Type 0 where
  pub user_id : String
  pub user_name : String
  pub person : Person
  pub created_at : Time
  pub blocked : Bool
  pub blocked_at : Option Time
  pub total_traffic : ℤ
  pub yearly_traffic : ℤ
  pub monthly_traffic : ℤ
  pub weekly_traffic : ℤ
  pub daily_traffic : ℤ
  pub prev_day_traffic : ℤ
  pub throttling_till : Option Time
  pub last_visit_hour : Option Time
  pub monthly_quota_remaining_gb : ℕ
  pub status : String

time_or_none : Time → Option Time
time_or_none t = if is_zero t then none else some t

hour : ℕ
hour = 3600 * second

-- `Truncate(time.Hour)`
hour_of : Time → Time
unfolding hour
hour_of t = t - t % hour

unfoldable pub user_status : User → String
user_status u =
    if u.is_blocked
    then "red"
    else if is_zero u.quotas.last_activity.total
    then "black"
    else if is_zero u.quotas.last_activity.monthly
    then "grey"
    else if not (is_zero u.quotas.throttling_till)
    then "yellow"
    else "green"

traffic_of : RxTx → ℤ
traffic_of t = to_int64 ((t.tx + t.rx) % 2 ^ 64)

-- The user in the answer of `GetUsers`.
unfoldable pub user_model : User → UserModel
unfolding time_or_none hour_of traffic_of
user_model u = record {
  user_id = u.user_id;
  user_name = u.name;
  person = u.person;
  created_at = u.created_at;
  blocked = u.is_blocked;
  blocked_at = (if u.is_blocked then time_or_none u.blocked_at else none);
  total_traffic = traffic_of u.quotas.counters_total.total;
  yearly_traffic = traffic_of u.quotas.counters_total.yearly;
  monthly_traffic = traffic_of u.quotas.counters_total.monthly;
  weekly_traffic = traffic_of u.quotas.counters_total.weekly;
  daily_traffic = traffic_of u.quotas.counters_total.daily;
  prev_day_traffic = traffic_of u.quotas.counters_total.prev_day;
  throttling_till = time_or_none u.quotas.throttling_till;
  last_visit_hour =
      (if is_zero u.quotas.last_activity.total
        then none
        else some (hour_of u.quotas.last_activity.total));
  monthly_quota_remaining_gb = hundredths_gb u.quotas.limit_monthly_remaining;
  status = user_status u;
}

unfoldable pub users_answer : Result (List User) × World → Responder (List UserModel) × World
users_answer (ok us, w) = (payload (map user_model us), w)
users_answer (err blocked_forever, w) = (no_response, w)
users_answer (err e, w) = (failure 500 500, w)

-- `GetUsers`
unfoldable pub handle_get_users : BrigadeStorage → Time → World → Responder (List UserModel) × World
handle_get_users db now w = users_answer (list_users db now w)

-- An error is answered with 403.
unfoldable pub or_forbidden : Result (Unit {0}) × World → Responder (Unit {0}) × World
or_forbidden (ok u, w) = (payload tt, w)
or_forbidden (err blocked_forever, w) = (no_response, w)
or_forbidden (err e, w) = (failure 403 403, w)

-- `DelUserUserID`, `BlockUserUserID` and `UnblockUserUserID`: a brigadier is not found.
unfoldable pub handle_del_user : BrigadeStorage → Uuid → Time → World → Responder (Unit {0}) × World
handle_del_user db id now w = or_forbidden (delete_user db id false false now w)

unfoldable pub handle_block_user :
    BrigadeStorage → Uuid → Time → World → Responder (Unit {0}) × World
handle_block_user db id now w = or_forbidden (delete_user db id false true now w)

unfoldable pub handle_unblock_user : BrigadeStorage → Uuid → World → Responder (Unit {0}) × World
handle_unblock_user db id w = or_forbidden (unblock_user db id w)
