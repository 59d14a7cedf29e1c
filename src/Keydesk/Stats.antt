-- ===== src/Keydesk/Stats.antt =====
-- `GetUsersStats` of keydesk/user.go: what the stack of counters looks like month by month.
use keydesk.Prelude.Ints.{ℤ}
use keydesk.World.{blocked_forever}
use keydesk.Storage.Brigades.{get_users_stats}
use keydesk.Messages.Handlers.{Responder, failure, no_response, payload}
use keydesk.Keydesk.Users.{hundredths_gb}
use keydesk.Storage.Db.{BrigadeStorage}
use keydesk.Storage.Types.{StatsCounters}
use keydesk.Prelude.{◌%◌, ◌+◌, List, Option, [], ◌^◌, if◌then◌else◌, ltb, none, some, ℕ, ◌∷◌}
use keydesk.World.{World, Result, ok, err}
use keydesk.Clock.{Time, is_zero, date}

pub record MonthStats : Type 0 where
  pub month : ℕ
  pub total_users : ℕ
  pub active_users : ℕ
  pub total_traffic : ℕ

pub record StatsModel : Type 0 where
  pub total_slots : ℕ
  pub free_slots : ℤ
  pub months : List MonthStats

-- The month of a time; after the zero time it is the month that follows the one before.
unfoldable pub month_after : ℕ → Time → ℕ
month_after prev t = if is_zero t then if ltb 12 (prev + 1) then 1 else prev + 1 else (date t).month

month_entry : ℕ → StatsCounters → MonthStats
month_entry month c = record {
  month = month;
  total_users = c.users.total_users_count;
  active_users = c.users.active_users_count;
  total_traffic = hundredths_gb ((c.net.total_traffic.rx + c.net.total_traffic.tx) % 2 ^ 64);
}

-- The loop over the stack, with the month of the round before.
unfoldable pub months_from : ℕ → List StatsCounters → List MonthStats
unfolding month_entry
months_from prev [] = []
months_from prev (c ∷ cs) =
    let month = month_after prev c.counters_update_time in
    month_entry month c ∷ months_from month cs

last_of : StatsCounters → List StatsCounters → StatsCounters
last_of c [] = c
last_of c (d ∷ ds) = last_of d ds

-- The first month is reckoned from the last of the stack.
unfoldable pub months_of : List StatsCounters → Option (List MonthStats)
unfolding last_of
months_of [] = none
months_of (c ∷ cs) = some (months_from (date (last_of c cs).counters_update_time).month (c ∷ cs))

unfoldable pub users_stats_answer :
    Result (List StatsCounters × ℕ × ℤ) × World → Responder StatsModel × World
users_stats_answer (err blocked_forever, w) = (no_response, w)
users_stats_answer (err e, w) = (failure 500 500, w)
users_stats_answer (ok (stack, total, free), w) = elim (months_of stack) [
  | none ↦ (no_response, w)
  | some months ↦ (payload (record { total_slots = total; free_slots = free; months = months }), w)
]

-- `GetUsersStats`: a stack without counters panics.
unfoldable pub handle_get_users_stats : BrigadeStorage → World → Responder StatsModel × World
handle_get_users_stats db w = users_stats_answer (get_users_stats db w)
