-- ===== src/Examples/Messaging.antt =====
-- The messages of a brigade.
use keydesk.Messages.Filter.Lists.{All-replicate}
use mathlib.Core.List.{Perm}
use keydesk.Messages.Service.Marks.{service_mark_as_read-Stores, handle_mark_as_read-not_found}
use keydesk.Messages.Service.Wanted.{wanted, ge, query_filters-wanted}
use keydesk.Messages.Order.Keys.{
  sort_messages_factory-both_keys, by_key, priority, Pairs, MayPrecede, sort_messages_factory-Pairs,
}
use keydesk.Messages.Cleanup.Limits.{cleanup_messages-timed, cleanup_messages-recent}
use keydesk.Messages.Cleanup.Panics.{cleanup_messages-panics}
use keydesk.Messages.Service.Transactions.{cleaned}
use keydesk.Messages.Order.{sort_messages_factory}
use keydesk.Messages.Service.Created.{Shows, first_messages, service_create_message-Shows}
use keydesk.Messages.Handlers.{handle_mark_as_read, failure}
use keydesk.Examples.Data.{two_users, world_of, storage, plain_text}
use keydesk.Messages.Cleanup.{cleanup_messages, month_long}
use keydesk.Prelude.Ints.{pos, int_less, moved_by}
use keydesk.Durable.Calm.{Holds, Stores}
use keydesk.Messages.Service.{
  new_message, Query, Readings, query_filters, service_create_message, service_mark_as_read,
  service_get_messages,
}
use keydesk.Messages.Page.Pages.{pages, pages-all}
use keydesk.Messages.Cleanup.Bounds.{IsTidy, cleanup_messages-IsTidy}
use keydesk.Messages.Filter.{no_ttl, filter_all, not_older, ttl_after_time, last_n, func_filter}
use keydesk.Storage.Types.{Message, Brigade}
use keydesk.Clock.{Time, day_length}
use keydesk.Prelude.{
  ◌*◌, ◌+◌, ◌++◌, List, [], arith, false, none, refl, replicate, some, true, ℕ, ◌∷◌, ◌≡◌,
}
use keydesk.World.{◌>>=◌, World, json}

-- Days after the first of January 2024.
abbrev day : ℕ → Time
day n = (738885 + n) * day_length

abbrev timeless : Message
timeless = new_message "t" "title" "text" (pos 0) (pos 0) (day 1)

abbrev urgent : Message
urgent = new_message "u" "title" "text" (pos 0) (pos 9) (day 3)

abbrev timed : Message
timed = new_message "v" "title" "text" (pos day_length) (pos 1) (day 3)

abbrev eleven_timed : List Message
eleven_timed = replicate 11 timed

cleanup_messages-panics_example :
    cleanup_messages (day 3) (day 3) (eleven_timed ++ timeless ∷ []) ≡ none
unfolding no_ttl ttl_after_time moved_by new_message
cleanup_messages-panics_example =
    cleanup_messages-panics (day 3) (day 3) eleven_timed timeless []
      (All-replicate (λ m. no_ttl m ≡ false) 11 timed refl)
      (All-replicate (λ m. ttl_after_time (day 3) m ≡ true) 11 timed refl) (refl, tt) (omega arith)

cleanup_messages-recent_example :
    cleanup_messages (day 3) (day 3) (timeless ∷ urgent ∷ [])
    ≡ some (func_filter (not_older (day 3) month_long) (last_n 10 (timeless ∷ urgent ∷ [])))
unfolding no_ttl new_message
cleanup_messages-recent_example =
    cleanup_messages-recent (day 3) (day 3) (timeless ∷ urgent ∷ []) (refl, (refl, tt))

cleanup_messages-timed_example :
    cleanup_messages (day 5) (day 5) (timed ∷ [])
    ≡ some (last_n 100 (func_filter (ttl_after_time (day 5)) (timed ∷ [])))
unfolding no_ttl new_message
cleanup_messages-timed_example = cleanup_messages-timed (day 5) (day 5) (timed ∷ []) (refl, tt)

cleanup_messages-IsTidy_example :
    IsTidy (day 3) (day 3) (cleanup_messages (day 3) (day 3) (timeless ∷ timed ∷ []))
cleanup_messages-IsTidy_example = cleanup_messages-IsTidy (day 3) (day 3) (timeless ∷ timed ∷ [])

pages_example : pages 2 0 2 (timeless ∷ urgent ∷ timed ∷ []) ≡ some (timeless ∷ urgent ∷ timed ∷ [])
pages_example = pages-all 2 2 (timeless ∷ urgent ∷ timed ∷ []) (omega arith) (omega arith)

Pairs_example :
    Perm
      (sort_messages_factory (urgent ∷ timeless ∷ []) (by_key priority true))
      (urgent ∷ timeless ∷ [])
    × Pairs
        (MayPrecede priority true)
        (sort_messages_factory (urgent ∷ timeless ∷ []) (by_key priority true))
Pairs_example = sort_messages_factory-Pairs priority true (urgent ∷ timeless ∷ [])

abbrev later_and_lower : Message
later_and_lower = new_message "w" "title" "text" (pos 0) (pos 0) (day 9)

both_keys_example :
    sort_messages_factory
      (later_and_lower ∷ urgent ∷ [])
      (record { by_time = some false; by_priority = some false })
    ≡ later_and_lower ∷ urgent ∷ []
unfolding new_message int_less
both_keys_example = sort_messages_factory-both_keys later_and_lower urgent (omega arith) refl

abbrev asked : Query
asked = record {
  offset = pos 0;
  limit = pos 25;
  read = some false;
  priority = some (pos 1);
  priority_op = "ge";
  sort_time = none;
  sort_priority = none;
}

wanted_example :
    filter_all (timeless ∷ urgent ∷ []) (query_filters asked)
    ≡ some (func_filter (wanted (some false) ge (some (pos 1))) (timeless ∷ urgent ∷ []))
wanted_example = query_filters-wanted asked ge (timeless ∷ urgent ∷ []) refl

abbrev with_messages : Brigade
with_messages = record two_users { messages = timeless ∷ urgent ∷ [] }

abbrev messaging : World
messaging = record (world_of []) {
  brigade = record { main = some (json with_messages); tmp = none; bak = none; linked = false };
}

abbrev held : Holds storage with_messages messaging
held = record { no_failure = refl; main_json = refl; not_linked = refl; own_id = refl }

abbrev third_day : Readings
third_day = record { now = day 3; later = day 3 }

cleaned_all :
    cleanup_messages (day 3) (day 3) (timeless ∷ urgent ∷ []) ≡ some (timeless ∷ urgent ∷ [])
unfolding no_ttl not_older last_n new_message func_filter
cleaned_all = cleanup_messages-recent (day 3) (day 3) (timeless ∷ urgent ∷ []) (refl, (refl, tt))

marks_example :
    Stores storage tt
      (cleaned with_messages (timeless ∷ record urgent { is_read = true } ∷ []))
      with_messages
      []
      (service_mark_as_read storage third_day "u" messaging)
unfolding new_message
marks_example =
    service_mark_as_read-Stores storage third_day with_messages messaging "u" (timeless ∷ []) urgent
      [] held cleaned_all (refl, tt) refl

not_found_example :
    ((handle_mark_as_read plain_text storage third_day "x" messaging).0 ≡ failure 404 404)
    × ((handle_mark_as_read plain_text storage third_day "x" messaging).1.brigade.main
        ≡ some (json with_messages))
unfolding new_message
not_found_example =
    handle_mark_as_read-not_found plain_text storage third_day with_messages messaging "x" "x"
      (timeless ∷ urgent ∷ []) held refl cleaned_all (refl, (refl, tt))

created_example : Shows (new_message "n" "title" "text" (pos 0) (pos 2) (day 3)) (
    (service_create_message storage third_day "n" "title" "text" (pos 0) (pos 2) (day 3) >>= λ m.
    service_get_messages storage third_day (first_messages 25))
      messaging)
unfolding no_ttl new_message
created_example =
    service_create_message-Shows storage third_day third_day "n" "title" "text" (pos 2) (day 3) 25
      with_messages messaging held (refl, (refl, tt)) refl (omega arith) (omega arith)
