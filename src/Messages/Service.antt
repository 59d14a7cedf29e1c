-- ===== src/Messages/Service.antt =====
-- internal/messages/service/service.go, and its callers: keydesk/messages.go and
-- internal/messages/server/server.go. A panic in the service is an error of its own, after which
-- the file is closed; nothing is committed then.
pub mod Wanted
pub mod Created
pub mod Marks
pub mod Transactions
use keydesk.Messages.Page.{paginate}
use keydesk.Messages.Cleanup.{cleanup_messages}
use keydesk.Messages.Order.{SortParams, sort_messages_factory}
use keydesk.Messages.Filter.{Fn, filter_all, plain, priority_filter, func_filter, is_read_filter}
use keydesk.Prelude.Ints.{ℤ}
use keydesk.Storage.Db.{BrigadeStorage, open_with_reading, commit_brigade}
use keydesk.Prelude.{
  ◌++◌, Bool, List, Option, String, [], false, if◌then◌else◌, length, none, some, true, ℕ, ◌∷◌,
}
use keydesk.World.{M, pure, raise, ◌>>=◌, ◌>>◌, panicked, message_not_found}
use text.Mathlib.Text.{◌==◌ as str_eq}
use keydesk.Clock.{Time}
use keydesk.Storage.Types.{Message, Uuid, Brigade}

-- The two readings of the clock in a cleanup.
pub record Readings : Type 0 where
  pub now : Time
  pub later : Time

unfoldable pub or_panic {ℓ} : {A : Type ℓ} → Option A → M A
or_panic none = raise panicked
or_panic (some a) = pure a

-- `transaction`: `fn` acts on the brigade whose messages are cleaned up.
unfoldable pub transaction {ℓ} :
    {A : Type ℓ} → BrigadeStorage → Readings → (Brigade → M (Brigade × A)) → M A
transaction db t fn = do
  b ← open_with_reading db
  ms ← or_panic (cleanup_messages t.now t.later b.messages)
  (b', a) ← fn (record b { messages = ms })
  commit_brigade b'
  pure a

-- What `GetMessages` is asked for.
pub record Query : Type 0 where
  pub offset : ℤ
  pub limit : ℤ
  pub read : Option Bool
  pub priority : Option ℤ
  pub priority_op : String
  pub sort_time : Option String
  pub sort_priority : Option String

read_filters : Option Bool → List (Fn Message)
read_filters none = []
read_filters (some r) = plain (func_filter (is_read_filter r)) ∷ []

priority_filters : String → Option ℤ → List (Fn Message)
priority_filters op none = []
priority_filters op (some p) = priority_filter op p ∷ []

unfoldable pub query_filters : Query → List (Fn Message)
unfolding read_filters priority_filters
query_filters q = read_filters q.read ++ priority_filters q.priority_op q.priority

is_desc : Option String → Option Bool
is_desc none = none
is_desc (some s) = some (str_eq s "desc")

unfoldable pub sort_params : Query → SortParams
unfolding is_desc
sort_params q = record { by_time = is_desc q.sort_time; by_priority = is_desc q.sort_priority }

-- What `GetMessages` makes of the messages that it has read: a page, and how many there are in all.
unfoldable pub answer_query : Query → List Message → Option (List Message × ℕ)
answer_query q ms = elim (filter_all ms (query_filters q)) [
  | none ↦ none
  | some result ↦
      let sorted = sort_messages_factory result (sort_params q) in
      elim (paginate sorted q.offset q.limit) [
        | none ↦ none
        | some page ↦ some (page, length sorted)
      ]
]

-- `GetMessages`
unfoldable pub service_get_messages : BrigadeStorage → Readings → Query → M (List Message × ℕ)
service_get_messages db t q = do
  result ← transaction db t (λ b. pure (b, b.messages))
  or_panic (answer_query q result)

-- The message that `CreateMessage` makes, with a new identifier.
unfoldable pub new_message : Uuid → String → String → ℤ → ℤ → Time → Message
new_message id title text ttl priority now = record {
  id = id;
  text = text;
  title = title;
  is_read = false;
  priority = priority;
  created_at = now;
  ttl = ttl;
}

-- `CreateMessage`
unfoldable pub service_create_message :
    BrigadeStorage → Readings → Uuid → String → String → ℤ → ℤ → Time → M Message
service_create_message db t id title text ttl priority now =
    let msg = new_message id title text ttl priority now in
    transaction db t (λ b. pure (record b { messages = b.messages ++ msg ∷ [] }, msg))

-- The loop of `MarkAsRead`: `none` where no message has the identifier.
unfoldable pub mark_first : Uuid → List Message → Option (List Message)
mark_first id [] = none
mark_first id (m ∷ ms) =
    let rest = mark_first id ms in
    if str_eq m.id id
    then some (record m { is_read = true } ∷ ms)
    else elim rest [ none ↦ none | some ms' ↦ some (m ∷ ms') ]

marked_in : Brigade → Option (List Message) → M (Brigade × Unit {0})
marked_in b none = raise message_not_found
marked_in b (some ms) = pure (record b { messages = ms }, tt)

-- `MarkAsRead`
unfoldable pub service_mark_as_read : BrigadeStorage → Readings → Uuid → M (Unit {0})
unfolding marked_in
service_mark_as_read db t id = transaction db t (λ b. marked_in b (mark_first id b.messages))
