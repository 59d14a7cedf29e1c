-- ===== src/Messages/Handlers.antt =====
-- keydesk/messages.go and internal/messages/server/server.go: what is answered to the requests about
-- messages. A duration is written as a text by the standard library; it stands as itself here.
use keydesk.World.{blocked_forever}
use keydesk.Storage.Db.{BrigadeStorage}
use keydesk.Prelude.Ints.{ℤ, is_zero_int, pos, int_less}
use keydesk.Storage.Types.{Uuid, Message}
use keydesk.Prelude.{Bool, List, Option, String, if◌then◌else◌, map, none, some, ℕ}
use keydesk.World.{Result, World, ok, err, panicked, message_not_found}
use keydesk.Clock.{Time}
use keydesk.Messages.Service.{
  Readings, Query, service_get_messages, service_mark_as_read, service_create_message,
}

-- models.Message and messages.Message, whose TTL is left out where there is none.
pub record MessageModel : Type 0 where
  pub id : Uuid
  pub title : String
  pub text : String
  pub is_read : Bool
  pub priority : ℤ
  pub time : Time
  pub ttl : Option ℤ

model_of : Option ℤ → Message → MessageModel
model_of ttl v = record {
  id = v.id;
  title = v.title;
  text = v.text;
  is_read = v.is_read;
  priority = v.priority;
  time = v.created_at;
  ttl = ttl;
}

-- The message in the answer of `keydesk.GetMessages`.
unfoldable pub message_model : Message → MessageModel
unfolding model_of
message_model v = model_of (if is_zero_int v.ttl then none else some v.ttl) v

-- An answer: its payload, or the status of an error with the code in its body. There is no answer
-- after a panic, and where a call does not return.
pub data Responder {ℓ} (A : Type ℓ) : Type ℓ where
  payload : A → Responder A
  failure : ℕ → ℕ → Responder A
  no_response : Responder A

-- `NewGetMessagesInternalServerError` has no body; its code stands as the status.
unfoldable pub get_messages_answer :
    Result (List Message × ℕ) × World → Responder (List MessageModel × ℕ) × World
get_messages_answer (ok (ms, total), w) = (payload (map message_model ms, total), w)
get_messages_answer (err panicked, w) = (no_response, w)
get_messages_answer (err blocked_forever, w) = (no_response, w)
get_messages_answer (err e, w) = (failure 500 500, w)

-- `keydesk.GetMessages`
unfoldable pub handle_get_messages :
    BrigadeStorage → Readings → Query → World → Responder (List MessageModel × ℕ) × World
handle_get_messages db t q w = get_messages_answer (service_get_messages db t q w)

unfoldable pub mark_answer : Result (Unit {0}) × World → Responder (Unit {0}) × World
mark_answer (ok u, w) = (payload tt, w)
mark_answer (err panicked, w) = (no_response, w)
mark_answer (err message_not_found, w) = (failure 404 404, w)
mark_answer (err blocked_forever, w) = (no_response, w)
mark_answer (err e, w) = (failure 500 500, w)

-- `keydesk.MarkAsRead`: where the identifier is none, the status is 404 and the code in the body 400.
unfoldable pub handle_mark_as_read :
    (String → Option Uuid)
    → BrigadeStorage
    → Readings
    → String
    → World
    → Responder (Unit {0}) × World
handle_mark_as_read parse_uuid db t text w = elim (parse_uuid text) [
  | none ↦ (failure 404 400, w)
  | some id ↦ mark_answer (service_mark_as_read db t id w)
]

-- The body of a request to create a message.
pub record PostBody : Type 0 where
  pub title : String
  pub text : String
  pub ttl : Option String
  pub priority : Option ℤ

posted_ttl : (String → Option ℤ) → Option String → Option ℤ
posted_ttl parse_duration none = some (pos 0)
posted_ttl parse_duration (some s) = parse_duration s

posted_priority : Option ℤ → ℤ
posted_priority none = pos 0
posted_priority (some p) = p

-- The answer of `PostMessages` shows a TTL above 0 only.
unfoldable pub posted_model : Message → MessageModel
unfolding model_of
posted_model v = model_of (if int_less (pos 0) v.ttl then some v.ttl else none) v

unfoldable pub post_answer : Result Message × World → Responder MessageModel × World
post_answer (ok msg, w) = (payload (posted_model msg), w)
post_answer (err panicked, w) = (no_response, w)
post_answer (err blocked_forever, w) = (no_response, w)
post_answer (err e, w) = (failure 500 500, w)

-- `PostMessages`, with the identifier and the time that the service takes
unfoldable pub post_messages :
    (String → Option ℤ)
    → BrigadeStorage
    → Readings
    → Uuid
    → Time
    → PostBody
    → World
    → Responder MessageModel × World
unfolding posted_ttl posted_priority
post_messages parse_duration db t id now r w = elim (posted_ttl parse_duration r.ttl) [
  | none ↦ (failure 400 400, w)
  | some ttl ↦
      post_answer
        (service_create_message db t id r.title r.text ttl (posted_priority r.priority) now w)
]
