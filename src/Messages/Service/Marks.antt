-- ===== src/Messages/Service/Marks.antt =====
-- What marking a message as read does to the stored messages.
use keydesk.Durable.Calm.{Holds, Stores, upgraded-id}
use keydesk.World.{World, json, Result, ok, err}
use keydesk.Messages.Handlers.{handle_mark_as_read, mark_answer, failure}
use keydesk.Prelude.{
  ◌++◌, All, List, Option, String, [], false, none, refl, some, true, ◌∷◌, ◌≡◌, subst, sym,
}
use text.Mathlib.Text.{◌==◌ as str_eq}
use keydesk.Messages.Service.{
  Readings, mark_first, service_mark_as_read, Uuid, BrigadeStorage, Message, Brigade,
  cleanup_messages, message_not_found,
}
use keydesk.Messages.Service.Transactions.{
  cleaned, Refuses, transaction-Stores, transaction-Refuses,
}
use keydesk.Messages.Service.Transactions.{transaction-Refuses, transaction-Stores}

mark_first-found :
    (id : Uuid) (xs : List Message) (m : Message) (ys : List Message)
    → All (λ x. str_eq x.id id ≡ false) xs
    → str_eq m.id id ≡ true
    → mark_first id (xs ++ m ∷ ys) ≡ some (xs ++ record m { is_read = true } ∷ ys)
unfolding mark_first
mark_first-found id [] m ys h k = rw k refl
mark_first-found id (x ∷ xs) m ys (p, h) k = rw (p, mark_first-found id xs m ys h k) refl

mark_first-absent :
    (id : Uuid) (xs : List Message) → All (λ x. str_eq x.id id ≡ false) xs → mark_first id xs ≡ none
unfolding mark_first
mark_first-absent id [] h = refl
mark_first-absent id (x ∷ xs) (p, h) = rw (p, mark_first-absent id xs h) refl

-- Where no call fails and the cleanup leaves `xs`, `m` and `ys`, of which `m` is the first with the
-- identifier, what is stored are these with `m` read, and nothing else of the brigade is changed.
pub service_mark_as_read-Stores :
    (db : BrigadeStorage) (t : Readings) (b : Brigade) (w : World) (id : Uuid) (xs : List Message)
    (m : Message) (ys : List Message)
    → Holds db b w
    → cleanup_messages t.now t.later b.messages ≡ some (xs ++ m ∷ ys)
    → All (λ x. str_eq x.id id ≡ false) xs
    → str_eq m.id id ≡ true
    → Stores db tt
        (cleaned b (xs ++ record m { is_read = true } ∷ ys))
        b
        w.accepted
        (service_mark_as_read db t id w)
unfolding service_mark_as_read
service_mark_as_read-Stores db t b w id xs m ys h clean before found =
    transaction-Stores db t b w (xs ++ m ∷ ys) _
      (cleaned b (xs ++ record m { is_read = true } ∷ ys)) tt h clean
      (λ w'. rw (mark_first-found id xs m ys before found) refl) (upgraded-id b)

-- Where no call fails and no message that the cleanup leaves has the identifier, the answer has the
-- status 404 and the code 404, and the main file is what it was: what the cleanup removes stays too.
pub handle_mark_as_read-not_found :
    (parse : String → Option Uuid) (db : BrigadeStorage) (t : Readings) (b : Brigade) (w : World)
    (text : String) (id : Uuid) (ms : List Message)
    → Holds db b w
    → parse text ≡ some id
    → cleanup_messages t.now t.later b.messages ≡ some ms
    → All (λ x. str_eq x.id id ≡ false) ms
    → ((handle_mark_as_read parse db t text w).0 ≡ failure 404 404)
      × ((handle_mark_as_read parse db t text w).1.brigade.main ≡ some (json b))
unfolding service_mark_as_read handle_mark_as_read mark_answer
handle_mark_as_read-not_found parse db t b w text id ms h parsed clean absent =
    rw (handle_mark_as_read, parsed)
      (go (service_mark_as_read db t id w) (
        transaction-Refuses db t b w ms _ message_not_found h clean
          (λ w'. rw (mark_first-absent id ms absent) refl)))
  where
    go :
        (r : Result (Unit {0}) × World)
        → Refuses b message_not_found r
        → ((mark_answer r).0 ≡ failure 404 404) × ((mark_answer r).1.brigade.main ≡ some (json b))
    go (ok u, w') k = absurd k
    go (err e, w') (p, k) =
        subst
          (λ e.
            ((mark_answer (err e, w')).0 ≡ failure 404 404)
            × ((mark_answer (err e, w')).1.brigade.main ≡ some (json b)))
          (sym p) (refl, k)
