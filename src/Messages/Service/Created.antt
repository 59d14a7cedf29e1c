-- ===== src/Messages/Service/Created.antt =====
-- A message that was created is among the messages that are read later.
use keydesk.Durable.Calm.{Holds, Stores, upgraded-id}
use keydesk.Messages.Page.Pages.{paginate-whole}
use keydesk.Messages.Order.Keys.{sort_messages_factory-no_keys}
use keydesk.Messages.Cleanup.Limits.{cleanup_messages-recent}
use keydesk.Messages.Filter.Lists.{
  length-func_filter, length-last_n, All-append, func_filter-keeps, last_n-All,
}
use keydesk.Messages.Cleanup.{month_long, cleanup_messages}
use keydesk.Messages.Filter.{last_n, func_filter, Func, no_ttl, not_older}
use keydesk.Prelude.Ints.{pos}
use keydesk.Prelude.{
  ◌++◌, ◌<◌, List, [], ◌^◌, length, none, some, suc, ℕ, ◌∷◌, ◌≡◌, ◌≤◌, ◌+◌, ◌-◌, All, Bool-cases,
  Option, ap, arith, drop, inl, inr, ltb, refl, subst, sym, true, zero, ◌∙◌, length-append, String,
}
use keydesk.World.{◌>>=◌, and_then, Result, World, ok, err}
use keydesk.Messages.Filter.{filter_all}
use keydesk.Messages.Service.Transactions.{transaction-Stores, cleaned}
use keydesk.Messages.Service.{
  Readings, Query, service_create_message, service_get_messages, new_message, answer_query,
  query_filters, sort_params, read_filters, priority_filters, is_desc, filter_all, Message, Time,
  BrigadeStorage, Uuid, ℤ, Brigade, or_panic, transaction, pure,
}

-- A query for the first messages, with no filter and no order.
abbrev pub first_messages : ℕ → Query
first_messages l = record {
  offset = pos 0;
  limit = pos l;
  read = none;
  priority = none;
  priority_op = "eq";
  sort_time = none;
  sort_priority = none;
}

answer_query-first :
    (l : ℕ) (ms : List Message)
    → length ms ≤ l
    → length ms + l < 2 ^ 63
    → answer_query (first_messages l) ms ≡ some (ms, length ms)
unfolding answer_query query_filters sort_params read_filters priority_filters is_desc filter_all
answer_query-first l ms h k =
    rw (answer_query, sort_messages_factory-no_keys ms, paginate-whole l ms h k)
      (ap (λ (kept : List Message). some (ms, length kept)) (sort_messages_factory-no_keys ms))

-- The messages are at most ten, and the last is this one.
abbrev pub Shows : Message → Result (List Message × ℕ) × World → Type 0
Shows m (ok (page, total), w) =
    (total ≡ length page) × (total ≤ 10) × ((ys : List Message) × (page ≡ ys ++ m ∷ []))
Shows m (err e, w) = ⊥

drop-end :
    (k : ℕ) (xs : List Message) (m : Message)
    → k ≤ length xs
    → drop k (xs ++ m ∷ []) ≡ drop k xs ++ m ∷ []
drop-end zero xs m h = refl
drop-end (suc k) [] m h = absurd (omega (arith, h))
drop-end (suc k) (x ∷ xs) m h = drop-end k xs m (omega (arith, h))

-- The last of a list is the last of its last ten.
last_n-end :
    (n : ℕ) (xs : List Message) (m : Message)
    → (ys : List Message) × (last_n (suc n) (xs ++ m ∷ []) ≡ ys ++ m ∷ [])
unfolding last_n
last_n-end n xs m = elim (Bool-cases (ltb (length (xs ++ m ∷ [])) (suc n))) [
  | inl e ↦ (xs, rw e refl)
  | inr e ↦
      let all = length-append xs (m ∷ []) in
      (
        drop (length (xs ++ m ∷ []) - suc n) xs,
        rw e (drop-end (length (xs ++ m ∷ []) - suc n) xs m (omega (arith, all))),
      )
]

filter-end :
    (f : Func Message) (xs : List Message) (m : Message)
    → f m ≡ true
    → func_filter f (xs ++ m ∷ []) ≡ func_filter f xs ++ m ∷ []
unfolding func_filter
filter-end f [] m h = rw h refl
filter-end f (x ∷ xs) m h = ground (arith, filter-end f xs m h)

-- What a later cleanup leaves where the last message has no TTL and is of the last thirty days.
abbrev Ends : Message → Option (List Message) → Type 0
Ends m none = ⊥
Ends m (some ms) = (length ms ≤ 10) × ((ys : List Message) × (ms ≡ ys ++ m ∷ []))

cleanup_messages-Ends :
    (now later : Time) (xs : List Message) (m : Message)
    → All (λ x. no_ttl x ≡ true) (xs ++ m ∷ [])
    → not_older later month_long m ≡ true
    → Ends m (cleanup_messages now later (xs ++ m ∷ []))
cleanup_messages-Ends now later xs m h fresh =
    subst (Ends m) (sym (cleanup_messages-recent now later (xs ++ m ∷ []) h)) (
      let (ys, e) = last_n-end 9 xs m in
      (
        omega (arith, few, length-last_n 10 (xs ++ m ∷ [])),
        (func_filter recent ys, ap (func_filter recent) e ∙ filter-end recent ys m fresh),
      ))
  where
    recent : Func Message
    recent = not_older later month_long

    few : length (func_filter recent (last_n 10 (xs ++ m ∷ []))) ≤ length (last_n 10 (xs ++ m ∷ []))
    few = length-func_filter recent (last_n 10 (xs ++ m ∷ []))

module _ (db : BrigadeStorage) (t u : Readings) (id : Uuid) (title text : String) (priority : ℤ)
    (now : Time) (l : ℕ) where
  abbrev message : Message
  message = new_message id title text (pos 0) priority now

  get_messages-Shows :
      (b : Brigade) (w : World) (xs : List Message)
      → Holds db b w
      → b.messages ≡ xs ++ message ∷ []
      → All (λ m. no_ttl m ≡ true) (xs ++ message ∷ [])
      → not_older u.later month_long message ≡ true
      → 10 ≤ l
      → l < 2 ^ 62
      → Shows message (service_get_messages db u (first_messages l) w)
  unfolding service_get_messages or_panic
  get_messages-Shows b w xs h e timeless fresh enough small =
      go (cleanup_messages u.now u.later b.messages)
        (subst (λ ms. Ends message (cleanup_messages u.now u.later ms)) (sym e)
          (cleanup_messages-Ends u.now u.later xs message timeless fresh))
        refl
    where
      answered :
          (ms : List Message) (b' : Brigade) (r : Result (List Message) × World)
          → Ends message (some ms)
          → Stores db ms b' b w.accepted r
          → Shows message (and_then r (λ result. or_panic (answer_query (first_messages l) result)))
      answered ms b' (ok result, w') (few, last) (same, held, bak, acc) =
          subst (λ result. Shows message (or_panic (answer_query (first_messages l) result) w'))
            (sym same)
            (rw (answer_query-first l ms (omega (arith, few, enough)) (omega (arith, few, small)))
              (refl, few, last))
      answered ms b' (err x, w') k m = m

      go :
          (r : Option (List Message))
          → Ends message r
          → cleanup_messages u.now u.later b.messages ≡ r
          → Shows message (
              and_then
                (transaction db u (λ b. pure (b, b.messages)) w)
                (λ result. or_panic (answer_query (first_messages l) result)))
      go none k c = absurd k
      go (some ms) k c =
          answered ms (cleaned b ms) _ k
            (transaction-Stores db u b w ms _ (cleaned b ms) ms h c (λ w'. refl) (upgraded-id b))

  -- Where no call fails and no message has a TTL, a message without a TTL that is created is the last of
  -- the messages that are read next, within thirty days, by a query for ten or more of them.
  pub service_create_message-Shows :
      (b : Brigade) (w : World)
      → Holds db b w
      → All (λ m. no_ttl m ≡ true) b.messages
      → ltb (u.later - month_long) now ≡ true
      → 10 ≤ l
      → l < 2 ^ 62
      → Shows (new_message id title text (pos 0) priority now) (
          (service_create_message db t id title text (pos 0) priority now >>= λ m.
          service_get_messages db u (first_messages l))
            w)
  unfolding service_create_message no_ttl new_message not_older
  service_create_message-Shows b w h timeless fresh enough small = read_back _ (
      transaction-Stores db t b w recent _ (cleaned b (recent ++ message ∷ [])) message h
        (cleanup_messages-recent t.now t.later b.messages timeless) (λ w'. refl) (upgraded-id b))
    where
      recent : List Message
      recent = func_filter (not_older t.later month_long) (last_n 10 b.messages)

      recent_timeless : All (λ m. no_ttl m ≡ true) (recent ++ message ∷ [])
      recent_timeless =
          All-append _ recent (message ∷ [])
            (func_filter-keeps (not_older t.later month_long) _ _ (last_n-All _ 10 _ timeless))
            (refl, tt)

      read_back :
          (r : Result Message × World)
          → Stores db message (cleaned b (recent ++ message ∷ [])) b w.accepted r
          → Shows message (and_then r (λ m. service_get_messages db u (first_messages l)))
      read_back (ok m, w') (e, k, j, a) =
          get_messages-Shows (cleaned b (recent ++ message ∷ [])) w' recent k refl recent_timeless
            fresh enough small
      read_back (err e, w') k = k
