-- ===== src/Messages/Order/Keys.antt =====
-- What the answers to sorted queries are in order by.
use keydesk.Messages.Order.Sorted.{
  Chain, NotLess, message_time_less-asym, sort_slice-perm, message_priority_less-asym,
  sort_slice-Chain,
}
use keydesk.Prelude.Ints.{int_less_trans, int_less-asym}
use keydesk.Prelude.{
  ◌<◌, All, Bool, List, [], arith, false, none, not, refl, some, subst, sym, true, ◌∷◌, ◌≡◌, ◌≤◌,
}
use mathlib.Core.List.{Perm}
use keydesk.Messages.Order.{
  Less, sort_slice, sort_fn, sort_messages_factory, message_time_less, message_priority_less,
  sort_func_factory, with_key, SortParams, Message, sorted_onto, int_less, sink,
}

-- The keys that a query may name.
pub data Key : Type 0 where
  time : Key
  priority : Key

abbrev pub by_key : Key → Bool → SortParams
by_key time desc = record { by_time = some desc; by_priority = none }
by_key priority desc = record { by_time = none; by_priority = some desc }

-- A message may stand in front of another in the ascending, or in the descending order of a key.
abbrev pub MayPrecede : Key → Bool → Message → Message → Type 0
MayPrecede time false x y = x.created_at ≤ y.created_at
MayPrecede time true x y = y.created_at ≤ x.created_at
MayPrecede priority false x y = int_less y.priority x.priority ≡ false
MayPrecede priority true x y = int_less x.priority y.priority ≡ false

abbrev pub Pairs : (Message → Message → Type 0) → List Message → Type 0
Pairs R [] = Unit
Pairs R (x ∷ xs) = All (R x) xs × Pairs R xs

key_less : Key → Bool → Less
key_less time desc = message_time_less (not desc)
key_less priority desc = message_priority_less (not desc)

NotLess-MayPrecede :
    (k : Key) (desc : Bool) (x y : Message) → NotLess (key_less k desc) x y → MayPrecede k desc x y
unfolding key_less message_time_less message_priority_less
NotLess-MayPrecede time false x y h = ground (arith, h)
NotLess-MayPrecede time true x y h = ground (arith, h)
NotLess-MayPrecede priority false x y h = h
NotLess-MayPrecede priority true x y h = h

MayPrecede-trans :
    (k : Key) (desc : Bool) (x y z : Message)
    → MayPrecede k desc x y
    → MayPrecede k desc y z
    → MayPrecede k desc x z
MayPrecede-trans time false x y z h l = omega (arith, h, l)
MayPrecede-trans time true x y z h l = omega (arith, h, l)
MayPrecede-trans priority false x y z h l = int_less_trans x.priority y.priority z.priority h l
MayPrecede-trans priority true x y z h l = int_less_trans z.priority y.priority x.priority l h

module _ (k : Key) (desc : Bool) where
  -- What may precede the head of a list in order may precede all of it.
  Pairs-cons :
      (x y : Message) (ys : List Message)
      → MayPrecede k desc x y
      → All (MayPrecede k desc y) ys
      → All (MayPrecede k desc x) ys
  Pairs-cons x y [] h l = tt
  Pairs-cons x y (z ∷ ys) h (l, m) = (MayPrecede-trans k desc x y z h l, Pairs-cons x y ys h m)

  Chain-Pairs :
      (ms : List Message) → Chain (NotLess (key_less k desc)) ms → Pairs (MayPrecede k desc) ms
  Chain-Pairs [] h = tt
  Chain-Pairs (x ∷ []) h = (tt, tt)
  Chain-Pairs (x ∷ y ∷ ys) (h, l) =
      let rest = Chain-Pairs (y ∷ ys) l in
      let first = NotLess-MayPrecede k desc x y h in ((first, Pairs-cons x y ys first rest.0), rest)

by_key-sort_slice :
    (k : Key) (desc : Bool) (ms : List Message)
    → sort_messages_factory ms (by_key k desc) ≡ sort_slice (key_less k desc) ms
unfolding sort_messages_factory sort_fn with_key sort_func_factory key_less
by_key-sort_slice time desc ms = refl
by_key-sort_slice priority desc ms = refl

key_less-asym :
    (k : Key) (desc : Bool) (x y : Message)
    → key_less k desc x y ≡ true
    → key_less k desc y x ≡ false
unfolding key_less
key_less-asym time desc = message_time_less-asym (not desc)
key_less-asym priority desc = message_priority_less-asym (not desc)

-- Sorted by one key, ascending or descending, the messages are the ones that were given, every pair
-- of them in the order of the key.
pub sort_messages_factory-Pairs :
    (k : Key) (desc : Bool) (ms : List Message)
    → Perm (sort_messages_factory ms (by_key k desc)) ms
      × Pairs (MayPrecede k desc) (sort_messages_factory ms (by_key k desc))
sort_messages_factory-Pairs k desc ms =
    subst (λ l. Perm l ms × Pairs (MayPrecede k desc) l) (sym (by_key-sort_slice k desc ms))
      (
        sort_slice-perm (key_less k desc) ms,
        Chain-Pairs k desc _ (sort_slice-Chain (key_less k desc) ms (key_less-asym k desc)),
      )

-- Asked to sort by time and by priority, both ascending, the code leaves two messages as they stand
-- if the first is later and has the lower priority, so that they are not in the order of time.
pub sort_messages_factory-both_keys :
    (x y : Message)
    → y.created_at < x.created_at
    → int_less x.priority y.priority ≡ true
    → sort_messages_factory (x ∷ y ∷ []) (record { by_time = some false; by_priority = some false })
      ≡ x ∷ y ∷ []
unfolding sort_messages_factory sort_fn with_key sort_func_factory sort_slice sorted_onto sink
    message_time_less message_priority_less
sort_messages_factory-both_keys x y h l =
    ground (arith, h, l, int_less-asym x.priority y.priority l)

-- With no key there is no sorting.
pub sort_messages_factory-no_keys :
    (ms : List Message)
    → sort_messages_factory ms (record { by_time = none; by_priority = none }) ≡ ms
unfolding sort_messages_factory sort_fn with_key
sort_messages_factory-no_keys ms = refl
