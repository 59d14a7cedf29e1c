-- ===== src/Messages/Order/Sorted.antt =====
-- What sorting does to the messages: it keeps them all, and no message is less than the one in front
-- of it. By one key this puts all messages in order.
use keydesk.Prelude.Ints.{int_less-asym}
use keydesk.Prelude.{
  Bool-cases, List, [], false, inl, inr, true, ◌∷◌, ◌≡◌, ◌++◌, Bool, arith, subst,
}
use mathlib.Core.List.{Perm, reverse_aux, reverse_perm, perm_middle, append-nil}
use mathlib.Core.List.Perm
use keydesk.Messages.Order.{
  Less, sink, sorted_onto, sort_slice, message_time_less, message_priority_less, Message,
}

-- How the head of a list stands to one in front of it, and that all neighbours stand so.
abbrev Link : (Message → Message → Type 0) → Message → List Message → Type 0
Link R x [] = Unit
Link R x (y ∷ ys) = R x y

abbrev pub Chain : (Message → Message → Type 0) → List Message → Type 0
Chain R [] = Unit
Chain R (x ∷ xs) = Link R x xs × Chain R xs

-- The second is not less than the first.
abbrev pub NotLess : Less → Message → Message → Type 0
NotLess less x y = less y x ≡ false

abbrev IsAsymmetric : Less → Type 0
IsAsymmetric less = (x y : Message) → less x y ≡ true → less y x ≡ false

module _ (less : Less) where
  sink-perm : (x : Message) (done : List Message) → Perm (sink less x done) (x ∷ done)
  unfolding sink
  sink-perm x [] = Perm.refl _
  sink-perm x (p ∷ ps) = elim (Bool-cases (less x p)) [
    | inl e ↦ rw e (Perm.trans (Perm.cons p (sink-perm x ps)) (Perm.swap x p ps))
    | inr e ↦ rw e (Perm.refl _)
  ]

  sorted_onto-perm : (done xs : List Message) → Perm (sorted_onto less done xs) (xs ++ done)
  unfolding sorted_onto
  sorted_onto-perm done [] = Perm.refl _
  sorted_onto-perm done (x ∷ xs) =
      Perm.trans (sorted_onto-perm (sink less x done) xs)
        (Perm.trans (Perm.append_left xs (sink-perm x done)) (perm_middle xs done))

  -- The reversed list is a chain of the opposite relation.
  Falls : Message → Message → Type 0
  Falls x y = less x y ≡ false

  sink-Link :
      (p x : Message) (ps : List Message)
      → less p x ≡ false
      → Link Falls p ps
      → Link Falls p (sink less x ps)
  unfolding sink Falls
  sink-Link p x [] h k = h
  sink-Link p x (q ∷ qs) h k = elim (Bool-cases (less x q)) [ inl e ↦ rw e k | inr e ↦ rw e h ]

  module _ (asym : IsAsymmetric less) where
    sink-Chain :
        (x : Message) (done : List Message) → Chain Falls done → Chain Falls (sink less x done)
    unfolding sink Falls
    sink-Chain x [] h = (tt, tt)
    sink-Chain x (p ∷ ps) (k, h) = elim (Bool-cases (less x p)) [
      | inl e ↦ rw e (sink-Link p x ps (asym x p e) k, sink-Chain x ps h)
      | inr e ↦ rw e (e, (k, h))
    ]

    sorted_onto-Chain :
        (done xs : List Message) → Chain Falls done → Chain Falls (sorted_onto less done xs)
    unfolding sorted_onto
    sorted_onto-Chain done [] h = h
    sorted_onto-Chain done (x ∷ xs) h =
        sorted_onto-Chain (sink less x done) xs (sink-Chain x done h)

  -- How the two parts of a list that is being reversed meet.
  Joint : List Message → List Message → Type 0
  Joint [] acc = Unit
  Joint (x ∷ xs) acc = Link (NotLess less) x acc

  flipped : (x : Message) (xs acc : List Message) → Link Falls x xs → Joint xs (x ∷ acc)
  unfolding Joint Falls
  flipped x [] acc h = tt
  flipped x (y ∷ xs) acc h = h

  reverse_aux-Chain :
      (xs acc : List Message)
      → Chain Falls xs
      → Chain (NotLess less) acc
      → Joint xs acc
      → Chain (NotLess less) (reverse_aux xs acc)
  unfolding Joint
  reverse_aux-Chain [] acc h k j = k
  reverse_aux-Chain (x ∷ xs) acc (l, h) k j =
      reverse_aux-Chain xs (x ∷ acc) h (j, k) (flipped x xs acc l)

  no-Joint : (xs : List Message) → Joint xs []
  unfolding Joint
  no-Joint [] = tt
  no-Joint (x ∷ xs) = tt

  pub sort_slice-Chain :
      (ms : List Message) → IsAsymmetric less → Chain (NotLess less) (sort_slice less ms)
  unfolding sort_slice
  sort_slice-Chain ms asym =
      reverse_aux-Chain (sorted_onto less [] ms) [] (sorted_onto-Chain asym [] ms tt) tt
        (no-Joint _)

  pub sort_slice-perm : (ms : List Message) → Perm (sort_slice less ms) ms
  unfolding sort_slice
  sort_slice-perm ms =
      Perm.trans (reverse_perm (sorted_onto less [] ms))
        (subst (λ l. Perm (sorted_onto less [] ms) l) (append-nil ms) (sorted_onto-perm [] ms))

pub message_time_less-asym : (asc : Bool) → IsAsymmetric (message_time_less asc)
unfolding message_time_less
message_time_less-asym asc x y h = ground arith

pub message_priority_less-asym : (asc : Bool) → IsAsymmetric (message_priority_less asc)
unfolding message_priority_less
message_priority_less-asym true x y h = int_less-asym x.priority y.priority h
message_priority_less-asym false x y h = int_less-asym y.priority x.priority h
