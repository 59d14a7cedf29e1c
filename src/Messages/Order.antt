-- ===== src/Messages/Order.antt =====
-- sortMessagesFactory of internal/messages/service/service.go, with `messageTimeLess`,
-- `messagePriorityLess` and `sortFuncFactory`. `sort.Slice` is its insertion sort, which it is for up
-- to twelve elements; for more it does not say in which order it leaves what no test puts in order.
pub mod Keys
pub mod Sorted
use keydesk.Prelude.Ints.{int_less}
use keydesk.Prelude.{◌&&◌, Bool, List, Option, [], if◌then◌else◌, none, not, reverse, some, ◌∷◌}
use keydesk.Storage.Types.{Message}
use keydesk.Clock.{before, after}

abbrev pub Less : Type 0
Less = Message → Message → Bool

unfoldable pub message_time_less : Bool → Less
message_time_less asc x y =
    if asc then before x.created_at y.created_at else after x.created_at y.created_at

unfoldable pub message_priority_less : Bool → Less
message_priority_less asc x y =
    if asc then int_less x.priority y.priority else int_less y.priority x.priority

-- `sortFuncFactory`; `none` is the function that is nil.
unfoldable pub sort_func_factory : Option Less → Less → Option Less
sort_func_factory none new = some new
sort_func_factory (some current) new = some (λ x y. current x y && new x y)

-- Inserts an element below those at the end that it is less than; the list is reversed.
unfoldable pub sink : Less → Message → List Message → List Message
sink less x [] = x ∷ []
sink less x (p ∷ ps) = let rest = sink less x ps in if less x p then p ∷ rest else x ∷ p ∷ ps

unfoldable pub sorted_onto : Less → List Message → List Message → List Message
sorted_onto less done [] = done
sorted_onto less done (x ∷ xs) = sorted_onto less (sink less x done) xs

unfoldable pub sort_slice : Less → List Message → List Message
sort_slice less xs = reverse (sorted_onto less [] xs)

-- The parameters of sorting: for each key, whether the order is descending.
pub record SortParams : Type 0 where
  pub by_time : Option Bool
  pub by_priority : Option Bool

with_key : (Bool → Less) → Option Bool → Option Less → Option Less
with_key less none fn = fn
with_key less (some desc) fn = sort_func_factory fn (less (not desc))

-- The function that the loop over the parameters ends with.
unfoldable pub sort_fn : SortParams → Option Less
unfolding with_key
sort_fn p = with_key message_priority_less p.by_priority (with_key message_time_less p.by_time none)

-- `sortMessagesFactory`: the keys of the parameters are the two that it knows.
unfoldable pub sort_messages_factory : List Message → SortParams → List Message
sort_messages_factory result p = elim (sort_fn p) [
  | none ↦ result
  | some less ↦ sort_slice less result
]
