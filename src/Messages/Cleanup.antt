-- ===== src/Messages/Cleanup.antt =====
-- `cleanupMessages` of internal/messages/service/service.go. `none` stands for a panic.
pub mod Panics
pub mod Bounds
pub mod Steps
pub mod Limits
use keydesk.Prelude.{
  ◌*◌, ◌+◌, ◌++◌, ◌-◌, List, Option, [], drop, if◌then◌else◌, leb, length, ltb, none, reverse, some,
  suc, take, ℕ, ◌∷◌,
}
use keydesk.Clock.{Time, day_length}
use keydesk.Storage.Types.{Message}
use keydesk.Messages.Filter.{
  Func, no_ttl, not_older, ttl_expired, if_or_true, last_n, filter_all, plain, func_filter,
}

-- `slices.IndexFunc`; `none` is -1.
unfoldable pub index_func : Func Message → List Message → Option ℕ
index_func f [] = none
index_func f (m ∷ ms) =
    let rest = index_func f ms in
    if f m then some 0 else elim rest [ none ↦ none | some idx ↦ some (suc idx) ]

-- The loop over `i`, on what is left of the messages from there: the indexes count from `i` on.
unfoldable pub no_ttl_indexes : List Message → List ℕ
no_ttl_indexes [] = []
no_ttl_indexes (m ∷ ms) = elim (index_func no_ttl (m ∷ ms)) [
  | none ↦ []
  | some idx ↦ idx ∷ no_ttl_indexes ms
]

-- `append(messages[:idx], messages[idx+1:]...)`
unfoldable pub remove_at : ℕ → List Message → Option (List Message)
remove_at idx ms = if ltb idx (length ms) then some (take idx ms ++ drop (idx + 1) ms) else none

unfoldable pub remove_all : List ℕ → List Message → Option (List Message)
remove_all [] ms = some ms
remove_all (idx ∷ idxs) ms = elim (remove_at idx ms) [
  | none ↦ none
  | some ms' ↦ remove_all idxs ms'
]

-- The second filter: all but the last ten of the indexes, in reverse.
unfoldable pub drop_no_ttl : List Message → Option (List Message)
drop_no_ttl ms =
    let idxs = no_ttl_indexes ms in
    if leb (length idxs) 10 then some ms else remove_all (reverse (take (length idxs - 10) idxs)) ms

abbrev pub month_long : ℕ
month_long = 30 * day_length

-- The clock is read for the first filter and for the third.
unfoldable pub cleanup_messages : Time → Time → List Message → Option (List Message)
cleanup_messages now later ms = filter_all ms (
    plain (func_filter (ttl_expired now))
    ∷ drop_no_ttl
    ∷ plain (func_filter (if_or_true (not_older later month_long) no_ttl))
    ∷ plain (last_n 100)
    ∷ [])
