-- ===== src/Messages/Cleanup/Steps.antt =====
-- `cleanupMessages` as its second filter with what comes before and after it.
use keydesk.Prelude.{List, Option, Option-cases, arith, inl, inr, none, some, ◌≡◌}
use keydesk.Messages.Filter.{
  filter_all, func_filter, last_n, not_older, if_or_true, no_ttl, ttl_expired,
}
use keydesk.Messages.Cleanup.{drop_no_ttl, cleanup_messages, month_long, Time, Message}

abbrev pub finished : Time → Option (List Message) → Option (List Message)
finished later none = none
finished later (some ms) =
    some (last_n 100 (func_filter (if_or_true (not_older later month_long) no_ttl) ms))

pub cleanup_messages-finished :
    (now later : Time) (ms : List Message)
    → cleanup_messages now later ms
      ≡ finished later (drop_no_ttl (func_filter (ttl_expired now) ms))
unfolding cleanup_messages filter_all
cleanup_messages-finished now later ms =
    elim (Option-cases (drop_no_ttl (func_filter (ttl_expired now) ms))) [
      | inl e ↦ ground (arith, e)
      | inr (ms', e) ↦ ground (arith, e)
    ]
