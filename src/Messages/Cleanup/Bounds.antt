-- ===== src/Messages/Cleanup/Bounds.antt =====
-- The bounds of what `cleanupMessages` returns.
use keydesk.Messages.Cleanup.Steps.{finished, cleanup_messages-finished}
use keydesk.Prelude.{
  ◌+◌, All, Bool-cases, List, Option, [], arith, false, inl, inr, leb, length, ltb, none, some,
  subst, sym, true, ℕ, ◌∷◌, ◌≡◌, ◌≤◌, ◌⊎◌,
}
use keydesk.Messages.Filter.{
  Func, func_filter, not_older, if_or_true, no_ttl, ttl_expired, not_func, ttl_after_time,
}
use keydesk.Messages.Cleanup.{
  remove_at, remove_all, drop_no_ttl, cleanup_messages, month_long, Message, Time, no_ttl_indexes,
}
use keydesk.Messages.Filter.Lists.{
  func_filter-All, func_filter-keeps, All-append, All-take, length-last_n, All-drop, last_n-All,
  All-map, All-zip,
}

-- What holds of all messages holds of those that a function leaves.
abbrev Leaves {κ} : (Message → Type κ) → Option (List Message) → Type κ
Leaves P none = Unit
Leaves P (some ms) = All P ms

module _ {κ} (P : Message → Type κ) where
  remove_at-Leaves : (i : ℕ) (ms : List Message) → All P ms → Leaves P (remove_at i ms)
  unfolding remove_at
  remove_at-Leaves i ms h = elim (Bool-cases (ltb i (length ms))) [
    | inl e ↦ rw e (All-append P _ _ (All-take P i ms h) (All-drop P (i + 1) ms h))
    | inr e ↦ rw e tt
  ]

  remove_all-Leaves : (is : List ℕ) (ms : List Message) → All P ms → Leaves P (remove_all is ms)
  unfolding remove_all
  remove_all-Leaves [] ms h = h
  remove_all-Leaves (i ∷ is) ms h =
      go (remove_at i ms) (remove_at-Leaves i ms h) (λ ms'. remove_all-Leaves is ms')
    where
      go :
          (r : Option (List Message))
          → Leaves P r
          → ((ms' : List Message) → All P ms' → Leaves P (remove_all is ms'))
          → Leaves P (elim r [ none ↦ none | some ms' ↦ remove_all is ms' ])
      go none k rest = tt
      go (some ms') k rest = rest ms' k

  drop_no_ttl-Leaves : (ms : List Message) → All P ms → Leaves P (drop_no_ttl ms)
  unfolding drop_no_ttl
  drop_no_ttl-Leaves ms h = elim (Bool-cases (leb (length (no_ttl_indexes ms)) 10)) [
    | inl e ↦ rw e h
    | inr e ↦ rw e (remove_all-Leaves _ ms h)
  ]

-- A message without a TTL is of the last thirty days, and the TTL of another has not passed.
abbrev pub IsCurrent : Time → Time → Message → Type 0
IsCurrent now later m =
    ((no_ttl m ≡ true) × (not_older later month_long m ≡ true))
    ⊎ ((no_ttl m ≡ false) × (ttl_after_time now m ≡ true))

abbrev pub IsTidy : Time → Time → Option (List Message) → Type 0
IsTidy now later none = Unit
IsTidy now later (some ms) = (length ms ≤ 100) × All (IsCurrent now later) ms

-- Where the cleanup does not panic, it leaves a hundred messages at most, each of which has a TTL
-- that has not passed, or has none and is of the last thirty days.
pub cleanup_messages-IsTidy :
    (now later : Time) (ms : List Message) → IsTidy now later (cleanup_messages now later ms)
unfolding if_or_true ttl_expired not_func
cleanup_messages-IsTidy now later ms =
    subst (IsTidy now later) (sym (cleanup_messages-finished now later ms))
      (go (drop_no_ttl timed) (drop_no_ttl-Leaves _ timed (func_filter-All (ttl_expired now) ms)))
  where
    timed : List Message
    timed = func_filter (ttl_expired now) ms

    recent : Func Message
    recent = if_or_true (not_older later month_long) no_ttl

    current : (m : Message) → (recent m ≡ true) × (ttl_expired now m ≡ true) → IsCurrent now later m
    current m (r, t) = elim (Bool-cases (no_ttl m)) [
      | inl e ↦ inl (e, ground (arith, r, e))
      | inr e ↦ inr (e, ground (arith, t, e))
    ]

    go :
        (r : Option (List Message))
        → Leaves (λ m. ttl_expired now m ≡ true) r
        → IsTidy now later (finished later r)
    go none h = tt
    go (some ms') h = (
      length-last_n 100 _,
      last_n-All _ 100 _ (
          All-map current _
            (All-zip _ _ _ (func_filter-All recent ms') (func_filter-keeps recent _ ms' h))),
    )
