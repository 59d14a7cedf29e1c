-- ===== src/Messages/Cleanup/Limits.antt =====
-- What `cleanupMessages` leaves where all the messages are without a TTL, and where all have one.
use keydesk.Messages.Cleanup.Steps.{cleanup_messages-finished, finished}
use keydesk.Prelude.{
  ◌++◌, All, List, [], ap, arith, drop, length, refl, replicate, reverse, some, suc, take, true,
  zero, ℕ, ◌∙◌, ◌∷◌, ◌≡◌, ◌≤◌, ◌-◌, Bool-cases, if◌then◌else◌, inl, inr, leb, subst, sym,
  length-replicate, false, none,
}
use keydesk.Messages.Filter.Lists.{
  func_filter-passed, untimed, last_n-short, length-func_filter, func_filter-keeps, length-last_n,
  func_filter-agree, All-map, last_n-All,
}
use keydesk.Messages.Cleanup.{
  index_func, no_ttl_indexes, remove_at, remove_all, drop_no_ttl, Message, last_n, no_ttl, Time,
  cleanup_messages, func_filter, not_older, month_long, ttl_expired, Func,
}
use mathlib.Core.List.{reverse-cons}
use keydesk.Messages.Filter.{last_n, if_or_true, ttl_expired, not_func, ttl_after_time}

-- Among messages without a TTL every index is 0.
no_ttl_indexes-zeros :
    (ms : List Message)
    → All (λ m. no_ttl m ≡ true) ms
    → no_ttl_indexes ms ≡ replicate (length ms) 0
unfolding no_ttl_indexes index_func
no_ttl_indexes-zeros [] h = refl
no_ttl_indexes-zeros (m ∷ ms) (p, h) = ground (arith, p, no_ttl_indexes-zeros ms h)

take-replicate : (k n : ℕ) → k ≤ n → take k (replicate {A = ℕ} n 0) ≡ replicate k 0
take-replicate zero n h = refl
take-replicate (suc k) zero h = absurd (omega (arith, h))
take-replicate (suc k) (suc n) h =
    ap (λ (l : List ℕ). 0 ∷ l) (take-replicate k n (omega (arith, h)))

replicate-append : (k : ℕ) → replicate {A = ℕ} k 0 ++ 0 ∷ [] ≡ replicate {A = ℕ} (suc k) 0
replicate-append zero = refl
replicate-append (suc k) = ap (λ (l : List ℕ). 0 ∷ l) (replicate-append k)

reverse-replicate : (k : ℕ) → reverse (replicate {A = ℕ} k 0) ≡ replicate k 0
reverse-replicate zero = refl
reverse-replicate (suc k) =
    reverse-cons 0 (replicate k 0)
    ∙ ap (λ (l : List ℕ). l ++ 0 ∷ []) (reverse-replicate k)
    ∙ replicate-append k

remove_all-zeros :
    (k : ℕ) (ms : List Message) → k ≤ length ms → remove_all (replicate k 0) ms ≡ some (drop k ms)
unfolding remove_all remove_at
remove_all-zeros zero ms h = refl
remove_all-zeros (suc k) [] h = absurd (omega (arith, h))
remove_all-zeros (suc k) (m ∷ ms) h = ground (arith, remove_all-zeros k ms (omega (arith, h)))

drop_no_ttl-last :
    (ms : List Message) → All (λ m. no_ttl m ≡ true) ms → drop_no_ttl ms ≡ some (last_n 10 ms)
unfolding drop_no_ttl last_n
drop_no_ttl-last ms h = elim (Bool-cases (leb (length ms) 10)) [
  | inl few ↦ ground (arith, few, zeros, length-replicate {A = ℕ} (length ms) 0)
  | inr many ↦ subst ends (sym zeros) (
      rw
        (
          length-replicate {A = ℕ} (length ms) 0,
          many,
          take-replicate (length ms - 10) (length ms) (omega arith),
          reverse-replicate (length ms - 10),
          remove_all-zeros (length ms - 10) ms (omega arith),
        )
        (ground (arith, many)))
]
  where
    zeros : no_ttl_indexes ms ≡ replicate (length ms) 0
    zeros = no_ttl_indexes-zeros ms h

    ends : List ℕ → Type 0
    ends is =
        (if leb (length is) 10 then some ms else remove_all (reverse (take (length is - 10) is)) ms)
        ≡ some (last_n 10 ms)

-- Where every message is without a TTL, the cleanup leaves, of the last ten messages, the ones of the
-- last thirty days.
pub cleanup_messages-recent :
    (now later : Time) (ms : List Message)
    → All (λ m. no_ttl m ≡ true) ms
    → cleanup_messages now later ms ≡ some (func_filter (not_older later month_long) (last_n 10 ms))
unfolding if_or_true
cleanup_messages-recent now later ms h =
    cleanup_messages-finished now later ms
    ∙ ap (λ ms. finished later (drop_no_ttl ms))
        (func_filter-passed (ttl_expired now) ms (untimed now ms h))
    ∙ ap (finished later) (drop_no_ttl-last ms h)
    ∙ ap some (
        last_n-short 100 _
          (omega (arith, length-func_filter both (last_n 10 ms), length-last_n 10 ms))
        ∙ func_filter-agree both (not_older later month_long) (last_n 10 ms)
            (All-map agree (last_n 10 ms) (last_n-All _ 10 ms h)))
  where
    both : Func Message
    both = if_or_true (not_older later month_long) no_ttl

    agree : (m : Message) → no_ttl m ≡ true → both m ≡ not_older later month_long m
    agree m p = ground (arith, p)

index_func-none : (ms : List Message) → All (λ m. no_ttl m ≡ false) ms → index_func no_ttl ms ≡ none
unfolding index_func
index_func-none [] h = refl
index_func-none (m ∷ ms) (p, h) = ground (arith, p, index_func-none ms h)

drop_no_ttl-none : (ms : List Message) → All (λ m. no_ttl m ≡ false) ms → drop_no_ttl ms ≡ some ms
unfolding drop_no_ttl no_ttl_indexes
drop_no_ttl-none [] h = refl
drop_no_ttl-none (m ∷ ms) h = ground (arith, index_func-none (m ∷ ms) h)

-- Where every message has a TTL, the cleanup leaves the last hundred of those whose time has not passed.
pub cleanup_messages-timed :
    (now later : Time) (ms : List Message)
    → All (λ m. no_ttl m ≡ false) ms
    → cleanup_messages now later ms ≡ some (last_n 100 (func_filter (ttl_after_time now) ms))
unfolding if_or_true ttl_expired not_func
cleanup_messages-timed now later ms h =
    cleanup_messages-finished now later ms
    ∙ ap (λ ms. finished later (drop_no_ttl ms))
        (func_filter-agree (ttl_expired now) (ttl_after_time now) ms (All-map expired ms h))
    ∙ ap (finished later) (drop_no_ttl-none left left_timed)
    ∙ ap (λ ms. some (last_n 100 ms))
        (func_filter-passed (if_or_true (not_older later month_long) no_ttl) left
          (All-map kept left left_timed))
  where
    left : List Message
    left = func_filter (ttl_after_time now) ms

    left_timed : All (λ m. no_ttl m ≡ false) left
    left_timed = func_filter-keeps (ttl_after_time now) _ ms h

    expired : (m : Message) → no_ttl m ≡ false → ttl_expired now m ≡ ttl_after_time now m
    expired m p = ground (arith, p)

    kept :
        (m : Message) → no_ttl m ≡ false → if_or_true (not_older later month_long) no_ttl m ≡ true
    kept m p = ground (arith, p)
