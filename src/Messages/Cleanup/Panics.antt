-- ===== src/Messages/Cleanup/Panics.antt =====
-- Where `cleanupMessages` panics: the indexes of the messages without a TTL count from the place that
-- the loop has reached, and not from the start of the list.
use keydesk.Messages.Cleanup.Steps.{cleanup_messages-finished, finished}
use keydesk.Prelude.{
  ◌+◌, ◌++◌, ◌-◌, All, List, Option-cases, [], ap, arith, drop, false, inl, inr, length, none, refl,
  some, suc, take, true, ℕ, ◌∷◌, ◌≡◌, ◌≤◌, length-append, length-take, length-drop, leb, reverse,
  ◌∙◌,
}
use keydesk.Messages.Filter.Lists.{
  func_filter-passed, length-reverse, All-append, unexpired, untimed,
}
use keydesk.Messages.Cleanup.{
  index_func, no_ttl_indexes, remove_at, remove_all, drop_no_ttl, Message, no_ttl, cleanup_messages,
  Time, ttl_expired,
}
use mathlib.Core.List.{reverse-cons}
use keydesk.Messages.Filter.{ttl_after_time}

index_func-first :
    (ts : List Message) (n : Message) (ns : List Message)
    → All (λ m. no_ttl m ≡ false) ts
    → no_ttl n ≡ true
    → index_func no_ttl (ts ++ n ∷ ns) ≡ some (length ts)
unfolding index_func
index_func-first [] n ns h k = rw k refl
index_func-first (t ∷ ts) n ns (p, h) k = rw (p, index_func-first ts n ns h k) refl

no_ttl_indexes-first :
    (t : Message) (ts : List Message) (n : Message) (ns : List Message)
    → All (λ m. no_ttl m ≡ false) (t ∷ ts)
    → no_ttl n ≡ true
    → no_ttl_indexes (t ∷ ts ++ n ∷ ns) ≡ suc (length ts) ∷ no_ttl_indexes (ts ++ n ∷ ns)
unfolding no_ttl_indexes
no_ttl_indexes-first t ts n ns h k = ground (arith, index_func-first (t ∷ ts) n ns h k)

length-no_ttl_indexes_timeless :
    (ns : List Message) → All (λ m. no_ttl m ≡ true) ns → length (no_ttl_indexes ns) ≡ length ns
unfolding no_ttl_indexes index_func
length-no_ttl_indexes_timeless [] h = refl
length-no_ttl_indexes_timeless (n ∷ ns) (p, h) =
    ground (arith, p, length-no_ttl_indexes_timeless ns h)

-- The loop finds a message at every place, up to the last message.
length-no_ttl_indexes :
    (ts : List Message) (n : Message) (ns : List Message)
    → All (λ m. no_ttl m ≡ false) ts
    → All (λ m. no_ttl m ≡ true) (n ∷ ns)
    → length (no_ttl_indexes (ts ++ n ∷ ns)) ≡ length (ts ++ n ∷ ns)
unfolding no_ttl_indexes
length-no_ttl_indexes [] n ns h k = length-no_ttl_indexes_timeless (n ∷ ns) k
length-no_ttl_indexes (t ∷ ts) n ns (p, h) k =
    rw (no_ttl_indexes-first t ts n ns (p, h) k.0) (ap suc (length-no_ttl_indexes ts n ns h k))

length-remove_at :
    (i : ℕ) (ms ms' : List Message) → remove_at i ms ≡ some ms' → length ms' ≡ length ms - 1
unfolding remove_at
length-remove_at i ms ms' h =
    grind
      (arith, length-append (take i ms) (drop (i + 1) ms), length-take i ms, length-drop (i + 1) ms)

remove_at-fails : (i : ℕ) (ms : List Message) → length ms ≤ i → remove_at i ms ≡ none
unfolding remove_at
remove_at-fails i ms h = ground arith

-- The last index is out of range if it is not below the length that is left then.
remove_all-fails :
    (idxs : List ℕ) (i : ℕ) (ms : List Message)
    → length ms - length idxs ≤ i
    → remove_all (idxs ++ i ∷ []) ms ≡ none
unfolding remove_all
remove_all-fails [] i ms h = rw (remove_all, remove_at-fails i ms (omega (arith, h))) refl
remove_all-fails (x ∷ idxs) i ms h = elim (Option-cases (remove_at x ms)) [
  | inl e ↦ rw (remove_all, e) refl
  | inr (ms', e) ↦
      let n = length-remove_at x ms ms' e in
      rw (remove_all, e) (remove_all-fails idxs i ms' (omega (arith, n, h)))
]

drop_no_ttl-more :
    (ms : List Message) (idx : ℕ) (idxs : List ℕ)
    → no_ttl_indexes ms ≡ idx ∷ idxs
    → 10 ≤ length idxs
    → drop_no_ttl ms ≡ remove_all (reverse (take (length idxs - 10) idxs) ++ idx ∷ []) ms
unfolding drop_no_ttl
drop_no_ttl-more ms idx idxs h l =
    let many : leb (suc (length idxs)) 10 ≡ false = ground (arith, l) in
    let less : suc (length idxs) - 10 ≡ suc (length idxs - 10) = omega (arith, l) in
    rw (h, many, less)
      (ap (λ (is : List ℕ). remove_all is ms) (reverse-cons idx (take (length idxs - 10) idxs)))

-- Eleven messages with a TTL in front of one without are too many.
drop_no_ttl-panics :
    (ts : List Message) (n : Message) (ns : List Message)
    → All (λ m. no_ttl m ≡ false) ts
    → All (λ m. no_ttl m ≡ true) (n ∷ ns)
    → 11 ≤ length ts
    → drop_no_ttl (ts ++ n ∷ ns) ≡ none
drop_no_ttl-panics [] n ns h k l = absurd (omega (arith, l))
drop_no_ttl-panics (t ∷ ts) n ns h k l =
    let all = length-no_ttl_indexes ts n ns h.1 k in
    let both = length-append ts (n ∷ ns) in
    let idxs = no_ttl_indexes (ts ++ n ∷ ns) in
    let left = length-reverse (take (length idxs - 10) idxs) in
    let taken = length-take (length idxs - 10) idxs in
    drop_no_ttl-more _ _ _ (no_ttl_indexes-first t ts n ns h k.0) (omega (arith, l, all, both))
    ∙ remove_all-fails _ _ _ (omega (arith, l, all, both, left, taken))

-- Where the messages are at least eleven with a TTL that has not passed, followed by one or more
-- without a TTL, the cleanup panics, at whatever times.
pub cleanup_messages-panics :
    (now later : Time) (ts : List Message) (n : Message) (ns : List Message)
    → All (λ m. no_ttl m ≡ false) ts
    → All (λ m. ttl_after_time now m ≡ true) ts
    → All (λ m. no_ttl m ≡ true) (n ∷ ns)
    → 11 ≤ length ts
    → cleanup_messages now later (ts ++ n ∷ ns) ≡ none
cleanup_messages-panics now later ts n ns h a k l =
    let kept =
      func_filter-passed (ttl_expired now) (ts ++ n ∷ ns)
        (All-append _ ts (n ∷ ns) (unexpired now ts a) (untimed now (n ∷ ns) k)) in
    cleanup_messages-finished now later (ts ++ n ∷ ns)
    ∙ ap (λ ms. finished later (drop_no_ttl ms)) kept
    ∙ ap (finished later) (drop_no_ttl-panics ts n ns h k l)
