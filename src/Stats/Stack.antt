-- ===== src/Stats/Stack.antt =====
-- `StatsCountersStack.Put` of keydesk/storage/types.go: the counters of twelve months, the current one
-- at the end.
use keydesk.Prelude.{
  ◌&&◌, ◌+◌, ◌++◌, Bool, List, [], ap, arith, if◌then◌else◌, length, not, refl, suc, ℕ, ◌∙◌, ◌∷◌,
  ◌≡◌, length-append, ◌%◌, ◌<◌, Bool-cases, inl, inr,
}
use keydesk.Counters.{RxTx, inc, no_traffic, u64}
use keydesk.Clock.{Time, date, zero_time, is_zero, same_month}
use keydesk.Storage.Types.{StatsCounters, BrigadeCounters, TrafficCountersContainer, UsersCounters}

abbrev pub no_users_counters : UsersCounters
no_users_counters = record {
  total_users_count = 0;
  active_users_count = 0;
  active_wg_users_count = 0;
  active_ipsec_users_count = 0;
  active_ovc_users_count = 0;
  active_olc_users_count = 0;
  active_outline_users_count = 0;
  active_proto0_users_count = 0;
  throttled_users_count = 0;
  blocked_users_count = 0;
}

abbrev pub no_stats : StatsCounters
no_stats = record {
  users = no_users_counters;
  net = record {
    total_traffic = no_traffic;
    total_wg_traffic = no_traffic;
    total_ipsec_traffic = no_traffic;
    total_ovc_traffic = no_traffic;
    total_outline_traffic = no_traffic;
    total_proto0_traffic = no_traffic;
  };
  counters_update_time = zero_time;
}

unfoldable pub last_time : List StatsCounters → Time
last_time [] = zero_time
last_time (x ∷ []) = x.counters_update_time
last_time (x ∷ y ∷ ys) = last_time (y ∷ ys)

unfoldable pub shift : List StatsCounters → List StatsCounters
shift [] = []
shift (x ∷ xs) = xs ++ no_stats ∷ []

unfoldable pub on_last : (StatsCounters → StatsCounters) → List StatsCounters → List StatsCounters
on_last f [] = []
on_last f (x ∷ []) = f x ∷ []
on_last f (x ∷ y ∷ ys) = x ∷ on_last f (y ∷ ys)

unfoldable pub add_month :
    BrigadeCounters → TrafficCountersContainer → StatsCounters → StatsCounters
add_month c t x = record {
  users = c.users_counters;
  net = record {
    total_traffic = inc x.net.total_traffic t.traffic_summary.rx t.traffic_summary.tx;
    total_wg_traffic = inc x.net.total_wg_traffic t.traffic_wg.rx t.traffic_wg.tx;
    total_ipsec_traffic = inc x.net.total_ipsec_traffic t.traffic_ipsec.rx t.traffic_ipsec.tx;
    total_ovc_traffic = inc x.net.total_ovc_traffic t.traffic_ovc.rx t.traffic_ovc.tx;
    total_outline_traffic =
        inc x.net.total_outline_traffic t.traffic_outline.rx t.traffic_outline.tx;
    total_proto0_traffic = inc x.net.total_proto0_traffic t.traffic_proto0.rx t.traffic_proto0.tx;
  };
  counters_update_time = c.counters_update_time;
}

-- The time of the last update was in another month.
abbrev pub is_new_month : Time → Time → Bool
is_new_month last now = not (is_zero last) && not (same_month (date last) (date now))

-- `Put`
unfoldable pub put :
    BrigadeCounters → TrafficCountersContainer → List StatsCounters → List StatsCounters
put c t x =
    on_last (add_month c t)
      (if is_new_month (last_time x) c.counters_update_time then shift x else x)

length-on_last :
    (f : StatsCounters → StatsCounters) (x : List StatsCounters) → length (on_last f x) ≡ length x
unfolding on_last
length-on_last f [] = refl
length-on_last f (x ∷ []) = refl
length-on_last f (x ∷ y ∷ ys) = ap suc (length-on_last f (y ∷ ys))

length-shift : (x : List StatsCounters) → length (shift x) ≡ length x
unfolding shift
length-shift [] = refl
length-shift (x ∷ xs) = length-append xs (no_stats ∷ []) ∙ omega arith

-- The traffic of all months of a stack.
abbrev pub sum_of : (RxTx → ℕ) → List StatsCounters → ℕ
sum_of f [] = 0
sum_of f (x ∷ xs) = f x.net.total_traffic + sum_of f xs

sum-append : (f : RxTx → ℕ) (x y : List StatsCounters) → sum_of f (x ++ y) ≡ sum_of f x + sum_of f y
sum-append f [] y = omega arith
sum-append f (a ∷ x) y = omega (arith, sum-append f x y)

abbrev pub head_sum : (RxTx → ℕ) → List StatsCounters → ℕ
head_sum f [] = 0
head_sum f (x ∷ xs) = f x.net.total_traffic

sum-shift :
    (f : RxTx → ℕ) (x : List StatsCounters)
    → f no_traffic ≡ 0
    → sum_of f (shift x) + head_sum f x ≡ sum_of f x
unfolding shift
sum-shift f [] z = omega arith
sum-shift f (a ∷ x) z = omega (arith, sum-append f x (no_stats ∷ []), z)

last_time-on_last :
    (c : BrigadeCounters) (t : TrafficCountersContainer) (a : StatsCounters)
    (x : List StatsCounters)
    → last_time (on_last (add_month c t) (a ∷ x)) ≡ c.counters_update_time
unfolding last_time on_last add_month
last_time-on_last c t a [] = refl
last_time-on_last c t a (b ∷ []) = refl
last_time-on_last c t a (b ∷ d ∷ x) = last_time-on_last c t b (d ∷ x)

sum-on_last :
    (f : RxTx → ℕ) (c : BrigadeCounters) (t : TrafficCountersContainer) (a : StatsCounters)
    (x : List StatsCounters)
    → ((r : RxTx)
        → f (inc r t.traffic_summary.rx t.traffic_summary.tx) ≡ (f r + f t.traffic_summary) % u64)
    → sum_of f (a ∷ x) + f t.traffic_summary < u64
    → sum_of f (on_last (add_month c t) (a ∷ x)) ≡ sum_of f (a ∷ x) + f t.traffic_summary
unfolding on_last add_month
sum-on_last f c t a [] e h = omega (arith, e a.net.total_traffic)
sum-on_last f c t a (b ∷ x) e h = omega (arith, sum-on_last f c t b x e (omega arith))

-- What leaves the stack: the oldest month, when a new month begins.
abbrev pub dropped : (RxTx → ℕ) → Time → List StatsCounters → ℕ
dropped f now x = if is_new_month (last_time x) now then head_sum f x else 0

put-sum :
    (f : RxTx → ℕ) (c : BrigadeCounters) (t : TrafficCountersContainer) (a b : StatsCounters)
    (x : List StatsCounters)
    → ((r : RxTx)
        → f (inc r t.traffic_summary.rx t.traffic_summary.tx) ≡ (f r + f t.traffic_summary) % u64)
    → f no_traffic ≡ 0
    → sum_of f (a ∷ b ∷ x) + f t.traffic_summary < u64
    → sum_of f (put c t (a ∷ b ∷ x)) + dropped f c.counters_update_time (a ∷ b ∷ x)
      ≡ sum_of f (a ∷ b ∷ x) + f t.traffic_summary
unfolding put on_last shift
put-sum f c t a b x e z h =
    elim (Bool-cases (is_new_month (last_time (a ∷ b ∷ x)) c.counters_update_time)) [
      | inl n ↦ rw n (
          omega (
            arith,
            sum-shift f (a ∷ b ∷ x) z,
            sum-on_last f c t b (x ++ no_stats ∷ []) e
                (omega (arith, h, sum-append f x (no_stats ∷ []), z)),
          ))
      | inr n ↦ rw n (omega (arith, sum-on_last f c t a (b ∷ x) e h))
    ]

put-shape :
    (c : BrigadeCounters) (t : TrafficCountersContainer) (a b : StatsCounters)
    (x : List StatsCounters)
    → (length (put c t (a ∷ b ∷ x)) ≡ length (a ∷ b ∷ x))
      × (last_time (put c t (a ∷ b ∷ x)) ≡ c.counters_update_time)
unfolding put shift
put-shape c t a b x =
    elim (Bool-cases (is_new_month (last_time (a ∷ b ∷ x)) c.counters_update_time)) [
      | inl n ↦ rw n (
        length-on_last (add_month c t) (shift (a ∷ b ∷ x)) ∙ length-shift (a ∷ b ∷ x),
        last_time-on_last c t b (x ++ no_stats ∷ []),
      )
      | inr n ↦ rw n (length-on_last (add_month c t) (a ∷ b ∷ x), last_time-on_last c t a (b ∷ x))
    ]

-- The stack keeps its length, its last entry gets the time of the counters, and while nothing
-- overflows its traffic grows by the traffic that is put, less the oldest month where a new month
-- begins, for what was received and for what was sent.
pub put-months :
    (c : BrigadeCounters) (t : TrafficCountersContainer) (a b : StatsCounters)
    (x : List StatsCounters)
    → sum_of (λ r. r.rx) (a ∷ b ∷ x) + t.traffic_summary.rx < u64
    → sum_of (λ r. r.tx) (a ∷ b ∷ x) + t.traffic_summary.tx < u64
    → (length (put c t (a ∷ b ∷ x)) ≡ length (a ∷ b ∷ x))
      × (last_time (put c t (a ∷ b ∷ x)) ≡ c.counters_update_time)
      × (sum_of (λ r. r.rx) (put c t (a ∷ b ∷ x))
            + dropped (λ r. r.rx) c.counters_update_time (a ∷ b ∷ x)
          ≡ sum_of (λ r. r.rx) (a ∷ b ∷ x) + t.traffic_summary.rx)
      × (sum_of (λ r. r.tx) (put c t (a ∷ b ∷ x))
            + dropped (λ r. r.tx) c.counters_update_time (a ∷ b ∷ x)
          ≡ sum_of (λ r. r.tx) (a ∷ b ∷ x) + t.traffic_summary.tx)
unfolding inc
put-months c t a b x h k =
    let (l, m) = put-shape c t a b x in
    (
      l,
      m,
      put-sum (λ r. r.rx) c t a b x (λ r. refl) refl h,
      put-sum (λ r. r.tx) c t a b x (λ r. refl) refl k,
    )
