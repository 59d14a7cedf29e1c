-- ===== src/Messages/Filter/Lists.antt =====
-- What the filters of pkg/filter and of internal/messages/service/filter.go do to a list.
use keydesk.Prelude.{
  ◌++◌, ◌-◌, All, Bool-cases, List, [], ap, arith, drop, inl, inr, length, ltb, refl, reverse, suc,
  true, zero, ℕ, ◌∷◌, ◌≡◌, ◌≤◌, length-drop, length-append, take, replicate,
}
use keydesk.Messages.Filter.{
  Func, func_filter, and_func, last_n, Message, ttl_expired, if_or_true, Time, not_func,
  ttl_after_time, no_ttl,
}
use mathlib.Core.List.{reverse-cons}

module _ {ℓ} {A : Type ℓ} (f : Func A) where
  pub func_filter-passed : (xs : List A) → All (λ x. f x ≡ true) xs → func_filter f xs ≡ xs
  unfolding func_filter
  func_filter-passed [] h = refl
  func_filter-passed (x ∷ xs) (p, h) = rw (p, func_filter-passed xs h) refl

  pub func_filter-All : (xs : List A) → All (λ x. f x ≡ true) (func_filter f xs)
  unfolding func_filter
  func_filter-All [] = tt
  func_filter-All (x ∷ xs) = elim (Bool-cases (f x)) [
    | inl p ↦ rw p (p, func_filter-All xs)
    | inr p ↦ rw p (func_filter-All xs)
  ]

  pub length-func_filter : (xs : List A) → length (func_filter f xs) ≤ length xs
  unfolding func_filter
  length-func_filter [] = omega arith
  length-func_filter (x ∷ xs) = ground (arith, length-func_filter xs)

  -- A filter keeps what holds of all elements.
  pub func_filter-keeps {κ} : (P : A → Type κ) (xs : List A) → All P xs → All P (func_filter f xs)
  unfolding func_filter
  func_filter-keeps P [] h = tt
  func_filter-keeps P (x ∷ xs) (p, h) = elim (Bool-cases (f x)) [
    | inl e ↦ rw e (p, func_filter-keeps P xs h)
    | inr e ↦ rw e (func_filter-keeps P xs h)
  ]

  pub func_filter-append :
      (xs ys : List A) → func_filter f (xs ++ ys) ≡ func_filter f xs ++ func_filter f ys
  unfolding func_filter
  func_filter-append [] ys = refl
  func_filter-append (x ∷ xs) ys = ground (arith, func_filter-append xs ys)

  -- One filter after another is the filter of both tests.
  pub func_filter-func_filter :
      (g : Func A) (xs : List A) → func_filter g (func_filter f xs) ≡ func_filter (and_func f g) xs
  unfolding func_filter and_func
  func_filter-func_filter g [] = refl
  func_filter-func_filter g (x ∷ xs) = ground (arith, func_filter-func_filter g xs)

  -- Tests that agree on a list filter it in the same way.
  pub func_filter-agree :
      (g : Func A) (xs : List A) → All (λ x. f x ≡ g x) xs → func_filter f xs ≡ func_filter g xs
  unfolding func_filter
  func_filter-agree g [] h = refl
  func_filter-agree g (x ∷ xs) (p, h) = ground (arith, p, func_filter-agree g xs h)

module _ {ℓ} {A : Type ℓ} where
  pub All-replicate {κ} : (P : A → Type κ) (n : ℕ) (a : A) → P a → All P (replicate n a)
  All-replicate P zero a h = tt
  All-replicate P (suc n) a h = (h, All-replicate P n a h)

  pub All-map {κ μ} :
      {P : A → Type κ} {Q : A → Type μ}
      → ((x : A) → P x → Q x)
      → (xs : List A) → All P xs
      → All Q xs
  All-map f [] h = tt
  All-map f (x ∷ xs) (p, h) = (f x p, All-map f xs h)

  pub All-zip {κ μ} :
      (P : A → Type κ) (Q : A → Type μ) (xs : List A)
      → All P xs
      → All Q xs
      → All (λ x. P x × Q x) xs
  All-zip P Q [] h k = tt
  All-zip P Q (x ∷ xs) (p, h) (q, k) = ((p, q), All-zip P Q xs h k)

  pub All-take {κ} : (P : A → Type κ) (n : ℕ) (xs : List A) → All P xs → All P (take n xs)
  All-take P zero xs h = tt
  All-take P (suc n) [] h = tt
  All-take P (suc n) (x ∷ xs) (p, h) = (p, All-take P n xs h)

  pub All-drop {κ} : (P : A → Type κ) (n : ℕ) (xs : List A) → All P xs → All P (drop n xs)
  All-drop P zero xs h = h
  All-drop P (suc n) [] h = tt
  All-drop P (suc n) (x ∷ xs) (p, h) = All-drop P n xs h

  pub All-append {κ} : (P : A → Type κ) (xs ys : List A) → All P xs → All P ys → All P (xs ++ ys)
  All-append P [] ys h k = k
  All-append P (x ∷ xs) ys (p, h) k = (p, All-append P xs ys h k)

  pub length-reverse : (xs : List A) → length (reverse xs) ≡ length xs
  length-reverse [] = refl
  length-reverse (x ∷ xs) =
      omega (
        arith,
        ap length (reverse-cons x xs),
        length-append (reverse xs) (x ∷ []),
        length-reverse xs,
      )

pub length-last_n : (n : ℕ) (ms : List Message) → length (last_n n ms) ≤ n
unfolding last_n
length-last_n n ms = ground (arith, length-drop (length ms - n) ms)

pub last_n-All {κ} :
    (P : Message → Type κ) (n : ℕ) (ms : List Message) → All P ms → All P (last_n n ms)
unfolding last_n
last_n-All P n ms h = elim (Bool-cases (ltb (length ms) n)) [
  | inl e ↦ rw e h
  | inr e ↦ rw e (All-drop P (length ms - n) ms h)
]

pub last_n-short : (n : ℕ) (ms : List Message) → length ms ≤ n → last_n n ms ≡ ms
unfolding last_n
last_n-short n ms h = elim (Bool-cases (ltb (length ms) n)) [
  | inl e ↦ rw e refl
  | inr e ↦
      let none_left : length ms - n ≡ 0 = omega (arith, h) in
      rw e (ap (λ (k : ℕ). drop k ms) none_left)
]

-- A message passes the first filter of a cleanup if its TTL has not passed, or if it has none.
pub unexpired :
    (now : Time) (ms : List Message)
    → All (λ m. ttl_after_time now m ≡ true) ms
    → All (λ m. ttl_expired now m ≡ true) ms
unfolding ttl_expired if_or_true
unexpired now [] h = tt
unexpired now (m ∷ ms) (p, h) = (ground (arith, p), unexpired now ms h)

pub untimed :
    (now : Time) (ms : List Message)
    → All (λ m. no_ttl m ≡ true) ms
    → All (λ m. ttl_expired now m ≡ true) ms
unfolding ttl_expired if_or_true not_func
untimed now [] h = tt
untimed now (m ∷ ms) (p, h) = (ground (arith, p), untimed now ms h)
