-- ===== src/Messages/Filter.antt =====
-- pkg/filter/filter.go and internal/messages/service/filter.go: lists cut down by tests and by other
-- functions on lists. `none` stands for a panic.
pub mod Lists
use keydesk.Prelude.Ints.{ℤ, is_zero_int, moved_by, int_eq, int_less}
use keydesk.Prelude.{
  ◌&&◌, ◌-◌, Bool, List, Option, String, [], drop, if◌then◌else◌, length, ltb, none, not, some, suc,
  true, zero, ◌||◌, ℕ, ◌∷◌, bool_eq,
}
use text.Mathlib.Text.{◌==◌ as str_eq}
use keydesk.Clock.{Time}
use keydesk.Storage.Types.{Message}

-- `Func`, with `And`, `Or`, `Not` and `IfOrTrue`
abbrev pub Func {ℓ} : Type ℓ → Type ℓ
Func A = A → Bool

-- `Fn`, which is what the interface of a filter asks for
abbrev pub Fn {ℓ} : Type ℓ → Type ℓ
Fn A = List A → Option (List A)

module _ {ℓ} {A : Type ℓ} where
  unfoldable pub and_func : Func A → Func A → Func A
  and_func f f2 v = f v && f2 v

  unfoldable pub or_func : Func A → Func A → Func A
  or_func f f2 v = f v || f2 v

  unfoldable pub not_func : Func A → Func A
  not_func f v = not (f v)

  unfoldable pub if_or_true : Func A → Func A → Func A
  if_or_true f f2 v = if f2 v then f v else true

  -- `Func.Filter`
  unfoldable pub func_filter : Func A → List A → List A
  func_filter f [] = []
  func_filter f (v ∷ values) = let rest = func_filter f values in if f v then v ∷ rest else rest

  -- A filter that never panics.
  abbrev pub plain : (List A → List A) → Fn A
  plain f values = some (f values)

  -- `Filter`
  unfoldable pub filter_all : List A → List (Fn A) → Option (List A)
  filter_all values [] = some values
  filter_all values (f ∷ filters) = elim (f values) [
    | none ↦ none
    | some values' ↦ filter_all values' filters
  ]

  -- `Fn.Pipe`: the function that it is called on is not applied.
  unfoldable pub pipe : Fn A → List (Fn A) → Fn A
  pipe fn fns = λ values. filter_all values fns

-- `Ordered`, at integers
unfoldable pub ordered : String → ℤ → Option (Func ℤ)
ordered op v =
    if str_eq op "eq" || str_eq op "=="
    then some (λ t. int_eq t v)
    else if str_eq op "ne" || str_eq op "!="
    then some (λ t. not (int_eq t v))
    else if str_eq op "gt" || str_eq op ">"
    then some (λ t. int_less v t)
    else if str_eq op "lt" || str_eq op "<"
    then some (λ t. int_less t v)
    else if str_eq op "ge" || str_eq op ">="
    then some (λ t. not (int_less t v))
    else if str_eq op "le" || str_eq op "<="
    then some (λ t. not (int_less v t))
    else none

unfoldable pub no_ttl : Func Message
no_ttl m = is_zero_int m.ttl

-- `notOlder`, at a time of the clock
unfoldable pub not_older : Time → ℕ → Func Message
not_older now d m = ltb (now - d) m.created_at

unfoldable pub ttl_after_time : Time → Func Message
ttl_after_time t m = ltb t (moved_by m.created_at m.ttl)

unfoldable pub ttl_expired : Time → Func Message
ttl_expired now = if_or_true (ttl_after_time now) (not_func no_ttl)

-- `firstN`, as the filter that it is used as: the count is of the messages seen so far.
unfoldable pub first_n : ℕ → List Message → List Message
first_n n [] = []
first_n zero (m ∷ ms) = first_n zero ms
first_n (suc n) (m ∷ ms) = m ∷ first_n n ms

unfoldable pub last_n : ℕ → List Message → List Message
last_n n values = if ltb (length values) n then values else drop (length values - n) values

unfoldable pub is_read_filter : Bool → Func Message
is_read_filter b m = bool_eq m.is_read b

-- `priorityFilter` as a filter of a list: the operator is looked at at the first message.
unfoldable pub priority_filter : String → ℤ → List Message → Option (List Message)
priority_filter op priority [] = some []
priority_filter op priority (m ∷ ms) = elim (ordered op priority) [
  | none ↦ none
  | some f ↦ some (func_filter (λ m. f m.priority) (m ∷ ms))
]
