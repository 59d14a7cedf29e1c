-- ===== src/Messages/Service/Wanted.antt =====
-- Which messages the filters of a query leave.
use keydesk.Prelude.Ints.{int_less, int_eq, not_less-ge, int_eq-sym}
use keydesk.Prelude.{
  ◌&&◌, ◌++◌, Bool, List, Option, String, [], ap, arith, fun_ext, none, not, refl, some, true, ◌||◌,
  ◌∙◌, ◌∷◌, ◌≡◌, bool_eq, All, sym,
}
use keydesk.Messages.Filter.{
  filter_all, func_filter, and_func, priority_filter, ordered, is_read_filter,
}
use keydesk.Messages.Filter.Lists.{func_filter-func_filter, func_filter-passed, func_filter-agree}
use keydesk.Messages.Service.{Query, query_filters, read_filters, priority_filters, ℤ, Message}

-- The operators of the API's description, with their names and what they ask of two priorities.
pub data Op : Type 0 where
  eq ne gt lt ge le : Op

abbrev pub op_name : Op → String
op_name eq = "eq"
op_name ne = "ne"
op_name gt = "gt"
op_name lt = "lt"
op_name ge = "ge"
op_name le = "le"

abbrev pub holds_op : Op → ℤ → ℤ → Bool
holds_op eq t v = int_eq t v
holds_op ne t v = not (int_eq t v)
holds_op gt t v = int_less v t
holds_op lt t v = int_less t v
holds_op ge t v = int_eq t v || int_less v t
holds_op le t v = int_eq t v || int_less t v

abbrev wants_read : Option Bool → Message → Bool
wants_read none m = true
wants_read (some r) m = bool_eq m.is_read r

abbrev wants_priority : Op → Option ℤ → Message → Bool
wants_priority op none m = true
wants_priority op (some p) m = holds_op op m.priority p

-- A message has what a query asks for: whether it is read, and its priority.
abbrev pub wanted : Option Bool → Op → Option ℤ → Message → Bool
wanted read op priority m = wants_read read m && wants_priority op priority m

ordered-op : (op : Op) (v : ℤ) → ordered (op_name op) v ≡ some (λ t. holds_op op t v)
unfolding ordered
ordered-op eq v = refl
ordered-op ne v = refl
ordered-op gt v = refl
ordered-op lt v = refl
ordered-op ge v = ap some (fun_ext (λ t. not_less-ge t v))
ordered-op le v =
    ap some (fun_ext (λ t. not_less-ge v t ∙ ap (λ b. b || int_less t v) (int_eq-sym v t)))

priority_filter-wants :
    (op : Op) (p : ℤ) (ms : List Message)
    → priority_filter (op_name op) p ms ≡ some (func_filter (wants_priority op (some p)) ms)
unfolding priority_filter
priority_filter-wants op p [] =
    let none_left = func_filter-passed (wants_priority op (some p)) [] tt in ap some (sym none_left)
priority_filter-wants op p (m ∷ ms) = rw (priority_filter, ordered-op op p) refl

-- The filters of a query whose operator is one of the six leave, in order, the messages that have
-- what the query asks for, and do not panic.
pub query_filters-wanted :
    (q : Query) (op : Op) (ms : List Message)
    → q.priority_op ≡ op_name op
    → filter_all ms (query_filters q) ≡ some (func_filter (wanted q.read op q.priority) ms)
unfolding query_filters read_filters priority_filters filter_all is_read_filter and_func
query_filters-wanted q op ms h = rw h (go q.read q.priority)
  where
    all_wanted : (ms : List Message) → All (λ m. wanted none op none m ≡ true) ms
    all_wanted [] = tt
    all_wanted (m ∷ ms) = (refl, all_wanted ms)

    agree :
        (r : Bool) (ms : List Message)
        → All (λ m. is_read_filter r m ≡ wanted (some r) op none m) ms
    agree r [] = tt
    agree r (m ∷ ms) = (ground arith, agree r ms)

    go :
        (r : Option Bool) (p : Option ℤ)
        → filter_all ms (read_filters r ++ priority_filters (op_name op) p)
          ≡ some (func_filter (wanted r op p) ms)
    go none none = ap some (sym (func_filter-passed (wanted none op none) ms (all_wanted ms)))
    go (some r) none = ap some (func_filter-agree _ _ ms (agree r ms))
    go none (some p) = rw (filter_all, priority_filter-wants op p ms) refl
    go (some r) (some p) =
        rw (filter_all, priority_filter-wants op p (func_filter (is_read_filter r) ms))
          (ap some (func_filter-func_filter (is_read_filter r) (wants_priority op (some p)) ms))
