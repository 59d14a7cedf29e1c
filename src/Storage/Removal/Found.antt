-- ===== src/Storage/Removal/Found.antt =====
-- Where the search for a user in keydesk/storage/user.go finds it.
use keydesk.Prelude.{
  ◌++◌, Bool, Bool-cases, List, Option, Option-cases, [], ap, arith, false, inl, inr, none, refl,
  some, subst, true, ◌∷◌, ◌≡◌,
}
use keydesk.Storage.Removal.{find_user}
use keydesk.Storage.Types.{User}

-- A search finds the user between `l` and `r`. Whoever stands there is found, also by a test that
-- passes fewer users.
pub record Found (p : User → Bool) (us l : List User) (u : User) (r : List User) : Type 0 where
  pub passes : p u ≡ true
  pub splits : us ≡ l ++ u ∷ r
  pub first :
      (q : User → Bool) (v : User)
      → ((x : User) → p x ≡ false → q x ≡ false)
      → q v ≡ true
      → find_user q (l ++ v ∷ r) ≡ some (l, v, r)

pub find_user-Found :
    (p : User → Bool) (us l : List User) (u : User) (r : List User)
    → find_user p us ≡ some (l, u, r)
    → Found p us l u r
unfolding find_user
find_user-Found p [] l u r h = absurd (ground (arith, h))
find_user-Found p (x ∷ us) l u r h = elim (Bool-cases (p x)) [
  | inl e ↦
      let same : some ([], x, us) ≡ some (l, u, r) = ground (arith, h, e) in
      subst (At (x ∷ us)) same
        (record { passes = e; splits = refl; first = λ q v n k. rw (find_user, k) refl })
  | inr e ↦ elim (Option-cases (find_user p us)) [
    | inl k ↦ absurd (ground (arith, h, e, k))
    | inr ((l', u', r'), k) ↦
        let same : some (x ∷ l', u', r') ≡ some (l, u, r) = ground (arith, h, e, k) in
        let rest = find_user-Found p us l' u' r' k in
        subst (At (x ∷ us)) same (record {
          passes = rest.passes;
          splits = ap (λ t. x ∷ t) rest.splits;
          first = λ q v n j. rw (find_user, n x e, rest.first q v n j) refl;
        })
  ]
]
  where
    At : List User → Option (List User × User × List User) → Type 0
    At us none = Unit
    At us (some (l, u, r)) = Found p us l u r
