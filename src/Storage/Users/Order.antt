-- ===== src/Storage/Users/Order.antt =====
-- The stored users are in order after a user is added, and are the same users.
use keydesk.Prelude.Texts.{text_lt, text_lt-asym}
use keydesk.Storage.Users.{insert_user, sort_users, user_less, add_user}
use keydesk.Storage.Types.{User, Brigade}
use keydesk.Prelude.{
  ◌+◌, ◌++◌, Bool, List, [], arith, false, if◌then◌else◌, refl, ℕ, ◌∷◌, ◌≡◌, Bool-cases, inl, inr,
  true,
}

-- How many users pass a test.
abbrev pub count : (User → Bool) → List User → ℕ
count p [] = 0
count p (u ∷ us) = if p u then count p us + 1 else count p us

-- What the order of two users that stand next to each other is: a brigadier stands in front, and other
-- users by falling identifiers.
pub record Before (u v : User) : Type 0 where
  pub brigadier_first : v.is_brigadier ≡ true → u.is_brigadier ≡ true
  pub falling : u.is_brigadier ≡ false → text_lt u.user_id v.user_id ≡ false

abbrev pub BeforeHead : User → List User → Type 0
BeforeHead u [] = Unit
BeforeHead u (v ∷ us) = Before u v

abbrev pub IsSorted : List User → Type 0
IsSorted [] = Unit
IsSorted (u ∷ us) = BeforeHead u us × IsSorted us

count-append : (p : User → Bool) (us vs : List User) → count p (us ++ vs) ≡ count p us + count p vs
count-append p [] vs = omega arith
count-append p (u ∷ us) vs = ground (arith, count-append p us vs)

insert-count :
    (p : User → Bool) (u : User) (us : List User) → count p (insert_user u us) ≡ count p (u ∷ us)
unfolding insert_user
insert-count p u [] = refl
insert-count p u (v ∷ us) = ground (arith, insert-count p u us)

sort-count : (p : User → Bool) (us : List User) → count p (sort_users us) ≡ count p us
unfolding sort_users
sort-count p [] = refl
sort-count p (u ∷ us) = ground (arith, insert-count p u (sort_users us), sort-count p us)

less-Before : (u v : User) → user_less u v ≡ true → Before u v
unfolding user_less
less-Before u v h = record {
  brigadier_first = ground arith;
  falling = ground (arith, text_lt-asym v.user_id u.user_id);
}

not_less-Before : (u v : User) → user_less u v ≡ false → Before v u
unfolding user_less
not_less-Before u v h = record { brigadier_first = ground arith; falling = ground arith }

insert-BeforeHead :
    (v u : User) (us : List User) → Before v u → BeforeHead v us → BeforeHead v (insert_user u us)
unfolding insert_user
insert-BeforeHead v u [] b h = b
insert-BeforeHead v u (w ∷ us) b h = elim (Bool-cases (user_less u w)) [
  | inl e ↦ rw e b
  | inr e ↦ rw e h
]

insert-IsSorted : (u : User) (us : List User) → IsSorted us → IsSorted (insert_user u us)
unfolding insert_user
insert-IsSorted u [] h = (tt, tt)
insert-IsSorted u (v ∷ us) h = elim (Bool-cases (user_less u v)) [
  | inl e ↦ rw e (less-Before u v e, h)
  | inr e ↦ rw e (insert-BeforeHead v u us (not_less-Before u v e) h.0, insert-IsSorted u us h.1)
]

sort-IsSorted : (us : List User) → IsSorted (sort_users us)
unfolding sort_users
sort-IsSorted [] = tt
sort-IsSorted (u ∷ us) = insert-IsSorted u (sort_users us) (sort-IsSorted us)

-- After a user is added, the users are in order, brigadiers first and the others by falling
-- identifiers, and a test, whatever it is, is passed by as many of them as before, or one more if the
-- new user passes it.
pub add_user-IsSorted :
    (u : User) (b : Brigade) (p : User → Bool)
    → IsSorted (add_user u b).users
      × (count p (add_user u b).users ≡ count p b.users + (if p u then 1 else 0))
unfolding add_user
add_user-IsSorted u b p = (
  sort-IsSorted (b.users ++ u ∷ []),
  ground (arith, sort-count p (b.users ++ u ∷ []), count-append p b.users (u ∷ [])),
)
