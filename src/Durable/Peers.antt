-- ===== src/Durable/Peers.antt =====
-- Deleting, blocking and unblocking a user where no call fails: what is stored, and what the endpoint
-- is told.
use keydesk.World.Api.{wg_peer_del, wg_peer_add, get_api_request}
use keydesk.Storage.Types.{User, Brigade, ip6, Uuid, Bytes}
use keydesk.Clock.{Time}
use keydesk.World.{
  World, Request, Body, Result, peer_del, peer_add, Reply, ok, answer, err, json, and_then, M, pure,
  Files, ◌>>=◌, raise, user_not_found, ◌>>◌,
}
use keydesk.Storage.Db.{BrigadeStorage, upgraded, commit_brigade, open_with_reading}
use keydesk.Prelude.{
  ◌++◌, Bool, List, [], arith, if◌then◌else◌, true, ℕ, ◌∷◌, ◌≡◌, ap, none, some, subst, sym, ◌∙◌,
  Bool-cases, Option, inl, inr, refl, false,
}
use text.Mathlib.Text.{◌==◌ as str_eq}
use keydesk.Durable.Calm.{
  Holds, Opens, open_with_reading-Opens, Stores, commit_brigade-Stores, upgraded-id,
}
use keydesk.Storage.Removal.{
  drop_peer, add_peer, key_given, delete_user, unblock_user, find_user, is_named, blocked_at_time,
  unblocked,
}

-- The endpoint has an address, and does what it is asked to next.
pub record Answers (db : BrigadeStorage) (w : World) : Type 0 where
  pub host : ℕ
  pub has_host : db.actual_addr_port.addr ≡ ip6 host
  pub body : Body
  pub rest : List Reply
  pub next : w.replies ≡ answer body ∷ rest
  pub success : str_eq body.code "0" ≡ true

-- A step that gives `u` and changes nothing but the endpoint, which has accepted these requests.
abbrev Changes : World → User → List Request → Result User × World → Type 0
Changes w u requests (ok u', w') =
    (u' ≡ u) × (w'.fates ≡ w.fates) × (w'.brigade ≡ w.brigade) × (w'.accepted ≡ requests)
Changes w u requests (err e, w') = ⊥

-- What a user becomes when it is blocked, and when it is unblocked.
abbrev pub after_block : Time → User → User
after_block now u = if u.is_blocked then u else blocked_at_time now u

abbrev pub after_unblock : User → User
after_unblock u = if u.is_blocked then unblocked u else u

abbrev pub del_request : Brigade → User → World → List Request
del_request b u w =
    if u.is_blocked then w.accepted else w.accepted ++ peer_del u.wg_public_key b.wg_public_key ∷ []

abbrev pub add_request : Brigade → User → World → List Request
add_request b u w =
    if u.is_blocked then w.accepted ++ peer_add u.wg_public_key b.wg_public_key ∷ [] else w.accepted

still_Answers :
    (db : BrigadeStorage) (w w' : World) → w'.replies ≡ w.replies → Answers db w → Answers db w'
still_Answers db w w' q a = record {
  host = a.host;
  has_host = a.has_host;
  body = a.body;
  rest = a.rest;
  next = q ∙ a.next;
  success = a.success;
}

drop_peer-Changes :
    (db : BrigadeStorage) (b : Brigade) (only : Bool) (now : Time) (u : User) (w : World)
    → Answers db w
    → Changes w
        (if only then after_block now u else u)
        (del_request b u w)
        (drop_peer db b only now u w)
unfolding drop_peer wg_peer_del get_api_request
drop_peer-Changes db b only now u w h = ground (arith, h.has_host, h.next, h.success)

add_peer-Changes :
    (db : BrigadeStorage) (b : Brigade) (u : User) (w : World)
    → Answers db w
    → Changes w (after_unblock u) (add_request b u w) (add_peer db b u w)
unfolding add_peer wg_peer_add get_api_request
add_peer-Changes db b u w h = ground (arith, h.has_host, h.next, h.success)

-- A user that a step gives is put back into the brigade, and the brigade is stored.
store_changed :
    (db : BrigadeStorage) (old b : Brigade) (put : User → Brigade) (w : World) (u : User)
    (requests : List Request)
    → Holds db old w
    → w.brigade.bak ≡ some (json old)
    → ((v : User) → str_eq (put v).brigade_id db.brigade_id ≡ true)
    → (r : Result User × World) → Changes w u requests r
    → Stores db tt (put u) old requests (and_then r (λ v. commit_brigade (put v)))
store_changed db old b put w u requests h k i (ok v, w') (e, f, s, a) =
    subst (λ t. Stores db tt (put t) old requests (commit_brigade (put v) w')) e
      (subst (λ t. Stores db tt (put v) old t (commit_brigade (put v) w')) a
        (commit_brigade-Stores db old (put v) w'
          (record {
            no_failure = f ∙ h.no_failure;
            main_json = ap (λ (t : Files Brigade). t.main) s ∙ h.main_json;
            not_linked = ap (λ (t : Files Brigade). t.linked) s ∙ h.not_linked;
            own_id = h.own_id;
          })
          (ap (λ (t : Files Brigade). t.bak) s ∙ k) (i v)))
store_changed db old b put w u requests h k i (err e, w') c = c

-- The users after a deletion, or after a blocking, of the user between `l` and `r`.
abbrev pub without : Brigade → Bool → Time → List User → User → List User → Brigade
without b only now l u r = record (upgraded b) {
  users = (if only then l ++ after_block now u ∷ r else l ++ r);
}

-- Where no call fails, the first user with this identifier and rank is taken out, or stays and is
-- blocked if that is asked for; the others stay in their order, the backup holds the brigade as it
-- was, and the endpoint deletes the user's peer, unless it was blocked before.
pub delete_user-Stores :
    (db : BrigadeStorage) (b : Brigade) (id : Uuid) (brigadier only : Bool) (now : Time) (w : World)
    (l : List User) (u : User) (r : List User)
    → Holds db b w
    → Answers db w
    → find_user (is_named id brigadier) (upgraded b).users ≡ some (l, u, r)
    → Stores db tt
        (without b only now l u r)
        b
        (del_request (upgraded b) u w)
        (delete_user db id brigadier only now w)
unfolding delete_user
delete_user-Stores db b id br only now w l u r h a f =
    go (open_with_reading db w) (open_with_reading-Opens db b w h)
  where
    b' : Brigade
    b' = upgraded b

    put : List User → List User → Brigade → User → Brigade
    put l r c v = record c { users = (if only then l ++ v ∷ r else l ++ r) }

    step : Brigade → Option (List User × User × List User) → M (Unit {0})
    step c none = pure tt
    step c (some (l', v, r')) = drop_peer db c only now v >>= λ v'. commit_brigade (put l' r' c v')

    Goal : Result (Unit {0}) × World → Type 0
    Goal = Stores db tt (without b only now l u r) b (del_request b' u w)

    own : Holds db b w → (v : User) → str_eq (put l r b' v).brigade_id db.brigade_id ≡ true
    own h' v = rw (upgraded-id b) h'.own_id

    put_user : without b only now l u r ≡ put l r b' (if only then after_block now u else u)
    put_user = elim (Bool-cases only) [ inl e ↦ rw e refl | inr e ↦ rw e refl ]

    go :
        (o : Result Brigade × World)
        → Opens db b w o
        → Goal (and_then o (λ c. step c (find_user (is_named id br) c.users)))
    go (ok c, w') (e, h', k, q, p, t) =
        subst (λ x. Goal (step x (find_user (is_named id br) x.users) w')) (sym e)
          (subst (λ o. Goal (step b' o w')) (sym f)
            (subst (λ x. Stores db tt x b (del_request b' u w) (step b' (some (l, u, r)) w'))
              (sym put_user)
              (store_changed db b b' (put l r b') w' (if only then after_block now u else u)
                (del_request b' u w) h' k (own h) (drop_peer db b' only now u w')
                (subst
                  (λ x.
                    Changes w' (if only then after_block now u else u)
                      (if u.is_blocked
                        then x
                        else x ++ peer_del u.wg_public_key b'.wg_public_key ∷ [])
                      (drop_peer db b' only now u w'))
                  p (drop_peer-Changes db b' only now u w' (still_Answers db w w' q a))))))
    go (err e, w') k = k

key_given-keyed : (key : Bytes) → str_eq key "" ≡ false → key_given key ≡ pure tt
unfolding key_given
key_given-keyed key h = rw h refl

-- Where no call fails, the first user with this identifier is unblocked in its place, if it has a key;
-- the others stay as they are, the backup holds the brigade as it was, and the endpoint adds the user's
-- peer, unless the user was not blocked.
pub unblock_user-Stores :
    (db : BrigadeStorage) (b : Brigade) (id : Uuid) (w : World) (l : List User) (u : User)
    (r : List User)
    → Holds db b w
    → Answers db w
    → find_user (λ v. str_eq v.user_id id) (upgraded b).users ≡ some (l, u, r)
    → str_eq u.wg_public_key "" ≡ false
    → Stores db tt
        (record (upgraded b) { users = l ++ after_unblock u ∷ r })
        b
        (add_request (upgraded b) u w)
        (unblock_user db id w)
unfolding unblock_user
unblock_user-Stores db b id w l u r h a f has_key =
    go (open_with_reading db w) (open_with_reading-Opens db b w h)
  where
    b' : Brigade
    b' = upgraded b

    put : Brigade → User → Brigade
    put c v = record c { users = l ++ v ∷ r }

    step : Brigade → Option (List User × User × List User) → M (Unit {0})
    step c none = raise user_not_found
    step c (some (l', v, r')) = add_peer db c v >>= λ v'.
        key_given v.wg_public_key >> commit_brigade (record c { users = l' ++ v' ∷ r' })

    Goal : Result (Unit {0}) × World → Type 0
    Goal = Stores db tt (put b' (after_unblock u)) b (add_request b' u w)

    own : Holds db b w → (v : User) → str_eq (put b' v).brigade_id db.brigade_id ≡ true
    own h' v = rw (upgraded-id b) h'.own_id

    last : Result User × World → Result (Unit {0}) × World
    last o = and_then o (λ v'. key_given u.wg_public_key >> commit_brigade (put b' v'))

    last_keyed : (o : Result User × World) → last o ≡ and_then o (λ v'. commit_brigade (put b' v'))
    last_keyed (ok v, w') =
        ap (λ (m : M (Unit {0})). (m >> commit_brigade (put b' v)) w')
          (key_given-keyed u.wg_public_key has_key)
    last_keyed (err e, w') = refl

    go :
        (o : Result Brigade × World)
        → Opens db b w o
        → Goal (and_then o (λ c. step c (find_user (λ v. str_eq v.user_id id) c.users)))
    go (ok c, w') (e, h', k, q, p, t) =
        subst (λ x. Goal (step x (find_user (λ v. str_eq v.user_id id) x.users) w')) (sym e)
          (subst (λ o. Goal (step b' o w')) (sym f)
            (subst Goal (sym (last_keyed (add_peer db b' u w'))) (
              store_changed db b b' (put b') w' (after_unblock u) (add_request b' u w) h' k (own h)
                (add_peer db b' u w')
                (subst
                  (λ x.
                    Changes w' (after_unblock u)
                      (if u.is_blocked
                        then x ++ peer_add u.wg_public_key b'.wg_public_key ∷ []
                        else x)
                      (add_peer db b' u w'))
                  p (add_peer-Changes db b' u w' (still_Answers db w w' q a))))))
    go (err e, w') k = k
