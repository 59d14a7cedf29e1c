-- ===== src/Service/Deletion.antt =====
-- What `DeleteUser` of the users' service does to a brigade, and that it takes back a creation.
use keydesk.Prelude.Ints.{int_minus}
use keydesk.World.Api.{AddrPort}
use keydesk.Service.Creation.{IfDone}
use keydesk.Vpn.Generators.{Secrets}
use keydesk.Storage.Removal.{find_user, blocked_at_time}
use keydesk.Prelude.Ints.{ℤ, pos}
use keydesk.Durable.Peers.{after_block}
use keydesk.Service.NewUsers.{ServiceDraws}
use keydesk.Vpn.Client.{client_peer_del, client_call, client_answer, decode_response}
use keydesk.Storage.Types.{User, Brigade, Uuid, no_addr}
use keydesk.Service.Users.{
  drop_service_peer, slots_info, Service, delete_in, key_checked, create_in, Created,
}
use keydesk.Clock.{Time}
use keydesk.Prelude.{
  ◌++◌, ◌-◌, Bool, List, String, arith, false, if◌then◌else◌, length, some, ◌∷◌, ◌≡◌, Bool-cases,
  [], inl, inr, refl, ◌<◌, ap, ℕ, ◌∙◌, append-nil, true, sym,
}
use text.Mathlib.Text.{◌==◌ as str_eq}
use keydesk.World.{Result, ok, err, World, Body, Reply, answer, peer_del, Request}
use keydesk.Service.Creation.{IfDone, IfDone-then, IfDone-ok, Adds, create_in-Adds}

-- The users after a deletion, or after a blocking.
abbrev pub left_users : Bool → Time → List User → User → List User → List User
left_users only now l u r = if only then l ++ after_block now u ∷ r else l ++ r

-- What is left of a brigade where the user is between `l` and `r`: the slots are counted anew.
pub record Drops (only : Bool) (now : Time) (b : Brigade) (l : List User) (u : User) (r : List User)
    (b' : Brigade) (free : ℤ) : Type 0 where
  pub users : b'.users ≡ left_users only now l u r
  pub slots : free ≡ int_minus b.max_users (length b'.users)

drop_service_peer-user :
    (s : Service) (b : Brigade) (only : Bool) (now : Time) (u : User) (w : World)
    → IfDone
        (λ v. (if only then v else u) ≡ (if only then after_block now u else u))
        (drop_service_peer s b only now u w)
unfolding drop_service_peer client_peer_del client_call client_answer decode_response
drop_service_peer-user s b only now u w = ground arith

-- Whatever the endpoint answers, where the first user with the identifier is between `l` and `r`, a
-- deletion that is done leaves the others in their order, a blocking leaves the user too, as blocked,
-- and the free slots are those of the brigade that is left.
pub delete_in-Drops :
    (s : Service) (id : Uuid) (only : Bool) (now : Time) (b : Brigade) (w : World) (l : List User)
    (u : User) (r : List User)
    → find_user (λ v. str_eq v.user_id id) b.users ≡ some (l, u, r)
    → IfDone (λ d. Drops only now b l u r d.0 d.1) (delete_in s id only now b w)
unfolding slots_info delete_in
delete_in-Drops s id only now b w l u r h =
    rw (delete_in, h)
      (IfDone-then _ (key_checked s u.wg_public_key w) _ λ t w1 e1.
        IfDone-then _ (key_checked s b.wg_public_key w1) _ λ t w2 e2.
          IfDone-then _ (drop_service_peer s b only now u w2) _ λ v w3 e3. record {
            users = kept v (
                IfDone-ok _ (drop_service_peer s b only now u w2) v e3
                  (drop_service_peer-user s b only now u w2));
            slots = refl;
          })
  where
    kept :
        (v : User)
        → (if only then v else u) ≡ (if only then after_block now u else u)
        → (if only then l ++ v ∷ r else l ++ r) ≡ left_users only now l u r
    kept v e = elim (Bool-cases only) [ inl t ↦ ground (arith, t, e) | inr t ↦ ground (arith, t) ]

client_call-done :
    (to : AddrPort) (q : Request) (w : World) (body : Body) (cert : String) (rest : List Reply)
    → (to.addr ≡ no_addr → ⊥)
    → w.replies ≡ answer body ∷ rest
    → decode_response body ≡ ok cert
    → client_call to q w ≡ (ok cert, record w { replies = rest; accepted = w.accepted ++ q ∷ [] })
unfolding client_call client_answer
client_call-done to q w body cert rest na rep dec = ground (arith, na, rep, dec)

drop_service_peer-done :
    (s : Service) (b : Brigade) (only : Bool) (now : Time) (u : User) (w w' : World) (cert : String)
    → u.is_blocked ≡ false
    → client_call s.endpoint (peer_del u.wg_public_key b.wg_public_key) w ≡ (ok cert, w')
    → drop_service_peer s b only now u w ≡ (ok (if only then blocked_at_time now u else u), w')
unfolding drop_service_peer client_peer_del
drop_service_peer-done s b only now u w w' cert nb done = ground (arith, nb, done)

-- Where the keys are sound and the user is not blocked, an endpoint that takes the request makes the
-- operation succeed: the request is the only one sent, and the brigade and the free slots are those of
-- `Drops`.
pub delete_in-done :
    (s : Service) (id : Uuid) (only : Bool) (now : Time) (b : Brigade) (w : World) (l : List User)
    (u : User) (r : List User) (body : Body) (cert : String) (rest : List Reply)
    → find_user (λ v. str_eq v.user_id id) b.users ≡ some (l, u, r)
    → s.codecs.is_key u.wg_public_key ≡ true
    → s.codecs.is_key b.wg_public_key ≡ true
    → u.is_blocked ≡ false
    → (s.endpoint.addr ≡ no_addr → ⊥)
    → w.replies ≡ answer body ∷ rest
    → decode_response body ≡ ok cert
    → delete_in s id only now b w ≡ (
      ok (
        record b { users = left_users only now l u r },
        int_minus b.max_users (length (left_users only now l u r)),
      ),
      record w {
        replies = rest;
        accepted = w.accepted ++ peer_del u.wg_public_key b.wg_public_key ∷ [];
      },
    )
unfolding delete_in key_checked slots_info
delete_in-done s id only now b w l u r body cert rest h ku kb nb na rep dec =
    let done =
      client_call-done s.endpoint (peer_del u.wg_public_key b.wg_public_key) w body cert rest na rep
        dec in
    let dropped = drop_service_peer-done s b only now u w _ cert nb done in go only dropped
  where
    go :
        (only : Bool)
        → drop_service_peer s b only now u w ≡ (
          ok (if only then blocked_at_time now u else u),
          record w {
            replies = rest;
            accepted = w.accepted ++ peer_del u.wg_public_key b.wg_public_key ∷ [];
          },
        )
        → delete_in s id only now b w ≡ (
          ok (
            record b { users = left_users only now l u r },
            int_minus b.max_users (length (left_users only now l u r)),
          ),
          record w {
            replies = rest;
            accepted = w.accepted ++ peer_del u.wg_public_key b.wg_public_key ∷ [];
          },
        )
    go false dropped = rw (delete_in, h, ku, kb, dropped) refl
    go true dropped =
        rw (delete_in, h, ku, kb, dropped)
          (ap
            (λ (v : User). (
              ok (record b { users = l ++ v ∷ r }, int_minus b.max_users (length (l ++ v ∷ r))),
              record w {
                replies = rest;
                accepted = w.accepted ++ peer_del u.wg_public_key b.wg_public_key ∷ [];
              },
            ))
            (sym (ap (λ t. if t then u else blocked_at_time now u) nb)))

int_minus-pos : (m n : ℕ) → n < m → int_minus m n ≡ pos (m - n)
unfolding int_minus
int_minus-pos m n h = ground (arith, h)

IfDone-map :
    {A : Type 0} (P Q : A → Type 0)
    → ((a : A) → P a → Q a)
    → (r : Result A × World) → IfDone P r
    → IfDone Q r
IfDone-map P Q f (ok a, w) h = f a h
IfDone-map P Q f (err e, w) h = tt

-- Whatever is drawn, generated and answered, deleting the user that was just created, where both are
-- done, leaves the users and the free slots that there were before.
pub create_in-delete_in :
    (s : Service) (d : ServiceDraws) (secrets : Secrets) (now : Time) (configs : List String)
    (asked : String) (b : Brigade) (w later : World) (after : Time)
    → IfDone
        (λ r.
          IfDone
            (λ x. (x.0.users ≡ b.users) × (x.1 ≡ pos (b.max_users - length b.users)))
            (delete_in s r.1.uuid false after r.0 later))
        (create_in s d secrets now configs asked b w)
create_in-delete_in s d secrets now configs asked b w later after =
    IfDone-map _ _ taken_back _ (create_in-Adds s d secrets now configs asked b w)
  where
    restored :
        (r : Brigade × Created) (a : Adds b r.0 r.1) (x : Brigade × ℤ)
        → Drops false after r.0 b.users a.user [] x.0 x.1
        → (x.0.users ≡ b.users) × (x.1 ≡ pos (b.max_users - length b.users))
    restored r a x h =
        let same = h.users ∙ append-nil b.users in
        (
          same,
          h.slots
              ∙ ap (λ m. int_minus m (length x.0.users)) a.same_max
              ∙ ap (λ us. int_minus b.max_users (length us)) same
              ∙ int_minus-pos b.max_users (length b.users) a.room,
        )

    taken_back :
        (r : Brigade × Created)
        → Adds b r.0 r.1
        → IfDone
            (λ x. (x.0.users ≡ b.users) × (x.1 ≡ pos (b.max_users - length b.users)))
            (delete_in s r.1.uuid false after r.0 later)
    taken_back r a =
        IfDone-map _ _ (restored r a) _
          (delete_in-Drops s r.1.uuid false after r.0 later b.users a.user [] a.found)
