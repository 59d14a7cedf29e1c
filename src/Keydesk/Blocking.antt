-- ===== src/Keydesk/Blocking.antt =====
-- The handlers of keydesk/user.go that block and unblock a user take each other back.
use keydesk.Clock.{Time, zero_time}
use keydesk.Durable.Calm.{Holds, Stores}
use keydesk.Durable.Peers.{
  Answers, after_block, after_unblock, without, delete_user-Stores, unblock_user-Stores,
}
use keydesk.Keydesk.Users.{handle_block_user, handle_unblock_user, or_forbidden}
use keydesk.Messages.Handlers.{payload}
use keydesk.Prelude.{
  ◌++◌, List, [], ap, arith, false, refl, some, subst, sym, true, ◌∙◌, ◌∷◌, ◌≡◌, if◌then◌else◌,
}
use keydesk.Storage.Db.{BrigadeStorage, upgraded}
use keydesk.Storage.Db.Upgrades.{IsUpgraded-upgraded, upgraded-IsUpgraded}
use keydesk.Storage.Removal.{blocked_at_time, find_user, is_named, delete_user, unblock_user}
use keydesk.Storage.Removal.Found.{Found, find_user-Found}
use keydesk.Storage.Types.{Brigade, User, Uuid}
use keydesk.World.{Files, Request, Result, World, err, json, ok}
use text.Mathlib.Text.{◌==◌ as str_eq}

-- The answer of a handler whose operation stores a brigade.
Stores-answered :
    (db : BrigadeStorage) (b old : Brigade) (requests : List Request)
    (r : Result (Unit {0}) × World)
    → Stores db tt b old requests r
    → ((or_forbidden r).0 ≡ payload tt) × Holds db b (or_forbidden r).1
unfolding or_forbidden
Stores-answered db b old requests (ok t, w) (e, h, k, q) = (refl, h)
Stores-answered db b old requests (err e, w) k = absurd k

-- Reading leaves a brigade alone that differs from one that was read in its users.
upgraded-users :
    (b : Brigade) (us : List User)
    → upgraded (record (upgraded b) { users = us }) ≡ record (upgraded b) { users = us }
upgraded-users b us =
    let i = IsUpgraded-upgraded b in
    upgraded-IsUpgraded (record (upgraded b) { users = us })
      (record { has_mode = i.has_mode; has_domain = i.has_domain; has_port = i.has_port })

unblocked-blocked :
    (now : Time) (u : User)
    → u.is_blocked ≡ false
    → u.blocked_at ≡ zero_time
    → after_unblock (after_block now u) ≡ u
unblocked-blocked now u h k =
    ap (λ t. after_unblock (if t then u else blocked_at_time now u)) h
    ∙ ap (λ t. record u { is_blocked = t; blocked_at = zero_time }) (sym h)
    ∙ ap (λ t. record u { blocked_at = t }) (sym k)

-- Where no call of the file system fails and the endpoint does what it is asked, blocking a user who is
-- no brigadier, has a key, and was not blocked, and unblocking it later, with the file as the blocking
-- has left it, are both answered with success, and the file holds the brigade as it was read before.
pub block-unblock :
    (db : BrigadeStorage) (b : Brigade) (id : Uuid) (now : Time) (w w2 : World) (l : List User)
    (u : User) (r : List User)
    → Holds db b w
    → Answers db w
    → find_user (λ v. str_eq v.user_id id) (upgraded b).users ≡ some (l, u, r)
    → u.is_brigadier ≡ false
    → u.is_blocked ≡ false
    → u.blocked_at ≡ zero_time
    → str_eq u.wg_public_key "" ≡ false
    → w2.brigade ≡ (handle_block_user db id now w).1.brigade
    → w2.fates ≡ []
    → Answers db w2
    → ((handle_block_user db id now w).0 ≡ payload tt)
      × ((handle_unblock_user db id w2).0 ≡ payload tt)
      × ((handle_unblock_user db id w2).1.brigade.main ≡ some (json (upgraded b)))
unfolding handle_block_user handle_unblock_user
block-unblock db b id now w w2 l u r h a f nb ni nt key same calm a2 =
    let st = delete_user-Stores db b id false true now w l u r h a named in
    let (ok1, h1) = Stores-answered db blocked b _ (delete_user db id false true now w) st in
    let held : Holds db blocked w2 = record {
      no_failure = calm;
      main_json = ap (λ (t : Files Brigade). t.main) same ∙ h1.main_json;
      not_linked = ap (λ (t : Files Brigade). t.linked) same ∙ h1.not_linked;
      own_id = h1.own_id;
    } in
    let st2 =
      unblock_user-Stores db blocked id w2 l (after_block now u) r held a2 found2
        (subst (λ (v : User). str_eq v.wg_public_key "" ≡ false) blocking key) in
    let (ok2, h2) = Stores-answered db _ blocked _ (unblock_user db id w2) st2 in
    (ok1, ok2, h2.main_json ∙ ap (λ x. some (json x)) back)
  where
    blocked : Brigade
    blocked = without b true now l u r

    at : Found (λ v. str_eq v.user_id id) (upgraded b).users l u r
    at = find_user-Found (λ v. str_eq v.user_id id) (upgraded b).users l u r f

    named : find_user (is_named id false) (upgraded b).users ≡ some (l, u, r)
    named =
        subst (λ us. find_user (is_named id false) us ≡ some (l, u, r)) (sym at.splits)
          (at.first (is_named id false) u (λ x e. ground (arith, e))
            (ground (arith, at.passes, nb)))

    blocking : blocked_at_time now u ≡ after_block now u
    blocking = ap (λ t. if t then u else blocked_at_time now u) (sym ni)

    found2 :
        find_user (λ v. str_eq v.user_id id) (upgraded blocked).users
        ≡ some (l, after_block now u, r)
    found2 =
        subst
          (λ (x : Brigade).
            find_user (λ v. str_eq v.user_id id) x.users ≡ some (l, after_block now u, r))
          (sym (upgraded-users b blocked.users))
          (at.first (λ v. str_eq v.user_id id) (after_block now u) (λ x e. e)
            (subst (λ (v : User). str_eq v.user_id id ≡ true) blocking at.passes))

    back :
        record (upgraded blocked) { users = l ++ after_unblock (after_block now u) ∷ r }
        ≡ upgraded b
    back =
        ap (λ (x : Brigade). record x { users = l ++ after_unblock (after_block now u) ∷ r })
          (upgraded-users b blocked.users)
        ∙ ap (λ v. record (upgraded b) { users = l ++ v ∷ r }) (unblocked-blocked now u ni nt)
        ∙ ap (λ us. record (upgraded b) { users = us }) (sym at.splits)
