-- ===== src/Shuffler/Unknown.antt =====
-- What the shuffler's API of internal/shuffler/app/run.go answers about a user that the brigade does
-- not have.
use keydesk.Clock.{Time}
use keydesk.Durable.Calm.{Holds, Opens, Stores, open_with_reading-Opens, upgraded-id}
use keydesk.Messages.Handlers.{Responder, failure}
use keydesk.Messages.Service.Transactions.{Refuses}
use keydesk.Prelude.{
  Option, ◌++◌, ◌∷◌, List, Bool, none, refl, some, subst, sym, true, false, ◌≡◌, ◌∙◌, ap, ℕ,
}
use keydesk.Prelude.Ints.{ℤ}
use keydesk.Service.Transactions.{run_in_transaction-Refuses, run_in_transaction-Stores}
use keydesk.Service.Users.{
  Service, delete_in, service_delete_user, service_unblock_user, slots_info,
}
use keydesk.Shuffler.{free_answer, handle_delete_configs, handle_patch_block, handle_patch_unblock}
use keydesk.Storage.Brigades.{run_in_transaction}
use keydesk.Storage.Db.{commit_brigade, BrigadeStorage, open_with_reading, upgraded}
use keydesk.Storage.Db.Upgrades.{IsUpgraded-upgraded, upgraded-IsUpgraded}
use keydesk.Storage.Removal.{add_peer, key_given, find_user, unblock_user}
use keydesk.Storage.Types.{User, Brigade, Uuid}
use keydesk.World.{
  Error, M, Result, World, and_then, err, json, not_found, ok, pure, raise, user_not_found, ◌>>=◌,
  ◌>>◌,
}
use text.Mathlib.Text.{◌==◌ as str_eq}

-- An answer with a status, and what the main file holds then.
abbrev pub AnswersWith : ℕ → Brigade → Responder ℤ × World → Type 0
AnswersWith status b (r, w) = (r ≡ failure status status) × (w.brigade.main ≡ some (json b))

refused_not_found :
    (b : Brigade) (r : Result ℤ × World) → Refuses b not_found r → AnswersWith 404 b (free_answer r)
unfolding free_answer
refused_not_found b (ok x, w) h = absurd h
refused_not_found b (err e, w) (h, k) = rw h (refl, k)

refused_otherwise :
    (b : Brigade) (r : Result ℤ × World)
    → Refuses b user_not_found r
    → AnswersWith 500 b (free_answer r)
unfolding free_answer
refused_otherwise b (ok x, w) h = absurd h
refused_otherwise b (err e, w) (h, k) = rw h (refl, k)

service_delete_user-Refuses :
    (s : Service) (b : Brigade) (id : Uuid) (only : Bool) (now : Time) (w : World)
    → Holds s.db b w
    → find_user (λ u. str_eq u.user_id id) (upgraded b).users ≡ none
    → Refuses b not_found (service_delete_user s id only now w)
unfolding service_delete_user delete_in
service_delete_user-Refuses s b id only now w h f =
    run_in_transaction-Refuses s.db b w _ not_found h (λ w'. rw (delete_in, f) refl)

unblock_user-Refuses :
    (db : BrigadeStorage) (b : Brigade) (id : Uuid) (w : World)
    → Holds db b w
    → find_user (λ u. str_eq u.user_id id) (upgraded b).users ≡ none
    → Refuses b user_not_found (unblock_user db id w)
unfolding unblock_user
unblock_user-Refuses db b id w h f = go (open_with_reading db w) (open_with_reading-Opens db b w h)
  where
    step : Brigade → Option (List User × User × List User) → M (Unit {0})
    step c none = raise user_not_found
    step c (some (l, u, r)) = add_peer db c u >>= λ u'.
        key_given u.wg_public_key >> commit_brigade (record c { users = l ++ u' ∷ r })

    go :
        (r : Result Brigade × World)
        → Opens db b w r
        → Refuses b user_not_found
            (and_then r (λ c. step c (find_user (λ u. str_eq u.user_id id) c.users)))
    go (ok c, w') (p, h', k, q, l, m) =
        subst
          (λ (c : Brigade).
            Refuses b user_not_found (step c (find_user (λ u. str_eq u.user_id id) c.users) w'))
          (sym p) (rw f (refl, h'.main_json))
    go (err e, w') k = absurd k

Refuses-then :
    {A B : Type 0} (b : Brigade) (e : Error) (r : Result A × World) (f : A → M B)
    → Refuses b e r
    → Refuses b e (and_then r f)
Refuses-then b e (ok a, w) f h = absurd h
Refuses-then b e (err e', w) f h = h

service_unblock_user-Refuses :
    (s : Service) (b : Brigade) (id : Uuid) (w : World)
    → Holds s.db b w
    → find_user (λ u. str_eq u.user_id id) (upgraded b).users ≡ none
    → Refuses (upgraded b) user_not_found (service_unblock_user s id w)
unfolding service_unblock_user
service_unblock_user-Refuses s b id w h f = go (run_in_transaction s.db (λ c. pure (c, tt)) w) (
    run_in_transaction-Stores s.db b w (λ c. pure (c, tt)) (upgraded b) tt h (λ w'. refl)
      (upgraded-id b))
  where
    again : upgraded (upgraded b) ≡ upgraded b
    again = upgraded-IsUpgraded (upgraded b) (IsUpgraded-upgraded b)

    go :
        (r : Result (Unit {0}) × World)
        → Stores s.db tt (upgraded b) b w.accepted r
        → Refuses (upgraded b) user_not_found (
            and_then r (λ _.
              unblock_user s.db id >> run_in_transaction s.db (λ c. pure (c, (slots_info c).free))))
    go (ok t, w') (e, h', k, q) =
        Refuses-then (upgraded b) user_not_found (unblock_user s.db id w') _ (
          unblock_user-Refuses s.db (upgraded b) id w' h'
            (ap (λ (c : Brigade). find_user (λ u. str_eq u.user_id id) c.users) again ∙ f))
    go (err e, w') k = absurd k

-- Where no call of the file system fails, deleting or blocking a user that the brigade does not have is
-- answered with 404, and the file is left alone. Unblocking one is answered with 500, after a
-- transaction has stored the brigade as it was read.
pub handlers-unknown :
    (s : Service) (b : Brigade) (id : Uuid) (now : Time) (w : World)
    → Holds s.db b w
    → find_user (λ u. str_eq u.user_id id) (upgraded b).users ≡ none
    → AnswersWith 404 b (handle_delete_configs s id now w)
      × AnswersWith 404 b (handle_patch_block s id now w)
      × AnswersWith 500 (upgraded b) (handle_patch_unblock s id w)
unfolding handle_delete_configs handle_patch_block handle_patch_unblock
handlers-unknown s b id now w h f = (
  refused_not_found b (service_delete_user s id false now w)
      (service_delete_user-Refuses s b id false now w h f),
  refused_not_found b (service_delete_user s id true now w)
      (service_delete_user-Refuses s b id true now w h f),
  refused_otherwise (upgraded b) (service_unblock_user s id w)
      (service_unblock_user-Refuses s b id w h f),
)
