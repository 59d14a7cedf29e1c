-- ===== src/Service/Transactions.antt =====
-- What the transactions of the users' service leave in the files where no call of the file system fails.
use keydesk.Durable.Calm.{Holds, Stores, Opens, commit_brigade-Stores, open_with_reading-Opens}
use keydesk.Messages.Service.Transactions.{Refuses, Stores-then}
use keydesk.Prelude.{refl, subst, sym, ◌≡◌}
use keydesk.Storage.Brigades.{run_in_transaction}
use keydesk.Storage.Db.{BrigadeStorage, commit_brigade, open_with_reading, upgraded}
use keydesk.Storage.Types.{Brigade}
use keydesk.World.{Error, M, Result, World, and_then, err, ok, pure, ◌>>=◌, ◌>>◌}

abbrev changing : {A : Type 0} → (Brigade → M (Brigade × A)) → Brigade → M A
changing fn c = do (b', a) ← fn c; commit_brigade b'; pure a

pub run_in_transaction-Stores :
    {A : Type 0} (db : BrigadeStorage) (b : Brigade) (w : World) (fn : Brigade → M (Brigade × A))
    (b' : Brigade) (a : A)
    → Holds db b w
    → ((w' : World) → fn (upgraded b) w' ≡ (ok (b', a), w'))
    → b'.brigade_id ≡ b.brigade_id
    → Stores db a b' b w.accepted (run_in_transaction db fn w)
unfolding run_in_transaction
run_in_transaction-Stores db b w fn b' a h does same =
    go (open_with_reading db w) (open_with_reading-Opens db b w h)
  where
    go :
        (r : Result Brigade × World)
        → Opens db b w r
        → Stores db a b' b w.accepted (and_then r (changing fn))
    go (ok c, w') (e, h', k, q, l, m) =
        subst (λ c. Stores db a b' b w.accepted (changing fn c w')) (sym e)
          (rw (does w') (
            subst (λ l. Stores db a b' b l (and_then (commit_brigade b' w') (λ _. pure a))) l
              (Stores-then db a b' b w'.accepted (commit_brigade b' w')
                (commit_brigade-Stores db b b' w' h' k (rw same h.own_id)))))
    go (err e, w') k = k

pub run_in_transaction-Refuses :
    {A : Type 0} (db : BrigadeStorage) (b : Brigade) (w : World) (fn : Brigade → M (Brigade × A))
    (e : Error)
    → Holds db b w
    → ((w' : World) → fn (upgraded b) w' ≡ (err e, w'))
    → Refuses b e (run_in_transaction db fn w)
unfolding run_in_transaction
run_in_transaction-Refuses db b w fn e h does =
    go (open_with_reading db w) (open_with_reading-Opens db b w h)
  where
    go : (r : Result Brigade × World) → Opens db b w r → Refuses b e (and_then r (changing fn))
    go (ok c, w') (p, h', k, q, l, m) =
        subst (λ c. Refuses b e (changing fn c w')) (sym p) (rw (does w') (refl, h'.main_json))
    go (err e, w') k = absurd k
