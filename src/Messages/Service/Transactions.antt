-- ===== src/Messages/Service/Transactions.antt =====
-- What the transactions of the service do where no call of the file system fails.
use keydesk.Durable.Calm.{
  Holds, Stores, Opens, upgraded-messages, commit_brigade-Stores, open_with_reading-Opens,
}
use keydesk.Storage.Db.{upgraded}
use keydesk.Prelude.{List, none, refl, some, subst, sym, ◌≡◌}
use keydesk.World.{and_then, ok, err, json, ◌>>=◌, ◌>>◌, pure, M, Error, Request, World, Result}
use keydesk.Messages.Service.{
  Readings, transaction, or_panic, Brigade, BrigadeStorage, Message, cleanup_messages,
  commit_brigade, panicked, open_with_reading,
}

-- The brigade as `fn` finds it.
abbrev pub cleaned : Brigade → List Message → Brigade
cleaned b ms = record (upgraded b) { messages = ms }

-- An error, with the main file as it was.
abbrev pub Refuses {ℓ} : {A : Type ℓ} → Brigade → Error → Result A × World → Type 0
Refuses b e (ok a, w) = ⊥
Refuses b e (err e', w) = (e' ≡ e) × (w.brigade.main ≡ some (json b))

pub Stores-then :
    {A : Type 0} (db : BrigadeStorage) (a : A) (b old : Brigade) (l : List Request)
    (r : Result (Unit {0}) × World)
    → Stores db tt b old l r
    → Stores db a b old l (and_then r (λ _. pure a))
Stores-then db a b old l (ok u, w) (e, h, k, q) = (refl, h, k, q)
Stores-then db a b old l (err e, w) h = h

-- What comes after the opening.
abbrev after_open : {A : Type 0} → Readings → (Brigade → M (Brigade × A)) → Brigade → M A
after_open t fn c = do
  ms ← or_panic (cleanup_messages t.now t.later c.messages)
  (b', a) ← fn (record c { messages = ms })
  commit_brigade b'
  pure a

pub transaction-Stores :
    {A : Type 0} (db : BrigadeStorage) (t : Readings) (b : Brigade) (w : World) (ms : List Message)
    (fn : Brigade → M (Brigade × A)) (b' : Brigade) (a : A)
    → Holds db b w
    → cleanup_messages t.now t.later b.messages ≡ some ms
    → ((w' : World) → fn (cleaned b ms) w' ≡ (ok (b', a), w'))
    → b'.brigade_id ≡ b.brigade_id
    → Stores db a b' b w.accepted (transaction db t fn w)
unfolding transaction or_panic
transaction-Stores db t b w ms fn b' a h clean does same =
    go (open_with_reading db w) (open_with_reading-Opens db b w h)
  where
    go :
        (r : Result Brigade × World)
        → Opens db b w r
        → Stores db a b' b w.accepted (and_then r (after_open t fn))
    go (ok c, w') (e, h', k, q, l, m) =
        subst (λ c. Stores db a b' b w.accepted (after_open t fn c w')) (sym e)
          (rw (upgraded-messages b, clean, does w')
            (subst (λ l. Stores db a b' b l (and_then (commit_brigade b' w') (λ _. pure a))) l
              (Stores-then db a b' b w'.accepted (commit_brigade b' w')
                (commit_brigade-Stores db b b' w' h' k (rw same h.own_id)))))
    go (err e, w') k = k

pub transaction-Refuses :
    {A : Type 0} (db : BrigadeStorage) (t : Readings) (b : Brigade) (w : World) (ms : List Message)
    (fn : Brigade → M (Brigade × A)) (e : Error)
    → Holds db b w
    → cleanup_messages t.now t.later b.messages ≡ some ms
    → ((w' : World) → fn (cleaned b ms) w' ≡ (err e, w'))
    → Refuses b e (transaction db t fn w)
unfolding transaction or_panic
transaction-Refuses db t b w ms fn e h clean does =
    go (open_with_reading db w) (open_with_reading-Opens db b w h)
  where
    go : (r : Result Brigade × World) → Opens db b w r → Refuses b e (and_then r (after_open t fn))
    go (ok c, w') (p, h', k, q, l, m) =
        subst (λ c. Refuses b e (after_open t fn c w')) (sym p)
          (rw (upgraded-messages b, clean, does w') (refl, h'.main_json))
    go (err e, w') k = absurd k

pub transaction-panics :
    {A : Type 0} (db : BrigadeStorage) (t : Readings) (b : Brigade) (w : World)
    (fn : Brigade → M (Brigade × A))
    → Holds db b w
    → cleanup_messages t.now t.later b.messages ≡ none
    → Refuses b panicked (transaction db t fn w)
unfolding transaction or_panic
transaction-panics db t b w fn h clean =
    go (open_with_reading db w) (open_with_reading-Opens db b w h)
  where
    go :
        (r : Result Brigade × World)
        → Opens db b w r
        → Refuses b panicked (and_then r (after_open t fn))
    go (ok c, w') (p, h', k, q, l, m) =
        subst (λ c. Refuses b panicked (after_open t fn c w')) (sym p)
          (rw (upgraded-messages b, clean) (refl, h'.main_json))
    go (err e, w') k = absurd k
