-- ===== src/Durable/Calm.antt =====
-- What the operations do where no call of the file system fails and the files hold a brigade of the
-- storage.
use keydesk.World.{
  World, json, Result, ok, syscall, err, Request, and_then, empty, decode_failed, ◌>>◌, pure,
}
use keydesk.World.FileDb.{open_file_db, backup, commit, encode}
use keydesk.Storage.Types.{Brigade, Message}
use keydesk.Storage.Db.{BrigadeStorage, open_with_reading, read_on, upgraded, commit_brigade}
use keydesk.Prelude.{[], arith, some, true, ◌≡◌, List, subst, sym, ap, ◌∙◌, false}
use text.Mathlib.Text.{◌==◌ as str_eq}
use keydesk.Storage.Brigades.{update_brigade, get_messages}

-- The main file holds this brigade, the temporary one is another file, and no call fails.
pub record Holds (db : BrigadeStorage) (b : Brigade) (w : World) : Type 0 where
  pub no_failure : w.fates ≡ []
  pub main_json : w.brigade.main ≡ some (json b)
  pub not_linked : w.brigade.linked ≡ false
  pub own_id : str_eq b.brigade_id db.brigade_id ≡ true

abbrev pub Opens : BrigadeStorage → Brigade → World → Result Brigade × World → Type 0
Opens db b w (ok b', w') =
    (b' ≡ upgraded b)
    × Holds db b w'
    × (w'.brigade.bak ≡ some (json b))
    × (w'.replies ≡ w.replies)
    × (w'.accepted ≡ w.accepted)
    × (w'.brigade.tmp ≡ some empty)
Opens db b w (err e, w') = ⊥

pub open_with_reading-Opens :
    (db : BrigadeStorage) (b : Brigade) (w : World)
    → Holds db b w
    → Opens db b w (open_with_reading db w)
unfolding open_with_reading open_file_db read_on backup syscall
open_with_reading-Opens db b w h = ground (arith, h.no_failure, h.main_json, h.not_linked, h.own_id)

-- A result that is `a`, in a world whose main file holds `b`, whose backup is what it was, and whose
-- endpoint has accepted these requests.
abbrev pub Stores :
    {A : Type 0} → BrigadeStorage → A → Brigade → Brigade → List Request → Result A × World → Type 0
Stores db a b old requests (ok x, w) =
    (x ≡ a) × Holds db b w × (w.brigade.bak ≡ some (json old)) × (w.accepted ≡ requests)
Stores db a b old requests (err e, w) = ⊥

pub commit_brigade-Stores :
    (db : BrigadeStorage) (old b : Brigade) (w : World)
    → Holds db old w
    → w.brigade.bak ≡ some (json old)
    → str_eq b.brigade_id db.brigade_id ≡ true
    → Stores db tt b old w.accepted (commit_brigade b w)
unfolding commit_brigade encode commit syscall
commit_brigade-Stores db old b w h k i = ground (arith, h.no_failure, h.not_linked, k, i)

pub upgraded-id : (b : Brigade) → (upgraded b).brigade_id ≡ b.brigade_id
unfolding upgraded
upgraded-id b = ground arith

-- Where no call fails, a change of the brigade that keeps its identifier is stored, the backup holds
-- the brigade as it was, and the endpoint hears of nothing.
pub update_brigade-Stores :
    (db : BrigadeStorage) (f : Brigade → Brigade) (b : Brigade) (w : World)
    → Holds db b w
    → ((c : Brigade) → (f c).brigade_id ≡ c.brigade_id)
    → Stores db tt (f (upgraded b)) b w.accepted (update_brigade db f w)
unfolding update_brigade
update_brigade-Stores db f b w h keeps =
    go (open_with_reading db w) (open_with_reading-Opens db b w h)
  where
    go :
        (r : Result Brigade × World)
        → Opens db b w r
        → Stores db tt (f (upgraded b)) b w.accepted (and_then r (λ c. commit_brigade (f c)))
    go (ok c, w') (e, h', k, q, a, t) =
        subst (λ t. Stores db tt (f (upgraded b)) b w.accepted (commit_brigade (f t) w')) (sym e)
          (subst (λ l. Stores db tt (f (upgraded b)) b l (commit_brigade (f (upgraded b)) w')) a
            (commit_brigade-Stores db b (f (upgraded b)) w' h' k
              (rw (keeps, upgraded-id) h.own_id)))
    go (err e, w') k = k

pub upgraded-messages : (b : Brigade) → (upgraded b).messages ≡ b.messages
unfolding upgraded
upgraded-messages b = ground arith

-- The messages are returned, and the main file is empty, which cannot be opened.
abbrev pub Emptied : BrigadeStorage → Brigade → Result (List Message) × World → Type 0
Emptied db b (ok ms, w) =
    (ms ≡ b.messages)
    × (w.brigade.main ≡ some empty)
    × ((open_with_reading db w).0 ≡ err decode_failed)
Emptied db b (err e, w) = ⊥

open-empty :
    (db : BrigadeStorage) (w : World)
    → w.fates ≡ []
    → w.brigade.main ≡ some empty
    → w.brigade.linked ≡ false
    → (open_with_reading db w).0 ≡ err decode_failed
unfolding open_with_reading open_file_db read_on syscall
open-empty db w h k l = ground (arith, h, k, l)

-- What a commit makes of the temporary file.
abbrev Commits : World → Result (Unit {0}) × World → Type 0
Commits w (ok u, w') =
    (w'.fates ≡ []) × (w'.brigade.main ≡ w.brigade.tmp) × (w'.brigade.linked ≡ false)
Commits w (err e, w') = ⊥

commit-Commits : (w : World) → w.fates ≡ [] → Commits w (commit w)
unfolding commit syscall
commit-Commits w h = ground (arith, h)

-- Where no call fails, the messages are returned and the main file is empty afterwards, so that the
-- brigade cannot be opened any more.
pub get_messages-Emptied :
    (db : BrigadeStorage) (b : Brigade) (w : World)
    → Holds db b w
    → Emptied db b (get_messages db w)
unfolding get_messages
get_messages-Emptied db b w h = go (open_with_reading db w) (open_with_reading-Opens db b w h)
  where
    commits :
        (c : Brigade) (w' : World) (r : Result (Unit {0}) × World)
        → c ≡ upgraded b
        → w'.brigade.tmp ≡ some empty
        → Commits w' r
        → Emptied db b (and_then r (λ _. pure c.messages))
    commits c w' (ok u, w2) e t (f, m, l) = (
      ap (λ (x : Brigade). x.messages) e ∙ upgraded-messages b,
      m ∙ t,
      open-empty db w2 f (m ∙ t) l,
    )
    commits c w' (err x, w2) e t k = k

    go :
        (r : Result Brigade × World)
        → Opens db b w r
        → Emptied db b (and_then r (λ c. commit >> pure c.messages))
    go (ok c, w') (e, h', k, q, a, t) =
        commits c w' (commit w') e t (commit-Commits w' h'.no_failure)
    go (err e, w') k = k
