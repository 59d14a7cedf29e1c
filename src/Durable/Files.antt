-- ===== src/Durable/Files.antt =====
-- What the steps of the database do to the main file and to its backup.
use keydesk.Storage.Db.{commit_brigade, open_with_reading, BrigadeStorage, read_on}
use keydesk.Prelude.{
  Option, String, arith, some, ◌⊎◌, inr, ◌≡◌, Bool, false, if◌then◌else◌, true, inl,
}
use keydesk.Storage.Types.{Brigade}
use keydesk.World.{
  ◌>>◌, World, M, Error, ok, err, pure, raise, lift, ◌>>=◌, and_then, Result, Contents, json,
  syscall, empty, garbage, Files,
}
use keydesk.World.FileDb.{encode, commit, open_file_db, backup}
use keydesk.World.Api.{
  get_api_request, wg_peer_add, AddrPort, wg_peer_del, wg_add_iface, wg_del_iface, wg_stat,
}

abbrev pub IsJson : Option (Contents Brigade) → Type 0
IsJson (some (json b)) = Unit
IsJson _ = ⊥

pub record IsBacked (w : World) : Type 0 where
  pub bak_json : IsJson w.brigade.bak

-- The main file holds the JSON of a brigade and is not one file with the temporary one.
abbrev pub IsSafe : Files Brigade → Type 0
IsSafe fs = IsJson fs.main × (fs.linked ≡ false)

abbrev pub IsRecoverable : World → Type 0
IsRecoverable w = IsSafe w.brigade ⊎ IsJson w.brigade.bak

-- An operation keeps a property of the world, whether it succeeds or fails.
pub record Keeps {ℓ} {A : Type ℓ} (P : World → Type 0) (m : M A) : Type 0 where
  pub at : (w : World) → P w → P (m w).1

module _ {ℓ κ} {A : Type ℓ} {B : Type κ} {P : World → Type 0} where
  pub Keeps-bind :
      (m : M A) (f : A → M B) → Keeps P m → ((a : A) → Keeps P (f a)) → Keeps P (m >>= f)
  Keeps-bind m f k l = record { at = λ w h. go (m w) (k.at w h) }
    where
      go : (r : Result A × World) → P r.1 → P (and_then r f).1
      go (ok a, w) h = (l a).at w h
      go (err e, w) h = h

module _ {ℓ} {A : Type ℓ} {P : World → Type 0} where
  pub Keeps-pure : (a : A) → Keeps P (pure a)
  Keeps-pure a = record { at = λ w h. h }

  pub Keeps-raise : (e : Error) → Keeps P (raise {A = A} e)
  Keeps-raise e = record { at = λ w h. h }

  pub Keeps-lift : (r : Result A) → Keeps P (lift r)
  Keeps-lift r = record { at = λ w h. h }

pub encode-IsBacked : (b : Brigade) → Keeps IsBacked (encode b)
unfolding encode syscall
encode-IsBacked b = record { at = λ w h. record { bak_json = ground arith } }

pub commit-IsBacked : Keeps IsBacked commit
unfolding commit syscall
commit-IsBacked = record { at = λ w h. record { bak_json = ground arith } }

pub wg_peer_add-IsBacked : (a : AddrPort) (k i : String) → Keeps IsBacked (wg_peer_add a k i)
unfolding wg_peer_add get_api_request
wg_peer_add-IsBacked a k i = record { at = λ w h. record { bak_json = ground arith } }

pub wg_peer_del-IsBacked : (a : AddrPort) (k i : String) → Keeps IsBacked (wg_peer_del a k i)
unfolding wg_peer_del get_api_request
wg_peer_del-IsBacked a k i = record { at = λ w h. record { bak_json = ground arith } }

pub wg_add_iface-IsBacked : (a : AddrPort) (k : String) → Keeps IsBacked (wg_add_iface a k)
unfolding wg_add_iface get_api_request
wg_add_iface-IsBacked a k = record { at = λ w h. record { bak_json = ground arith } }

pub wg_del_iface-IsBacked : (a : AddrPort) (k : String) → Keeps IsBacked (wg_del_iface a k)
unfolding wg_del_iface get_api_request
wg_del_iface-IsBacked a k = record { at = λ w h. record { bak_json = ground arith } }

pub wg_stat-IsBacked : (a : AddrPort) (k : String) → Keeps IsBacked (wg_stat a k)
unfolding wg_stat get_api_request
wg_stat-IsBacked a k = record { at = λ w h. record { bak_json = ground arith } }

pub commit_brigade-IsBacked : (b : Brigade) → Keeps IsBacked (commit_brigade b)
unfolding commit_brigade
commit_brigade-IsBacked b =
    Keeps-bind (encode b) (λ _. commit) (encode-IsBacked b) (λ _. commit-IsBacked)

-- After opening, the backup is a copy of the main file; a failure leaves one of the two.
abbrev pub Opened {ℓ} : {A : Type ℓ} → Result A × World → Type 0
Opened (ok b, w) = IsBacked w
Opened (err e, w) = IsRecoverable w

-- What has been read is what the main file holds.
abbrev pub Read : Result (Contents Brigade) × World → Type 0
Read (ok c, w) =
    (w.brigade.main ≡ some c) × IsRecoverable w × ((c ≡ empty) ⊎ (w.brigade.linked ≡ false))
Read (err e, w) = IsRecoverable w

pub open_file_db-Read : (w : World) → IsRecoverable w → Read (open_file_db w)
unfolding open_file_db syscall
open_file_db-Read w h = ground arith

backup-Opened : (w : World) → IsSafe w.brigade → Opened (backup w)
unfolding backup syscall
backup-Opened w h = ground arith

read_on-Opened :
    (db : BrigadeStorage) (c : Contents Brigade) (w : World)
    → w.brigade.main ≡ some c
    → IsRecoverable w
    → (c ≡ empty) ⊎ (w.brigade.linked ≡ false)
    → Opened (read_on db c w)
unfolding read_on
read_on-Opened db empty w e h l = h
read_on-Opened db garbage w e h l = h
read_on-Opened db (json b) w e h (inl x) = ground arith
read_on-Opened db (json b) w e h (inr l) = ground (arith, backup-Opened w (rw e tt, l))

pub open_with_reading-Opened :
    (db : BrigadeStorage) (w : World) → IsRecoverable w → Opened (open_with_reading db w)
unfolding open_with_reading
open_with_reading-Opened db w h = go (open_file_db w) (open_file_db-Read w h)
  where
    go : (r : Result (Contents Brigade) × World) → Read r → Opened (and_then r (read_on db))
    go (ok c, w') k = read_on-Opened db c w' k.0 k.1 k.2
    go (err e, w') k = k

-- So an operation that goes on with steps that keep the backup keeps the brigade.
pub Keeps-open {ℓ} :
    {A : Type ℓ} (db : BrigadeStorage) (f : Brigade → M A)
    → ((b : Brigade) → Keeps IsBacked (f b))
    → Keeps IsRecoverable (open_with_reading db >>= f)
Keeps-open db f k = record {
  at = λ w h. go (open_with_reading db w) (open_with_reading-Opened db w h);
}
  where
    go : (r : Result Brigade × World) → Opened r → IsRecoverable (and_then r f).1
    go (ok b, w) h = inr ((k b).at w h).bak_json
    go (err e, w) h = h

pub Keeps-then {ℓ κ} :
    {A : Type ℓ} {B : Type κ} {P : World → Type 0} (m : M A) (n : M B)
    → Keeps P m
    → Keeps P n
    → Keeps P (m >> n)
Keeps-then m n k l = Keeps-bind m (λ _. n) k (λ _. l)

pub ruleset backed_rules = (
  Keeps-bind, Keeps-then, Keeps-pure, Keeps-raise, Keeps-lift, wg_peer_add-IsBacked,
  wg_peer_del-IsBacked, wg_add_iface-IsBacked, wg_del_iface-IsBacked, commit_brigade-IsBacked,
  commit-IsBacked,
)

pub Keeps-if {ℓ} :
    {A : Type ℓ} {P : World → Type 0} (t : Bool) (m n : M A)
    → Keeps P m
    → Keeps P n
    → Keeps P (if t then m else n)
Keeps-if true m n k l = k
Keeps-if false m n k l = l
