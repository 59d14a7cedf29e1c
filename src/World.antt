-- ===== src/World.antt =====
-- What the program acts on: the files of the brigade, the endpoint that it calls, and the monad of
-- its operations. `fates` says of the coming file-system calls which ones fail, and `replies` what
-- the endpoint answers to the coming requests.
pub mod FileDb
pub mod Api
use keydesk.Prelude.{ℕ, Bool, String, List, [], ◌∷◌, Option, none, some, false, true}
use keydesk.Storage.Types.{
  Brigade, Addr, Bytes, Prefix, StatsCounters, MarkedUsersCounters, UsersNetworks,
}
use keydesk.Clock.{Time}
use keydesk.Counters.{RxTx}

-- The errors of the program, by the message that they are wrapped in.
pub data Error : Type 0 where
  open_failed decode_failed backup_failed encode_failed commit_failed : Error
  api_failed api_payload : Error
  unknown_brigade already_exists wrong_configuration : Error
  user_limit user_collision brigadier_collision unresolvable_collision user_not_found : Error
  no_draw ca_failed parse_failed : Error
  subscription_not_found message_not_found no_free_slots destroy_vip bad_key panicked unsupported
        generation_failed on_maintenance not_found blocked_forever :
      Error

pub data Result {ℓ} (A : Type ℓ) : Type ℓ where
  ok : A → Result A
  err : Error → Result A

-- storage.Stats, the contents of stats.json.
pub record Stats : Type 0 where
  pub counters : StatsCounters
  pub users50gb : MarkedUsersCounters
  pub users100gb : MarkedUsersCounters
  pub users500gb : MarkedUsersCounters
  pub users1000gb : MarkedUsersCounters
  pub yesterday_traffic : RxTx
  pub last_activity : Time
  pub ver : ℕ
  pub brigade_id : String
  pub update_time : Time
  pub brigade_created_at : Time
  pub keydesk_first_visit : Time
  pub endpoints : UsersNetworks

-- A file holds nothing, the JSON of a value, or bytes that are not the JSON of one.
pub data Contents {ℓ} (A : Type ℓ) : Type ℓ where
  empty : Contents A
  json : A → Contents A
  garbage : Contents A

-- The main file, its `.tmp` and its `.bak`; `linked` says that the first two are one file, which
-- a commit that cannot remove the temporary name leaves.
pub record Files (A : Type 0) : Type 0 where
  pub main : Option (Contents A)
  pub tmp : Option (Contents A)
  pub bak : Option (Contents A)
  pub linked : Bool

pub record Traffic : Type 0 where
  pub key : Bytes
  pub vpn : String
  pub received : String
  pub sent : String

pub record LastSeen : Type 0 where
  pub key : Bytes
  pub vpn : String
  pub timestamp : String

pub record Endpoint : Type 0 where
  pub key : Bytes
  pub vpn : String
  pub subnet : String

-- vpnapi.WGStatsIn, its nested maps as lists of entries.
pub record WgStatsIn : Type 0 where
  pub timestamp : String
  pub traffic : List Traffic
  pub last_seen : List LastSeen
  pub endpoints : List Endpoint

-- The body of an answer: its code, and the fields that the callers decode, `none` where the JSON
-- does not decode to them.
pub record Body : Type 0 where
  pub code : String
  pub client_certificate : Option String
  pub stats : Option WgStatsIn

pub data Reply : Type 0 where
  answer : Body → Reply
  no_answer : Reply

pub data Request : Type 0 where
  peer_add : Bytes → Bytes → Request
  peer_del : Bytes → Bytes → Request
  wg_add : Bytes → Request
  wg_del : Bytes → Request
  stat : Bytes → Request

pub record World : Type 0 where
  pub brigade : Files Brigade
  pub stats : Files Stats
  pub fates : List Bool
  pub replies : List Reply
  pub accepted : List Request

abbrev pub M {ℓ} : Type ℓ → Type ℓ
M A = World → Result A × World

abbrev pub and_then {ℓ κ} :
    {A : Type ℓ} {B : Type κ} → Result A × World → (A → M B) → Result B × World
and_then (ok a, w) f = f a w
and_then (err e, w) f = (err e, w)

infixl 5 ◌>>=◌ ◌>>◌
abbrev pub ◌>>=◌ {ℓ κ} : {A : Type ℓ} {B : Type κ} → M A → (A → M B) → M B
◌>>=◌ m f w = and_then (m w) f

abbrev pub ◌>>◌ {ℓ κ} : {A : Type ℓ} {B : Type κ} → M A → M B → M B
m >> k = m >>= λ _. k

abbrev pub pure {ℓ} : {A : Type ℓ} → A → M A
pure a w = (ok a, w)

abbrev pub raise {ℓ} : {A : Type ℓ} → Error → M A
raise e w = (err e, w)

abbrev pub lift {ℓ} : {A : Type ℓ} → Result A → M A
lift r w = (r, w)

-- One call of the file system: it fails if its fate says so.
unfoldable pub syscall : Error → M (Unit {0})
syscall e w = elim w.fates [
  | [] ↦ (ok tt, w)
  | fails ∷ rest ↦ (elim fails [ true ↦ err e | false ↦ ok tt ], record w { fates = rest })
]
