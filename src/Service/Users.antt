-- ===== src/Service/Users.antt =====
-- The operations of internal/user: create.go, delete.go, slots.go and stat.go.
use keydesk.Storage.Removal.{find_user, unblock_user, blocked_at_time}
use keydesk.Vpn.Client.{client_peer_del}
use keydesk.Vpn.Generators.{Secrets, Codecs}
use keydesk.World.Api.{AddrPort}
use keydesk.Vpn.Generate.{Configs, generate_configs}
use keydesk.Counters.{RxTx}
use keydesk.Clock.{Time}
use keydesk.Storage.Brigades.{run_in_transaction, list_users}
use keydesk.Service.NewUsers.{ServiceDraws, service_new_user}
use keydesk.Storage.Db.{BrigadeStorage}
use keydesk.Storage.Types.{Brigade, Uuid, Bytes, User}
use keydesk.Prelude.Ints.{int_minus, ℤ}
use keydesk.Prelude.{
  ◌%◌, ◌+◌, ◌++◌, Bool, List, String, [], ◌^◌, if◌then◌else◌, leb, length, map, none, reverse, some,
  ℕ, ◌∷◌,
}
use text.Mathlib.Text.{◌==◌ as str_eq}
use keydesk.World.{M, pure, raise, lift, ◌>>=◌, ◌>>◌, no_free_slots, not_found, bad_key}

-- The free slots are a difference of machine integers, which may be below 0.
pub record Slots : Type 0 where
  pub free : ℤ
  pub total : ℕ

-- `getSlotsInfo`
unfoldable pub slots_info : Brigade → Slots
slots_info b = record { free = int_minus b.max_users (length b.users); total = b.max_users }

-- `createUserResponse`
pub record Created : Type 0 where
  pub uuid : Uuid
  pub name : String
  pub domain : String
  pub configs : Configs
  pub slots : Slots

-- What the service is made with: the endpoint that its client calls, and what it calls of others.
pub record Service : Type 0 where
  pub db : BrigadeStorage
  pub endpoint : AddrPort
  pub codecs : Codecs

unfoldable pub or_text : String → String → String
or_text s t = if str_eq s "" then t else s

-- The change of a brigade in `CreateUser`, with `createUserWithConfigs`
unfoldable pub create_in :
    Service → ServiceDraws → Secrets → Time → List String → String → Brigade → M (Brigade × Created)
create_in s d secrets now configs asked b =
    if leb b.max_users (length b.users) then raise no_free_slots else (do
      let domain = or_text asked b.endpoint_domain
      u ← lift (service_new_user b domain d now)
      (cfgs, name, u') ← generate_configs s.endpoint s.codecs secrets b u configs
      let b' = record b { users = b.users ++ u' ∷ [] }
      pure (
        b',
        record {
          uuid = u'.user_id;
          name = name;
          domain = or_text domain (s.codecs.addr_text b.endpoint_ipv4);
          configs = cfgs;
          slots = slots_info b';
        },
      ))

-- `CreateUser`
unfoldable pub service_create_user :
    Service → ServiceDraws → Secrets → Time → List String → String → M Created
service_create_user s d secrets now configs domain =
    run_in_transaction s.db (create_in s d secrets now configs domain)

-- Taking the peer of a user from the endpoint, unless it is blocked.
unfoldable pub drop_service_peer : Service → Brigade → Bool → Time → User → M User
drop_service_peer s b only_block now u = if u.is_blocked then pure u else (do
  client_peer_del s.endpoint u.wg_public_key b.wg_public_key
  pure (if only_block then blocked_at_time now u else u))

unfoldable pub key_checked : Service → Bytes → M (Unit {0})
key_checked s key = if s.codecs.is_key key then pure tt else raise bad_key

-- The change of a brigade in `DeleteUser`, with `deleteUser`: its `ErrNotFound` is not the error
-- `ErrUserNotFound` of the storage.
unfoldable pub delete_in : Service → Uuid → Bool → Time → Brigade → M (Brigade × ℤ)
delete_in s id only_block now b = elim (find_user (λ u. str_eq u.user_id id) b.users) [
  | none ↦ raise not_found
  | some (l, u, r) ↦ (do
    key_checked s u.wg_public_key
    key_checked s b.wg_public_key
    u' ← drop_service_peer s b only_block now u
    let b' = record b { users = (if only_block then l ++ u' ∷ r else l ++ r) }
    pure (b', (slots_info b').free))
]

-- `DeleteUser`
unfoldable pub service_delete_user : Service → Uuid → Bool → Time → M ℤ
service_delete_user s id only_block now = run_in_transaction s.db (delete_in s id only_block now)

-- `GetSlotsInfo`
unfoldable pub service_get_slots_info : Service → M Slots
service_get_slots_info s = run_in_transaction s.db (λ b. pure (b, slots_info b))

-- `UnblockUser`: a transaction that does nothing, the unblocking, and one that counts the free slots.
unfoldable pub service_unblock_user : Service → Uuid → M ℤ
service_unblock_user s id = do
  run_in_transaction s.db (λ b. pure (b, tt {0}))
  unblock_user s.db id
  run_in_transaction s.db (λ b. pure (b, (slots_info b).free))

-- `Activity`
pub record ServiceActivity : Type 0 where
  pub last_seen : Time
  pub total_traffic : ℕ
  pub yearly_traffic : ℕ
  pub monthly_traffic : ℕ
  pub weekly_traffic : ℕ
  pub daily_traffic : ℕ
  pub prev_day_traffic : ℕ
  pub updated : Time

-- The sum of what was received and sent, of uint64s.
abbrev pub both_ways : RxTx → ℕ
both_ways t = (t.rx + t.tx) % 2 ^ 64

unfoldable pub activity_of : User → ServiceActivity
activity_of u = record {
  last_seen = u.quotas.last_activity.total;
  total_traffic = both_ways u.quotas.counters_total.total;
  yearly_traffic = both_ways u.quotas.counters_total.yearly;
  monthly_traffic = both_ways u.quotas.counters_total.monthly;
  weekly_traffic = both_ways u.quotas.counters_total.weekly;
  daily_traffic = both_ways u.quotas.counters_total.daily;
  prev_day_traffic = both_ways u.quotas.counters_total.prev_day;
  updated = u.quotas.last_activity.update;
}

-- `GetLastConnections`: a map from identifiers, as a list of entries, the newest in front.
unfoldable pub get_last_connections : Service → Time → M (List (Uuid × ServiceActivity))
get_last_connections s now = do
  users ← list_users s.db now
  pure (reverse (map (λ u. (u.user_id, activity_of u)) users))
