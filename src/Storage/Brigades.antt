-- ===== src/Storage/Brigades.antt =====
-- keydesk/storage: what is done to the brigade as a whole (brigade.go, vip.go, reset.go, push.go,
-- messages.go, transaction.go, utils.go and the queries of user.go).
use keydesk.Prelude.Ints.{ℤ, int_minus}
use keydesk.Prelude.Ints.{pos}
use keydesk.Storage.Setup.{BrigadeConfig, WgConfig, Parts, new_brigade}
use text.Mathlib.Text.{◌==◌ as str_eq}
use keydesk.Prelude.{ℕ, ◌++◌, Bool, List, String, [], false, if◌then◌else◌, length, ltb, ◌∷◌}
use keydesk.Clock.{Time, is_zero}
use keydesk.Counters.{DateSummaryNetCounters}
use keydesk.Storage.Types.{Brigade, User, Addr, Uuid, Message, Subscription, StatsCounters}
use keydesk.Storage.Db.{
  BrigadeStorage, open_with_reading, open_without_reading, with_addresses, commit_brigade,
}
use keydesk.Storage.VpnConfigs.{ConfigsImplemented, vpn_configs, supported_vpn_protocols, is_set}
use keydesk.World.{
  World, M, ok, err, pure, raise, ◌>>=◌, ◌>>◌, Result, destroy_vip, subscription_not_found,
}
use keydesk.World.FileDb.{commit}
use keydesk.World.Api.{wg_add_iface, wg_del_iface}

-- `CreateBrigade`
unfoldable pub create_brigade :
    Brigade
    → DateSummaryNetCounters
    → BrigadeStorage
    → BrigadeConfig
    → WgConfig
    → Parts
    → String
    → ℕ
    → Bool
    → Time
    → M (Unit {0})
create_brigade blank counters db c wg p mode max_users vip ts = do
  open_without_reading db c.brigade_id
  let b = new_brigade blank counters c wg p mode max_users vip ts
  wg_add_iface (with_addresses db c.endpoint_ipv4).actual_addr_port b.wg_private_router_enc
  commit_brigade b

-- `DestroyBrigade` of the storage
unfoldable pub destroy_brigade : BrigadeStorage → M (Unit {0})
destroy_brigade db = do
  b ← open_with_reading db
  wg_del_iface db.actual_addr_port b.wg_private_router_enc

-- `GetVpnConfigs`
unfoldable pub get_vpn_configs : BrigadeStorage → ConfigsImplemented → M ConfigsImplemented
get_vpn_configs db req = do b ← open_with_reading db; pure (vpn_configs req b)

-- `BrigadeStorage.GetSupportedVPNProtocols`
unfoldable pub get_supported_vpn_protocols : BrigadeStorage → M (List String)
get_supported_vpn_protocols db = do b ← open_with_reading db; pure (supported_vpn_protocols b)

-- `RunInTransaction`: the change is committed only if it succeeds.
unfoldable pub run_in_transaction {ℓ} :
    {A : Type ℓ} → BrigadeStorage → (Brigade → M (Brigade × A)) → M A
run_in_transaction db change = do
  b ← open_with_reading db
  (b', a) ← change b
  commit_brigade b'
  pure a

-- Changes of one field: `SetVIP`, `DomainSet`, `PortSet`, `SaveSubscription`, storage `CreateMessage`
unfoldable pub update_brigade : BrigadeStorage → (Brigade → Brigade) → M (Unit {0})
update_brigade db f = do b ← open_with_reading db; commit_brigade (f b)

unfoldable pub set_vip : BrigadeStorage → Bool → M (Unit {0})
set_vip db vip = update_brigade db (λ b. record b { vip = (if vip then 1 else 0) })

unfoldable pub domain_set : BrigadeStorage → String → M (Unit {0})
domain_set db domain = update_brigade db (λ b. record b { endpoint_domain = domain })

unfoldable pub port_set : BrigadeStorage → ℕ → M (Unit {0})
port_set db port = update_brigade db (λ b. record b { endpoint_port = port })

unfoldable pub save_subscription : BrigadeStorage → Subscription → M (Unit {0})
save_subscription db sub = update_brigade db (λ b. record b { subscription = sub })

unfoldable pub create_message : BrigadeStorage → Uuid → String → Time → M (Unit {0})
create_message db nil text now = update_brigade db λ b. record b {
  messages =
      b.messages
      ++ record {
        id = nil;
        text = text;
        title = "";
        is_read = false;
        priority = pos 0;
        created_at = now;
        ttl = pos 0;
      }
        ∷ [];
}

unfoldable pub vip_answer : Result Brigade × World → Bool × World
vip_answer (ok b, w) = (ltb 0 b.vip, w)
vip_answer (err e, w) = (false, w)

-- `IsVIP`: false where the file cannot be read
unfoldable pub is_vip : BrigadeStorage → World → Bool × World
unfolding vip_answer
is_vip db w = vip_answer (open_with_reading db w)

-- `keydesk.DestroyBrigade`
unfoldable pub destroy_unless_vip : BrigadeStorage → M (Unit {0})
destroy_unless_vip db w =
    let (vip, w') = is_vip db w in (if vip then raise destroy_vip else destroy_brigade db) w'

-- `GetSubscription`: the subscription is handed out once.
unfoldable pub get_subscription : BrigadeStorage → M Subscription
get_subscription db = do
  b ← open_with_reading db
  if str_eq b.subscription ""
      then raise subscription_not_found
      else do commit_brigade (record b { subscription = "" }); pure b.subscription

-- `GetMessages` of the storage: it commits the temporary file, with nothing written to it.
unfoldable pub get_messages : BrigadeStorage → M (List Message)
get_messages db = do b ← open_with_reading db; commit; pure b.messages

-- `ListUsers`: the first visit is noted.
unfoldable pub list_users : BrigadeStorage → Time → M (List User)
list_users db now = do
  b ← open_with_reading db
  if is_zero b.keydesk_first_visit
      then (do commit_brigade (record b { keydesk_first_visit = now }); pure b.users)
      else pure b.users

-- `GetUsersStats`
unfoldable pub get_users_stats : BrigadeStorage → M (List StatsCounters × ℕ × ℤ)
get_users_stats db = do
  b ← open_with_reading db
  pure (b.stats_stack, db.max_users, int_minus db.max_users (length b.users))

-- `GetEndpointHost`: `text` is the text of an address.
unfoldable pub get_endpoint_host : (Addr → String) → Brigade → User → String
get_endpoint_host text b u =
    if is_set u.endpoint_domain
    then u.endpoint_domain
    else if is_set b.endpoint_domain
    then b.endpoint_domain
    else text b.endpoint_ipv4
