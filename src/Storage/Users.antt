-- ===== src/Storage/Users.antt =====
-- keydesk/storage/user.go: the users of a brigade. The time of a call, the random numbers and the
-- UUIDs that it draws are its arguments.
pub mod Assemble
pub mod Fresh
pub mod Named
pub mod Order
pub mod Enough
use keydesk.Prelude.Ints.{ℤ, int_minus}
use keydesk.Storage.Accounts.{NewUser, UserConfig, new_quota}
use text.Mathlib.Text.{◌==◌ as str_eq}
use keydesk.Prelude.{
  ℕ, ◌%◌, ◌&&◌, ◌++◌, ◌-◌, ◌==◌, Bool, List, Option, String, [], false, if◌then◌else◌, length, none,
  not, some, suc, true, zero, ◌||◌, ◌∷◌,
}
use keydesk.Prelude.Texts.{text_lt}
use keydesk.Clock.{Time, zero_time, is_zero}
use keydesk.Counters.{RxTx, DateSummaryNetCounters, no_traffic}
use keydesk.Kdlib.{next_monthly_reset_on}
use keydesk.Storage.Types.{
  Brigade, User, Quota, LastActivityPoints, Addr, no_addr, ip4, ip6, Uuid, Bytes, Person,
  StatsCounters,
}
use keydesk.Storage.Db.{BrigadeStorage, open_with_reading, commit_brigade}
use keydesk.Storage.Names.{trim_number}
use keydesk.Storage.VpnConfigs.{ConfigsImplemented, map_len}
use keydesk.World.{
  World, M, Error, ok, err, pure, raise, lift, ◌>>=◌, ◌>>◌, Result, Body, user_not_found, ca_failed,
  api_payload,
}
use keydesk.World.Api.{wg_peer_add, wg_peer_del}
use Assemble.{Draws, Assembled, assemble_user}

-- The order of `sort.Slice`: the brigadier, then the users by falling identifiers.
unfoldable pub user_less : User → User → Bool
user_less u v = u.is_brigadier || (not v.is_brigadier && text_lt v.user_id u.user_id)

unfoldable pub insert_user : User → List User → List User
insert_user u [] = u ∷ []
insert_user u (v ∷ vs) =
    let rest = insert_user u vs in if user_less u v then u ∷ v ∷ vs else v ∷ rest

-- `sort.Slice`. With one brigadier at most and identifiers that differ, the order is total and every
-- sorting has this result.
unfoldable pub sort_users : List User → List User
unfolding insert_user
sort_users [] = []
sort_users (u ∷ us) = insert_user u (sort_users us)

-- The first brigadier, and the other users in their order.
unfoldable pub take_brigadier : List User → Option (User × List User)
take_brigadier [] = none
take_brigadier (u ∷ us) = elim u.is_brigadier [
  | true ↦ some (u, us)
  | false ↦ elim (take_brigadier us) [ none ↦ none | some (b, rest) ↦ some (b, u ∷ rest) ]
]

-- `removeBrigadier`: the brigade without its brigadier, and the brigadier's full name and person
unfoldable pub remove_brigadier : BrigadeStorage → Brigade → M (Brigade × String × Person)
remove_brigadier db b = elim (take_brigadier b.users) [
  | none ↦ pure (b, "", "")
  | some (u, rest) ↦ (do
    wg_peer_del db.actual_addr_port u.wg_public_key b.wg_public_key
    pure (record b { users = rest }, trim_number u.name, u.person))
]

unfoldable pub replaced : BrigadeStorage → NewUser → Brigade → M (Brigade × String × Person)
replaced db a b =
    if a.is_brigadier && a.replace_brigadier
    then remove_brigadier db b
    else pure (b, a.fullname, a.person)

-- The certificate of the authority where OpenVPN is wanted: `ungzip` is `kdlib.Unbase64Ungzip`.
unfoldable pub ca_pem : (String → Option String) → ConfigsImplemented → Brigade → M String
ca_pem ungzip cfgs b =
    if map_len cfgs.ovc == 0
    then pure ""
    else elim (ungzip b.ov_ca_cert_pem_gzip_base64) [ none ↦ raise ca_failed | some pem ↦ pure pem ]

unfoldable pub nth_text : List String → ℕ → String
nth_text [] n = ""
nth_text (s ∷ ss) zero = s
nth_text (s ∷ ss) (suc n) = nth_text ss n

-- A domain for protocol 0: one of the list at random, or the single one where there is no list.
unfoldable pub proto0_domain : ConfigsImplemented → Brigade → ℕ → String
proto0_domain cfgs b r = if map_len cfgs.proto0 == 0 then "" else elim b.proto0_fake_domains [
  | [] ↦ b.proto0_fake_domain
  | d ∷ ds ↦ nth_text (d ∷ ds) (r % length (d ∷ ds))
]

-- The client's certificate in the answer; without an address the test's certificate
unfoldable pub client_cert : String → BrigadeStorage → Body → M String
client_cert test_cert db body = elim db.actual_addr_port.addr [
  | no_addr ↦ pure test_cert
  | _ ↦ elim body.client_certificate [ none ↦ raise api_payload | some c ↦ pure c ]
]

unfoldable pub new_user :
    BrigadeStorage → ConfigsImplemented → NewUser → Person → Assembled → String → Time → User
new_user db cfgs a person s domain ts = record {
  ver = 6;
  user_id = s.id;
  name = s.name;
  created_at = ts;
  is_brigadier = a.is_brigadier;
  is_socket = false;
  is_blocked = false;
  blocked_at = zero_time;
  delayed_deletion = false;
  delayed_creation = false;
  delayed_blocking = false;
  delayed_replay = false;
  ipv4_addr = s.ipv4;
  ipv6_addr = s.ipv6;
  endpoint_domain = "";
  wg_public_key = a.wg_pub;
  wg_psk_router_enc = a.wg_router_psk;
  wg_psk_shuffler_enc = a.wg_shuffler_psk;
  cloak_bypass_uid_router_enc = a.cloak_router;
  cloak_bypass_uid_shuffler_enc = a.cloak_shuffler;
  ov_csr_gzip_base64 = (if map_len cfgs.ovc == 0 then "" else a.ovc_csr);
  ipsec_username_router_enc = a.ipsec_username_router;
  ipsec_username_shuffler_enc = a.ipsec_username_shuffler;
  ipsec_password_router_enc = a.ipsec_password_router;
  ipsec_password_shuffler_enc = a.ipsec_password_shuffler;
  outline_secret_router_enc = a.outline_router;
  outline_secret_shuffler_enc = a.outline_shuffler;
  proto0_user_fake_domain = domain;
  proto0_secret_router_enc = a.proto0_router;
  proto0_secret_shuffler_enc = a.proto0_shuffler;
  person = person;
  quotas = new_quota db ts;
}

unfoldable pub user_config :
    BrigadeStorage
    → ConfigsImplemented
    → Brigade
    → Assembled
    → String
    → String
    → String
    → ℕ
    → UserConfig
user_config db cfgs b s pem cert domain count = record {
  id = s.id;
  name = s.name;
  ipv4 = s.ipv4;
  ipv6 = s.ipv6;
  endpoint_wg_public = b.wg_public_key;
  endpoint_ipv4 = b.endpoint_ipv4;
  endpoint_domain = b.endpoint_domain;
  endpoint_port = b.endpoint_port;
  dns_v4 = b.dns4;
  dns_v6 = b.dns6;
  ipsec_psk = b.ipsec_psk;
  ov_ca_cert_pem = pem;
  ov_client_cert_pem = cert;
  outline_port = (if map_len cfgs.outline == 0 then 0 else b.outline_port);
  cloak_fake_domain =
      (if map_len cfgs.outline == 0 && map_len cfgs.ovc == 0 then "" else b.cloak_fake_domain);
  proto0_fake_domain = domain;
  proto0_port = (if map_len cfgs.proto0 == 0 then 0 else b.proto0_port);
  free_slots = int_minus db.max_users count;
  total_slots = db.max_users;
}

-- The brigade with a new user, in order.
unfoldable pub add_user : User → Brigade → Brigade
add_user u b = record b { users = sort_users (b.users ++ u ∷ []) }

-- `CreateUser`
unfoldable pub create_user :
    (String → Option String)
    → String
    → BrigadeStorage
    → ConfigsImplemented
    → NewUser
    → Draws
    → Time
    → M UserConfig
unfolding replaced ca_pem proto0_domain nth_text client_cert new_user user_config
create_user ungzip test_cert db cfgs a draws ts = do
  stored ← open_with_reading db
  (b, fullname, person) ← replaced db a stored
  s ← lift (assemble_user a.uid b fullname a.is_brigadier db.max_users draws)
  pem ← ca_pem ungzip cfgs b
  let domain = proto0_domain cfgs b draws.domain
  body ← wg_peer_add db.actual_addr_port a.wg_pub b.wg_public_key
  cert ← client_cert test_cert db body
  let b' = add_user (new_user db cfgs a person s domain ts) b
  commit_brigade b'
  pure (user_config db cfgs b s pem cert domain (length b'.users))
