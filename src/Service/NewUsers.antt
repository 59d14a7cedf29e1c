-- ===== src/Service/NewUsers.antt =====
-- A new user of internal/user/user.go and create.go. What the generators of names, of UUIDs and of
-- random addresses give are lists of draws; a loop that ends with none of them has not ended.
use keydesk.Storage.Accounts.{new_counters, no_activity}
use keydesk.Kdlib.Net.{
  Draw6, last_prefix_ipv4, last_prefix_ipv6, random_addr_ipv4, random_addr_ipv6,
}
use keydesk.Clock.{Time, zero_time}
use keydesk.Counters.{DateSummaryNetCounters, no_traffic}
use keydesk.Storage.Types.{Person, Brigade, Uuid, Addr, Quota, ip4, ip6, User}
use keydesk.Prelude.{
  Bool, List, Option, String, [], false, if◌then◌else◌, map, none, not, some, true, ℕ, ◌∷◌,
}
use text.Mathlib.Text.{◌==◌ as str_eq}
use keydesk.World.{Result, ok, err, no_draw, generation_failed}
use keydesk.Storage.Users.Assemble.{◌then_ok◌, first_good, has_text, has_addr, user_name}

pub record ServiceDraws : Type 0 where
  pub people : List (Option (String × Person))
  pub uuids : List Uuid
  pub ip4s : List ℕ
  pub ip6s : List Draw6

-- `getExisting`: the names, identifiers and addresses that are taken
abbrev pub existing_names : Brigade → List String
existing_names b = map (λ u. u.name) b.users

abbrev pub existing_uids : Brigade → List Uuid
existing_uids b = map (λ u. u.user_id) b.users

abbrev pub existing_addr4 : Brigade → List Addr
existing_addr4 b =
    ip4 b.ipv4_cgnat.base ∷ last_prefix_ipv4 b.ipv4_cgnat ∷ map (λ u. u.ipv4_addr) b.users

abbrev pub existing_addr6 : Brigade → List Addr
existing_addr6 b =
    ip6 b.ipv6_ula.base ∷ last_prefix_ipv6 b.ipv6_ula ∷ map (λ u. u.ipv6_addr) b.users

-- `getUniquePerson`: the first person whose name is free, unless the generator fails before.
unfoldable pub unique_person :
    List String → List (Option (String × Person)) → Result (String × Person)
unique_person names [] = err no_draw
unique_person names (none ∷ draws) = err generation_failed
unique_person names (some (name, person) ∷ draws) =
    let rest = unique_person names draws in if has_text name names then rest else ok (name, person)

unfoldable pub drawn {ℓ} : {A : Type ℓ} → Option A → Result A
drawn none = err no_draw
drawn (some a) = ok a

-- `getUniqueUUID`
unfoldable pub unique_uuid : List Uuid → List Uuid → Result Uuid
unfolding drawn
unique_uuid uids draws = drawn (first_good (λ id. not (has_text id uids)) draws)

-- `getUniqueAddr4` and `getUniqueAddr6`, on the addresses that the draws stand for
unfoldable pub unique_addr : List Addr → List Addr → Result Addr
unfolding drawn
unique_addr taken draws = drawn (first_good (λ a. not (has_addr a taken)) draws)

abbrev zero_counters : DateSummaryNetCounters
zero_counters = record new_counters { ver = 0 }

-- The zero value of a quota.
abbrev zero_quota : Quota
zero_quota = record {
  ver = 0;
  os_wg_counters = no_traffic;
  os_ipsec_counters = no_traffic;
  os_ovc_counters = no_traffic;
  os_outline_counters = no_traffic;
  os_proto0_counters = no_traffic;
  counters_total = zero_counters;
  counters_wg = zero_counters;
  counters_ipsec = zero_counters;
  counters_ovc = zero_counters;
  counters_outline = zero_counters;
  counters_proto0 = zero_counters;
  limit_monthly_remaining = 0;
  limit_monthly_reset_on = zero_time;
  last_activity = no_activity;
  last_wg_activity = no_activity;
  last_ipsec_activity = no_activity;
  last_ovc_activity = no_activity;
  last_olc_activity = no_activity;
  last_outline_activity = no_activity;
  last_proto0_activity = no_activity;
  throttling_till = zero_time;
}

-- `storage.NewUser`, for a user that is no brigadier
unfoldable pub storage_new_user : Uuid → String → Time → Bool → Bool → Addr → Addr → Person → User
storage_new_user id name created brigadier socket v4 v6 person = record {
  ver = 0;
  user_id = id;
  name = name;
  created_at = created;
  is_brigadier = brigadier;
  is_socket = socket;
  is_blocked = false;
  blocked_at = zero_time;
  delayed_deletion = false;
  delayed_creation = false;
  delayed_blocking = false;
  delayed_replay = false;
  ipv4_addr = v4;
  ipv6_addr = v6;
  endpoint_domain = "";
  wg_public_key = "";
  wg_psk_router_enc = "";
  wg_psk_shuffler_enc = "";
  cloak_bypass_uid_router_enc = "";
  cloak_bypass_uid_shuffler_enc = "";
  ov_csr_gzip_base64 = "";
  ipsec_username_router_enc = "";
  ipsec_username_shuffler_enc = "";
  ipsec_password_router_enc = "";
  ipsec_password_shuffler_enc = "";
  outline_secret_router_enc = "";
  outline_secret_shuffler_enc = "";
  proto0_user_fake_domain = "";
  proto0_secret_router_enc = "";
  proto0_secret_shuffler_enc = "";
  person = person;
  quotas = zero_quota;
}

-- `newUser`; `blurIP4` makes the name that is stored, the same way as the storage does.
unfoldable pub service_new_user : Brigade → String → ServiceDraws → Time → Result User
service_new_user b domain d now = unique_person (existing_names b) d.people then_ok λ p.
    unique_uuid (existing_uids b) d.uuids then_ok λ id.
    unique_addr (existing_addr4 b) (map (random_addr_ipv4 b.ipv4_cgnat) d.ip4s) then_ok λ v4.
    unique_addr (existing_addr6 b) (map (random_addr_ipv6 b.ipv6_ula) d.ip6s) then_ok λ v6.
    let u = storage_new_user id (user_name b v4 p.0) now false true v4 v6 p.1 in
    ok (if str_eq domain "" then u else record u { endpoint_domain = domain })
