-- ===== src/Examples/Data.antt =====
-- A brigade with two users, the storage of it, and worlds that hold it.
use keydesk.Storage.Accounts.{NewUser, new_counters, no_activity}
use keydesk.Storage.Users.Assemble.{Draws, nil_uuid}
use keydesk.World.{Body, World, json, answer}
use keydesk.Storage.Db.{BrigadeStorage}
use keydesk.Storage.Types.{
  UsersCounters, MarkedUsersCounters, BrigadeCounters, Quota, Uuid, User, Brigade, Bytes, ip4, ip6,
  no_addr,
}
use keydesk.Prelude.{ℕ, Bool, List, [], ◌∷◌, some, none, false, true, String, Option, ◌*◌, ◌+◌, ◌^◌}
use keydesk.Counters.{no_traffic}

abbrev pub no_users : UsersCounters
no_users = record {
  total_users_count = 0;
  active_users_count = 0;
  active_wg_users_count = 0;
  active_ipsec_users_count = 0;
  active_ovc_users_count = 0;
  active_olc_users_count = 0;
  active_outline_users_count = 0;
  active_proto0_users_count = 0;
  throttled_users_count = 0;
  blocked_users_count = 0;
}

abbrev pub no_marked : MarkedUsersCounters
no_marked = record {
  total_users = 0;
  wg_users = 0;
  ipsec_users = 0;
  ovc_users = 0;
  olc_users = 0;
  outline_users = 0;
  proto0_users = 0;
}

abbrev pub no_counters : BrigadeCounters
no_counters = record {
  users_counters = no_users;
  users50gb = no_marked;
  users100gb = no_marked;
  users500gb = no_marked;
  users1000gb = no_marked;
  total_traffic = new_counters;
  total_wg_traffic = new_counters;
  total_ipsec_traffic = new_counters;
  total_ovc_traffic = new_counters;
  total_outline_traffic = new_counters;
  total_proto0_traffic = new_counters;
  last_activity = 0;
  counters_update_time = 0;
}

abbrev pub no_quota : Quota
no_quota = record {
  ver = 6;
  os_wg_counters = no_traffic;
  os_ipsec_counters = no_traffic;
  os_ovc_counters = no_traffic;
  os_outline_counters = no_traffic;
  os_proto0_counters = no_traffic;
  counters_total = new_counters;
  counters_wg = new_counters;
  counters_ipsec = new_counters;
  counters_ovc = new_counters;
  counters_outline = new_counters;
  counters_proto0 = new_counters;
  limit_monthly_remaining = 0;
  limit_monthly_reset_on = 0;
  last_activity = no_activity;
  last_wg_activity = no_activity;
  last_ipsec_activity = no_activity;
  last_ovc_activity = no_activity;
  last_olc_activity = no_activity;
  last_outline_activity = no_activity;
  last_proto0_activity = no_activity;
  throttling_till = 0;
}

-- A user by its identifier, name, key, rank and the last byte of its addresses.
abbrev pub user_of : Uuid → String → Bytes → Bool → ℕ → User
user_of id name key brigadier n = record {
  ver = 6;
  user_id = id;
  name = name;
  created_at = 0;
  is_brigadier = brigadier;
  is_socket = false;
  is_blocked = false;
  blocked_at = 0;
  delayed_deletion = false;
  delayed_creation = false;
  delayed_blocking = false;
  delayed_replay = false;
  ipv4_addr = ip4 (0x64400000 + n);
  ipv6_addr = ip6 (0xfd00 * 2 ^ 112 + n);
  endpoint_domain = "";
  wg_public_key = key;
  wg_psk_router_enc = "";
  wg_psk_shuffler_enc = "";
  cloak_bypass_uid_router_enc = "";
  cloak_bypass_uid_shuffler_enc = "";
  ov_csr_gzip_base64 = "";
  ipsec_username_router_enc = "";
  ipsec_username_shuffler_enc = "";
  ipsec_password_router_enc = "";
  ipsec_password_shuffler_enc = "";
  outline_secret_router_enc = "";
  outline_secret_shuffler_enc = "";
  proto0_user_fake_domain = "";
  proto0_secret_router_enc = "";
  proto0_secret_shuffler_enc = "";
  person = "";
  quotas = no_quota;
}

abbrev pub brigadier : User
brigadier = user_of "b" "007 Niels Bohr" "bkey" true 7

abbrev pub member : User
member = user_of "m" "009 Max Born" "mkey" false 9

abbrev pub two_users : Brigade
two_users = record {
  counters = no_counters;
  stats_stack = [];
  ver = 12;
  vip = 0;
  brigade_id = "BRIGADE";
  created_at = 0;
  mode = "brigade";
  max_users = 0;
  wg_public_key = "wg";
  wg_private_router_enc = "priv";
  wg_private_shuffler_enc = "";
  cloak_fake_domain = "";
  cloak_faek_domain = "";
  ov_ca_key_router_enc = "";
  ov_ca_key_shuffler_enc = "";
  ov_ca_cert_pem_gzip_base64 = "";
  ipsec_psk = "";
  ipsec_psk_router_enc = "";
  ipsec_psk_shuffler_enc = "";
  endpoint_ipv4 = ip4 0x01020304;
  endpoint_domain = "";
  endpoint_port = 51820;
  outline_port = 0;
  proto0_fake_domain = "";
  proto0_fake_domains = [];
  proto0_port = 0;
  dns4 = no_addr;
  dns6 = no_addr;
  keydesk_ipv6 = no_addr;
  ipv4_cgnat = record { base = 0x64400000; bits = 24 };
  ipv6_ula = record { base = 0xfd00 * 2 ^ 112; bits = 64 };
  keydesk_first_visit = 0;
  users = brigadier ∷ member ∷ [];
  endpoints = [];
  messages = [];
  subscription = "";
}

abbrev pub storage : BrigadeStorage
storage = record {
  brigade_id = "BRIGADE";
  brigade_filename = "brigade.json";
  brigade_spinlock = "brigade.lock";
  api_addr_port = record { addr = ip4 0; port = 0 };
  calculated_addr_port = record { addr = ip6 1; port = 8080 };
  actual_addr_port = record { addr = ip6 1; port = 8080 };
  max_users = 250;
  monthly_quota_remaining = 100;
  max_user_inactivity_period = 30;
}

abbrev pub done_body : Body
done_body = record { code = "0"; client_certificate = some "cert"; stats = none }

-- The main file holds the brigade; calls fail as `fates` say, and the endpoint does what it is asked.
abbrev pub world_of : List Bool → World
world_of fates = record {
  brigade = record { main = some (json two_users); tmp = none; bak = none; linked = false };
  stats = record { main = none; tmp = none; bak = none; linked = false };
  fates = fates;
  replies = answer done_body ∷ answer done_body ∷ answer done_body ∷ [];
  accepted = [];
}

abbrev pub plain_text : String → Option String
plain_text s = some s

-- What a new user gets of the random numbers and of UUIDs.
abbrev pub draws : Draws
draws = record {
  uuids = "b" ∷ "n" ∷ [];
  ip4s = 0 ∷ 7 ∷ 11 ∷ [];
  ip6s =
      record { low = 0; low_sign = 0; high = 0; high_sign = 0 }
      ∷ record { low = 5; low_sign = 1; high = 0; high_sign = 0 }
      ∷ [];
  domain = 0;
}

abbrev pub newcomer : NewUser
newcomer = record {
  uid = nil_uuid;
  fullname = "Lise Meitner";
  person = "";
  is_brigadier = false;
  replace_brigadier = false;
  wg_pub = "nkey";
  wg_router_psk = "";
  wg_shuffler_psk = "";
  ovc_csr = "";
  cloak_router = "";
  cloak_shuffler = "";
  ipsec_username_router = "";
  ipsec_password_router = "";
  ipsec_username_shuffler = "";
  ipsec_password_shuffler = "";
  outline_router = "";
  outline_shuffler = "";
  proto0_router = "";
  proto0_shuffler = "";
}
