-- ===== src/Storage/Accounts.antt =====
-- What CreateUser of keydesk/storage/user.go is given and what it returns, and the quota of a new user.
use keydesk.Prelude.Ints.{ℤ}
use keydesk.Prelude.{ℕ, Bool, String}
use keydesk.Clock.{Time, zero_time}
use keydesk.Counters.{DateSummaryNetCounters, no_traffic}
use keydesk.Kdlib.{next_monthly_reset_on}
use keydesk.Storage.Types.{Quota, LastActivityPoints, Addr, Uuid, Bytes, Person}
use keydesk.Storage.Db.{BrigadeStorage}

-- What a caller gives for a new user.
pub record NewUser : Type 0 where
  pub uid : Uuid
  pub fullname : String
  pub person : Person
  pub is_brigadier : Bool
  pub replace_brigadier : Bool
  pub wg_pub : Bytes
  pub wg_router_psk : Bytes
  pub wg_shuffler_psk : Bytes
  pub ovc_csr : String
  pub cloak_router : String
  pub cloak_shuffler : String
  pub ipsec_username_router : String
  pub ipsec_password_router : String
  pub ipsec_username_shuffler : String
  pub ipsec_password_shuffler : String
  pub outline_router : String
  pub outline_shuffler : String
  pub proto0_router : String
  pub proto0_shuffler : String

-- storage.UserConfig, the fields that `CreateUser` sets
pub record UserConfig : Type 0 where
  pub id : Uuid
  pub name : String
  pub ipv4 : Addr
  pub ipv6 : Addr
  pub endpoint_wg_public : Bytes
  pub endpoint_ipv4 : Addr
  pub endpoint_domain : String
  pub endpoint_port : ℕ
  pub dns_v4 : Addr
  pub dns_v6 : Addr
  pub ipsec_psk : String
  pub ov_ca_cert_pem : String
  pub ov_client_cert_pem : String
  pub outline_port : ℕ
  pub cloak_fake_domain : String
  pub proto0_fake_domain : String
  pub proto0_port : ℕ
  pub free_slots : ℤ
  pub total_slots : ℕ

abbrev pub new_counters : DateSummaryNetCounters
new_counters = record {
  ver = 1;
  update = zero_time;
  total = no_traffic;
  yearly = no_traffic;
  monthly = no_traffic;
  weekly = no_traffic;
  daily = no_traffic;
  prev_day = no_traffic;
}

abbrev pub no_activity : LastActivityPoints
no_activity = record {
  update = 0;
  total = 0;
  yearly = 0;
  monthly = 0;
  prev_monthly = 0;
  weekly = 0;
  daily = 0;
}

-- The quota of a new user, at the time `ts`.
unfoldable pub new_quota : BrigadeStorage → Time → Quota
new_quota db ts = record {
  ver = 6;
  os_wg_counters = no_traffic;
  os_ipsec_counters = no_traffic;
  os_ovc_counters = no_traffic;
  os_outline_counters = no_traffic;
  os_proto0_counters = no_traffic;
  counters_total = new_counters;
  counters_wg = new_counters;
  counters_ipsec = new_counters;
  counters_ovc = new_counters;
  counters_outline = new_counters;
  counters_proto0 = new_counters;
  limit_monthly_remaining = db.monthly_quota_remaining;
  limit_monthly_reset_on = next_monthly_reset_on ts;
  last_activity = no_activity;
  last_wg_activity = no_activity;
  last_ipsec_activity = no_activity;
  last_ovc_activity = no_activity;
  last_olc_activity = no_activity;
  last_outline_activity = no_activity;
  last_proto0_activity = no_activity;
  throttling_till = zero_time;
}
