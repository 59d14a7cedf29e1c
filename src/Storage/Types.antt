-- ===== src/Storage/Types.antt =====
-- keydesk/storage/types.go: what brigade.json holds.
-- A byte string stands as its base64 text, the form that the JSON file and the endpoint's statistics
-- have. A UUID stands as its canonical text. A person's card and a push subscription come from third
-- parties, and the program only carries them: they stand as texts, with "" for the zero value.
use keydesk.Prelude.{ℕ, Bool, String, List}
use keydesk.Prelude.Ints.{ℤ}
use keydesk.Clock.{Time}
use keydesk.Counters.{RxTx, DateSummaryNetCounters}

abbrev pub Bytes : Type 0
Bytes = String

abbrev pub Uuid : Type 0
Uuid = String

abbrev pub Person : Type 0
Person = String

abbrev pub Subscription : Type 0
Subscription = String

-- netip.Addr: the zero value is not an address; addresses are their numbers.
pub data Addr : Type 0 where
  no_addr : Addr
  ip4 : ℕ → Addr
  ip6 : ℕ → Addr

-- netip.Prefix of an address of one kind: the number of its address, and its length.
pub record Prefix : Type 0 where
  pub base : ℕ
  pub bits : ℕ

pub record LastActivityPoints : Type 0 where
  pub update : Time
  pub total : Time
  pub yearly : Time
  pub monthly : Time
  pub prev_monthly : Time
  pub weekly : Time
  pub daily : Time

pub record Quota : Type 0 where
  pub ver : ℕ
  pub os_wg_counters : RxTx
  pub os_ipsec_counters : RxTx
  pub os_ovc_counters : RxTx
  pub os_outline_counters : RxTx
  pub os_proto0_counters : RxTx
  pub counters_total : DateSummaryNetCounters
  pub counters_wg : DateSummaryNetCounters
  pub counters_ipsec : DateSummaryNetCounters
  pub counters_ovc : DateSummaryNetCounters
  pub counters_outline : DateSummaryNetCounters
  pub counters_proto0 : DateSummaryNetCounters
  pub limit_monthly_remaining : ℕ
  pub limit_monthly_reset_on : Time
  pub last_activity : LastActivityPoints
  pub last_wg_activity : LastActivityPoints
  pub last_ipsec_activity : LastActivityPoints
  pub last_ovc_activity : LastActivityPoints
  pub last_olc_activity : LastActivityPoints
  pub last_outline_activity : LastActivityPoints
  pub last_proto0_activity : LastActivityPoints
  pub throttling_till : Time

pub record User : Type 0 where
  pub ver : ℕ
  pub user_id : Uuid
  pub name : String
  pub created_at : Time
  pub is_brigadier : Bool
  pub is_socket : Bool
  pub is_blocked : Bool
  pub blocked_at : Time
  pub delayed_deletion : Bool
  pub delayed_creation : Bool
  pub delayed_blocking : Bool
  pub delayed_replay : Bool
  pub ipv4_addr : Addr
  pub ipv6_addr : Addr
  pub endpoint_domain : String
  pub wg_public_key : Bytes
  pub wg_psk_router_enc : Bytes
  pub wg_psk_shuffler_enc : Bytes
  pub cloak_bypass_uid_router_enc : String
  pub cloak_bypass_uid_shuffler_enc : String
  pub ov_csr_gzip_base64 : String
  pub ipsec_username_router_enc : String
  pub ipsec_username_shuffler_enc : String
  pub ipsec_password_router_enc : String
  pub ipsec_password_shuffler_enc : String
  pub outline_secret_router_enc : String
  pub outline_secret_shuffler_enc : String
  pub proto0_user_fake_domain : String
  pub proto0_secret_router_enc : String
  pub proto0_secret_shuffler_enc : String
  pub person : Person
  pub quotas : Quota

pub record UsersCounters : Type 0 where
  pub total_users_count : ℕ
  pub active_users_count : ℕ
  pub active_wg_users_count : ℕ
  pub active_ipsec_users_count : ℕ
  pub active_ovc_users_count : ℕ
  pub active_olc_users_count : ℕ
  pub active_outline_users_count : ℕ
  pub active_proto0_users_count : ℕ
  pub throttled_users_count : ℕ
  pub blocked_users_count : ℕ

-- How many users passed a limit of traffic on the day before.
pub record MarkedUsersCounters : Type 0 where
  pub total_users : ℕ
  pub wg_users : ℕ
  pub ipsec_users : ℕ
  pub ovc_users : ℕ
  pub olc_users : ℕ
  pub outline_users : ℕ
  pub proto0_users : ℕ

pub record NetCounters : Type 0 where
  pub total_traffic : RxTx
  pub total_wg_traffic : RxTx
  pub total_ipsec_traffic : RxTx
  pub total_ovc_traffic : RxTx
  pub total_outline_traffic : RxTx
  pub total_proto0_traffic : RxTx

pub record StatsCounters : Type 0 where
  pub users : UsersCounters
  pub net : NetCounters
  pub counters_update_time : Time

pub record BrigadeCounters : Type 0 where
  pub users_counters : UsersCounters
  pub users50gb : MarkedUsersCounters
  pub users100gb : MarkedUsersCounters
  pub users500gb : MarkedUsersCounters
  pub users1000gb : MarkedUsersCounters
  pub total_traffic : DateSummaryNetCounters
  pub total_wg_traffic : DateSummaryNetCounters
  pub total_ipsec_traffic : DateSummaryNetCounters
  pub total_ovc_traffic : DateSummaryNetCounters
  pub total_outline_traffic : DateSummaryNetCounters
  pub total_proto0_traffic : DateSummaryNetCounters
  pub last_activity : Time
  pub counters_update_time : Time

pub record TrafficCountersContainer : Type 0 where
  pub traffic_summary : RxTx
  pub traffic_wg : RxTx
  pub traffic_ipsec : RxTx
  pub traffic_ovc : RxTx
  pub traffic_outline : RxTx
  pub traffic_proto0 : RxTx

pub record Message : Type 0 where
  pub id : Uuid
  pub text : String
  pub title : String
  pub is_read : Bool
  pub priority : ℤ
  pub created_at : Time
  pub ttl : ℤ

-- Networks of the users, with the time when each was last seen.
abbrev pub UsersNetworks : Type 0
UsersNetworks = List (String × Time)

pub record Brigade : Type 0 where
  pub counters : BrigadeCounters
  pub stats_stack : List StatsCounters
  pub ver : ℕ
  pub vip : ℕ
  pub brigade_id : String
  pub created_at : Time
  pub mode : String
  pub max_users : ℕ
  pub wg_public_key : Bytes
  pub wg_private_router_enc : Bytes
  pub wg_private_shuffler_enc : Bytes
  pub cloak_fake_domain : String
  pub cloak_faek_domain : String
  pub ov_ca_key_router_enc : String
  pub ov_ca_key_shuffler_enc : String
  pub ov_ca_cert_pem_gzip_base64 : String
  pub ipsec_psk : String
  pub ipsec_psk_router_enc : String
  pub ipsec_psk_shuffler_enc : String
  pub endpoint_ipv4 : Addr
  pub endpoint_domain : String
  pub endpoint_port : ℕ
  pub outline_port : ℕ
  pub proto0_fake_domain : String
  pub proto0_fake_domains : List String
  pub proto0_port : ℕ
  pub dns4 : Addr
  pub dns6 : Addr
  pub keydesk_ipv6 : Addr
  pub ipv4_cgnat : Prefix
  pub ipv6_ula : Prefix
  pub keydesk_first_visit : Time
  pub users : List User
  pub endpoints : UsersNetworks
  pub messages : List Message
  pub subscription : Subscription
