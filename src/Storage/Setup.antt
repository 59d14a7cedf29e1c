-- ===== src/Storage/Setup.antt =====
-- The brigade that CreateBrigade of keydesk/storage/brigade.go stores.
use text.Mathlib.Text.{◌==◌ as str_eq}
use keydesk.Prelude.{ℕ, Bool, List, Option, String, if◌then◌else◌, none, some}
use keydesk.Clock.{Time}
use keydesk.Counters.{DateSummaryNetCounters}
use keydesk.Storage.Types.{Brigade, Addr, Prefix, Bytes}

pub record BrigadeConfig : Type 0 where
  pub brigade_id : String
  pub endpoint_ipv4 : Addr
  pub endpoint_domain : String
  pub endpoint_port : ℕ
  pub dns_ipv4 : Addr
  pub dns_ipv6 : Addr
  pub ipv4_cgnat : Prefix
  pub ipv6_ula : Prefix
  pub keydesk_ipv6 : Addr

pub record WgConfig : Type 0 where
  pub public_key : Bytes
  pub private_router_enc : Bytes
  pub private_shuffler_enc : Bytes

pub record OvcConfig : Type 0 where
  pub ca_cert_pem_gzip_base64 : String
  pub router_ca_key : String
  pub shuffler_ca_key : String

pub record IpsecConfig : Type 0 where
  pub psk : String
  pub psk_router_enc : String
  pub psk_shuffler_enc : String

pub record Proto0Config : Type 0 where
  pub fake_domains : List String
  pub fake_domain : String
  pub port : ℕ

-- The optional parts of a new brigade: `none` for nil, and the cloak's domain as a text.
pub record Parts : Type 0 where
  pub ovc : Option OvcConfig
  pub cloak : String
  pub ipsec : Option IpsecConfig
  pub outline : Option ℕ
  pub proto0 : Option Proto0Config

with_base : BrigadeConfig → WgConfig → String → ℕ → Bool → Brigade → Brigade
with_base c wg mode max_users vip b = record b {
  mode = mode;
  max_users = (if str_eq mode "vgsocket" then max_users else b.max_users);
  vip = (if vip then 1 else b.vip);
  ipv4_cgnat = c.ipv4_cgnat;
  ipv6_ula = c.ipv6_ula;
  dns4 = c.dns_ipv4;
  dns6 = c.dns_ipv6;
  endpoint_ipv4 = c.endpoint_ipv4;
  endpoint_domain = c.endpoint_domain;
  endpoint_port = c.endpoint_port;
  keydesk_ipv6 = c.keydesk_ipv6;
  wg_public_key = wg.public_key;
  wg_private_router_enc = wg.private_router_enc;
  wg_private_shuffler_enc = wg.private_shuffler_enc;
}

with_ovc : Option OvcConfig → Brigade → Brigade
with_ovc none b = b
with_ovc (some c) b = record b {
  ov_ca_key_router_enc = c.router_ca_key;
  ov_ca_key_shuffler_enc = c.shuffler_ca_key;
  ov_ca_cert_pem_gzip_base64 = c.ca_cert_pem_gzip_base64;
}

with_ipsec : Option IpsecConfig → Brigade → Brigade
with_ipsec none b = b
with_ipsec (some c) b = record b {
  ipsec_psk = c.psk;
  ipsec_psk_router_enc = c.psk_router_enc;
  ipsec_psk_shuffler_enc = c.psk_shuffler_enc;
}

with_outline : Option ℕ → Brigade → Brigade
with_outline none b = b
with_outline (some port) b = record b { outline_port = port }

-- The cloak's domain is set where there is Outline or OpenVPN.
with_cloak : Parts → Brigade → Brigade
with_cloak p b = elim p.outline [
  | some port ↦ record b { cloak_fake_domain = p.cloak }
  | none ↦ elim p.ovc [ some c ↦ record b { cloak_fake_domain = p.cloak } | none ↦ b ]
]

with_proto0 : Option Proto0Config → Brigade → Brigade
with_proto0 none b = b
with_proto0 (some c) b = record b {
  proto0_fake_domain = c.fake_domain;
  proto0_fake_domains = c.fake_domains;
  proto0_port = c.port;
}

-- What `openWithoutReading` fills in: `blank` is the zero value of a brigade.
fill_in : String → Time → DateSummaryNetCounters → Brigade → Brigade
fill_in id ts counters blank = record blank {
  ver = 12;
  brigade_id = id;
  created_at = ts;
  counters = record (blank.counters) {
    total_traffic = counters;
    total_wg_traffic = counters;
    total_ipsec_traffic = counters;
  };
}

-- The brigade that `CreateBrigade` stores.
unfoldable pub new_brigade :
    Brigade
    → DateSummaryNetCounters
    → BrigadeConfig
    → WgConfig
    → Parts
    → String
    → ℕ
    → Bool
    → Time
    → Brigade
unfolding with_base with_ovc with_ipsec with_outline with_cloak with_proto0 fill_in
new_brigade blank counters c wg p mode max_users vip ts = with_proto0 p.proto0 (
    with_cloak p (
      with_outline p.outline (
        with_ipsec p.ipsec (
          with_ovc p.ovc
            (with_base c wg mode max_users vip (fill_in c.brigade_id ts counters blank))))))
