-- ===== src/Vpn/Types.antt =====
-- What the generators of internal/vpn/wg, ss, cloak, openvpn, ipsec and proto0 give. What key generation,
-- UUIDs and sealing give is in `Secrets`, `none` where they fail. The texts that are made from the raw
-- configurations are not modelled.
use keydesk.Storage.Types.{Bytes, Addr, User}
use keydesk.Prelude.{Bool, List, Option, String, [], none, ℕ}

-- utils.NaClBox, in base64.
pub record NaclBox : Type 0 where
  pub router : String
  pub shuffler : String

pub record WgSecret : Type 0 where
  pub private_key : Bytes
  pub public_key : Bytes
  pub psk : Bytes
  pub sealed : NaclBox

pub record Sealed : Type 0 where
  pub plain_text : String
  pub sealed : NaclBox

pub record LoginSecret : Type 0 where
  pub username : Sealed
  pub password : Sealed

pub record Proto0Secret : Type 0 where
  pub long_id : String
  pub short_id : String
  pub sealed : NaclBox

pub record CsrSecret : Type 0 where
  pub csr : String
  pub key_pem : String

pub record Secrets : Type 0 where
  pub wg : Option WgSecret
  pub ss : Option Sealed
  pub bypass_id : Option Sealed
  pub csr : Option CsrSecret
  pub login : Option LoginSecret
  pub proto0 : Option Proto0Secret

-- wg.RawConfig, ss.Config, cloak.Config, openvpn.Config, ipsec.ClientConfig and proto0.Config, without
-- the fields that are constants.
pub record WgRaw : Type 0 where
  pub key : Bytes
  pub public_of_key : Bytes
  pub addresses : Addr × Addr
  pub dns : Addr × Addr
  pub public_key : Bytes
  pub preshared_key : Bytes
  pub host : String
  pub port : ℕ

pub record SsConfig : Type 0 where
  pub host : String
  pub port : ℕ
  pub password : String

pub record CloakConfig : Type 0 where
  pub host : String
  pub public_key : Bytes
  pub uid : String
  pub server_name : String

pub record OpenvpnConfig : Type 0 where
  pub ip : Addr
  pub ca : String
  pub cert : String
  pub key : String

pub record IpsecClient : Type 0 where
  pub username : String
  pub password : String
  pub host : String
  pub psk : String

pub record Proto0Client : Type 0 where
  pub public_key : Bytes
  pub id : String
  pub short_id : String
  pub host : String
  pub server_name : String
  pub port : ℕ

-- `Protocols`: what has been generated, with the user and the parameters for the endpoint.
pub record Generated : Type 0 where
  pub user : User
  pub ep_data : List (String × String)
  pub wg : Option WgRaw
  pub ss : Option SsConfig
  pub cloak : Option CloakConfig
  pub openvpn : Option OpenvpnConfig
  pub l2tp : Option IpsecClient
  pub proto0 : Option Proto0Client

abbrev pub nothing_generated : User → Generated
nothing_generated u = record {
  user = u;
  ep_data = [];
  wg = none;
  ss = none;
  cloak = none;
  openvpn = none;
  l2tp = none;
  proto0 = none;
}

-- The text of an address, whether `wgtypes.NewKey` takes a key, and `kdlib.Unbase64Ungzip`.
pub record Codecs : Type 0 where
  pub addr_text : Addr → String
  pub is_key : Bytes → Bool
  pub ungzip : String → Option String
