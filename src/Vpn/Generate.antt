-- ===== src/Vpn/Generate.antt =====
-- `GenerateConfigs` of internal/vpn/generator.go.
pub mod Calm
pub mod Needs
pub mod Kept
pub mod Made
use keydesk.Vpn.Client.{client_peer_add}
use keydesk.Storage.VpnConfigs.{supported_vpn_protocols}
use keydesk.Kdlib.Blur.{extract_uint32_salt, blur_ipv4_addr}
use keydesk.World.Api.{AddrPort}
use keydesk.Storage.Types.{Addr, no_addr, ip4, ip6, Brigade, User, Bytes}
use keydesk.Storage.Names.{decimal}
use keydesk.Vpn.Generators.{
  WgRaw, Codecs, Generated, CloakConfig, Secrets, SsConfig, wg_generate, Proto0Client, ss_generate,
  nothing_generated, OpenvpnConfig, cloak_generate, IpsecClient, openvpn_generate, ipsec_generate,
  proto0_generate,
}
use keydesk.Prelude.{List, Option, String, [], if◌then◌else◌, ltb, none, some, ℕ, ◌∷◌, ◌/◌, ◌^◌}
use Prim.Native.String.{◌++◌ as str_append}
use keydesk.World.{Result, ok, M, pure, raise, lift, ◌>>=◌, ◌>>◌, panicked}
use keydesk.Storage.Users.Assemble.{◌then_ok◌, addr_number}
use keydesk.Vpn.Protocols.{
  Protocol, wireguard, shadowsocks, cloak, openvpn, l2tp, proto0, ConfigKind, for_wireguard,
  for_universal, for_outline, for_amnezia, for_ipsec, for_proto0, config_kinds,
  protocols_to_generate, check_supported,
}

-- `Configs`: what each configuration is made from. Those in files have a name too.
pub record Configs : Type 0 where
  pub wireguard_config : Option (WgRaw × String)
  pub universal_config : Option (WgRaw × CloakConfig × SsConfig × Option Proto0Client)
  pub outline_config : Option SsConfig
  pub amnezia_config : Option (CloakConfig × OpenvpnConfig × String)
  pub ipsec_config : Option IpsecClient
  pub proto0_config : Option Proto0Client

abbrev pub no_configs : Configs
no_configs = record {
  wireguard_config = none;
  universal_config = none;
  outline_config = none;
  amnezia_config = none;
  ipsec_config = none;
  proto0_config = none;
}

-- "%03d" in front of a text.
padded : ℕ → String → String
padded n rest =
    let text = decimal 10 n rest in
    if ltb n 10
    then String.◌∷◌ "0" (String.◌∷◌ "0" text)
    else if ltb n 100
    then String.◌∷◌ "0" text
    else text

-- `BlurIpv4Addr`, which reads the first four bytes of the address and panics where there are none.
unfoldable pub blurred : Addr → ℕ → ℕ → Option ℕ
blurred no_addr bits salt = none
blurred (ip4 n) bits salt = some (blur_ipv4_addr n bits salt)
blurred (ip6 n) bits salt = some (blur_ipv4_addr (n / 2 ^ 96) bits salt)

-- The name "vpn_%03d_%03d" of the files; `none` is a panic.
unfoldable pub config_name : Brigade → User → Option String
unfolding padded
config_name b u =
    let salt = extract_uint32_salt b.brigade_id in
    elim (blurred b.endpoint_ipv4 24 salt) [
      | none ↦ none
      | some bnum ↦ elim (blurred u.ipv4_addr b.ipv4_cgnat.bits salt) [
        | none ↦ none
        | some unum ↦ some (str_append "vpn_" (padded bnum (str_append "_" (padded unum ""))))
      ]
    ]

module _ (k : Codecs) (s : Secrets) (b : Brigade) where
  unfoldable pub generate_protocol : Protocol → Generated → Result Generated
  generate_protocol wireguard g = wg_generate k s b g
  generate_protocol shadowsocks g = ss_generate k s b g
  generate_protocol cloak g = cloak_generate k s b g
  generate_protocol openvpn g = openvpn_generate k s b g
  generate_protocol l2tp g = ipsec_generate k s b g
  generate_protocol proto0 g = proto0_generate k s b g

  -- The loop over the protocols.
  unfoldable pub generate_all : List Protocol → Generated → Result Generated
  generate_all [] g = ok g
  generate_all (p ∷ ps) g = generate_protocol p g then_ok λ g'. generate_all ps g'

-- One configuration; `none` stands for the use of a protocol that was not generated, which panics.
unfoldable pub put_config : Generated → String → ConfigKind → Configs → Option Configs
put_config g name for_wireguard c = elim g.wg [
  | none ↦ none
  | some wg ↦ some (record c { wireguard_config = some (wg, name) })
]
put_config g name for_universal c = elim g.wg [
  | none ↦ none
  | some wg ↦ elim g.cloak [
    | none ↦ none
    | some ck ↦ elim g.ss [
      | none ↦ none
      | some ss ↦ some (record c { universal_config = some (wg, ck, ss, g.proto0) })
    ]
  ]
]
put_config g name for_outline c = elim g.ss [
  | none ↦ none
  | some ss ↦ some (record c { outline_config = some ss })
]
put_config g name for_amnezia c = elim g.cloak [
  | none ↦ none
  | some ck ↦ elim g.openvpn [
    | none ↦ none
    | some ov ↦ some (record c { amnezia_config = some (ck, ov, name) })
  ]
]
put_config g name for_ipsec c = some (record c { ipsec_config = g.l2tp })
put_config g name for_proto0 c = elim g.proto0 [
  | none ↦ none
  | some p0 ↦ some (record c { proto0_config = some p0 })
]

-- The loop over the configurations.
unfoldable pub put_configs : Generated → String → List ConfigKind → Configs → Option Configs
put_configs g name [] c = some c
put_configs g name (kind ∷ kinds) c = elim (put_config g name kind c) [
  | none ↦ none
  | some c' ↦ put_configs g name kinds c'
]

-- The public key that the endpoint is told.
unfoldable pub wg_key : Generated → Bytes
wg_key g = elim g.wg [ none ↦ "" | some wg ↦ wg.public_of_key ]

-- The certificate that the endpoint has made.
unfoldable pub cert_given : String → Generated → Generated
cert_given cert g = elim g.openvpn [
  | none ↦ g
  | some ov ↦ record g { openvpn = some (record ov { cert = cert }) }
]

unfoldable pub or_nil_panic {ℓ} : {A : Type ℓ} → Option A → M A
or_nil_panic none = raise panicked
or_nil_panic (some a) = pure a

-- `GenerateConfigs`, with the user that it fills in
unfoldable pub generate_configs :
    AddrPort → Codecs → Secrets → Brigade → User → List String → M (Configs × String × User)
generate_configs to k s b u configs = do
  kinds ← lift (config_kinds configs)
  lift (check_supported (supported_vpn_protocols b) (protocols_to_generate kinds))
  g ← lift (generate_all k s b (protocols_to_generate kinds) (nothing_generated u))
  cert ← client_peer_add to (wg_key g) b.wg_public_key
  let g' = cert_given cert g
  name ← or_nil_panic (config_name b g'.user)
  c ← or_nil_panic (put_configs g' name kinds no_configs)
  pure (c, name, g'.user)
