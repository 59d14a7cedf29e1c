-- ===== src/Storage/VpnConfigs.antt =====
-- keydesk/storage/vpncfgs.go: which kinds of configuration are asked for. A map is the list of its
-- entries, `none` for nil.
use text.Mathlib.Text.{◌==◌ as str_eq}
use keydesk.Prelude.{
  ℕ, ◌&&◌, ◌++◌, Bool, List, Option, String, [], if◌then◌else◌, length, ltb, map, none, not, some,
  true, ◌||◌, ◌∷◌,
}
use keydesk.Storage.Types.{Brigade}

abbrev pub ConfigMap : Type 0
ConfigMap = Option (List (String × Bool))

pub record ConfigsImplemented : Type 0 where
  pub wg : ConfigMap
  pub ovc : ConfigMap
  pub ipsec : ConfigMap
  pub outline : ConfigMap
  pub proto0 : ConfigMap

abbrev pub map_len : ConfigMap → ℕ
map_len none = 0
map_len (some m) = length m

-- `NewConfigsImplemented`: empty maps
abbrev pub new_configs : ConfigsImplemented
new_configs = record {
  wg = some [];
  ovc = some [];
  ipsec = some [];
  outline = some [];
  proto0 = some [];
}

-- `add` of the configured kinds to an empty map
abbrev kinds : List String → ConfigMap
kinds ks = some (map (λ k. (k, true)) ks)

-- The request where there is one, and else all kinds.
requested_or : ConfigMap → ConfigMap → ConfigMap
requested_or none all = all
requested_or (some m) all = some m

pub new_wg_configs : ConfigMap → ConfigsImplemented → ConfigsImplemented
new_wg_configs req c = record c { wg = requested_or req (kinds ("native" ∷ "amnezia" ∷ [])) }

pub new_ovc_configs : ConfigMap → ConfigsImplemented → ConfigsImplemented
new_ovc_configs req c = record c { ovc = requested_or req (kinds ("amnezia" ∷ [])) }

pub new_ipsec_configs : ConfigMap → ConfigsImplemented → ConfigsImplemented
new_ipsec_configs req c = record c {
  ipsec = requested_or req (kinds ("manual" ∷ "ps" ∷ "mobileconfig" ∷ []));
}

pub new_outline_configs : ConfigMap → ConfigsImplemented → ConfigsImplemented
new_outline_configs req c = record c { outline = requested_or req (kinds ("access_key" ∷ [])) }

pub new_proto0_configs : ConfigMap → ConfigsImplemented → ConfigsImplemented
new_proto0_configs req c = record c { proto0 = requested_or req (kinds ("access_key" ∷ [])) }

abbrev pub is_set : String → Bool
is_set s = not (str_eq s "")

abbrev pub has_ovc : Brigade → Bool
has_ovc b =
    is_set b.ov_ca_cert_pem_gzip_base64
    && is_set b.ov_ca_key_router_enc
    && is_set b.ov_ca_key_shuffler_enc

abbrev pub has_ipsec : Brigade → Bool
has_ipsec b = is_set b.ipsec_psk && is_set b.ipsec_psk_router_enc && is_set b.ipsec_psk_shuffler_enc

abbrev pub has_proto0 : Brigade → Bool
has_proto0 b =
    (is_set b.proto0_fake_domain || ltb 0 (length b.proto0_fake_domains)) && ltb 0 b.proto0_port

abbrev when :
    Bool → (ConfigsImplemented → ConfigsImplemented) → ConfigsImplemented → ConfigsImplemented
when t f c = if t then f c else c

-- `GetVpnConfigs` on the brigade that it reads
unfoldable pub vpn_configs : ConfigsImplemented → Brigade → ConfigsImplemented
unfolding new_wg_configs new_ovc_configs new_ipsec_configs new_outline_configs new_proto0_configs
    requested_or
vpn_configs req b =
    let wg = new_wg_configs req.wg new_configs in
    let ovc = when (has_ovc b) (new_ovc_configs req.ovc) wg in
    let ipsec = when (has_ipsec b) (new_ipsec_configs req.ipsec) ovc in
    let outline = when (ltb 0 b.outline_port) (new_outline_configs req.outline) ipsec in
    when (has_proto0 b) (new_proto0_configs req.proto0) outline

abbrev listed : Bool → String → List String
listed t s = if t then s ∷ [] else []

-- `Brigade.GetSupportedVPNProtocols`
unfoldable pub supported_vpn_protocols : Brigade → List String
supported_vpn_protocols b =
    "wireguard"
    ∷ (listed (has_ovc b) "openvpn"
        ++ (listed (has_ipsec b) "l2tp"
            ++ (listed (ltb 0 b.outline_port) "shadowsocks"
                ++ (listed (is_set b.cloak_fake_domain) "cloak"
                    ++ listed (has_proto0 b) "proto0"))))
