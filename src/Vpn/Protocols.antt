-- ===== src/Vpn/Protocols.antt =====
-- Which protocols the configurations of internal/vpn/generator.go need.
pub mod Members
use keydesk.Prelude.{◌++◌, Bool, List, Option, String, [], any, if◌then◌else◌, none, some, ◌∷◌}
use text.Mathlib.Text.{◌==◌ as str_eq}
use keydesk.World.{Result, ok, err, unsupported}
use keydesk.Storage.Users.Assemble.{◌then_ok◌}
use keydesk.Vpn.Sets.{set_contains}

-- A protocol, with its name.
pub data Protocol : Type 0 where
  wireguard shadowsocks cloak openvpn l2tp proto0 : Protocol

abbrev pub protocol_name : Protocol → String
protocol_name wireguard = "wireguard"
protocol_name shadowsocks = "shadowsocks"
protocol_name cloak = "cloak"
protocol_name openvpn = "openvpn"
protocol_name l2tp = "l2tp"
protocol_name proto0 = "proto0"

-- A configuration, with its name.
pub data ConfigKind : Type 0 where
  for_wireguard for_universal for_outline for_amnezia for_ipsec for_proto0 : ConfigKind

-- The names of the configurations: `none` is one that the map `cfgProtocols` does not have.
unfoldable pub config_kind : String → Option ConfigKind
config_kind c =
    if str_eq c "wireguard"
    then some for_wireguard
    else if str_eq c "universal"
    then some for_universal
    else if str_eq c "outline"
    then some for_outline
    else if str_eq c "amnezia"
    then some for_amnezia
    else if str_eq c "ipsec"
    then some for_ipsec
    else if str_eq c "proto0"
    then some for_proto0
    else none

-- `cfgProtocols`: WireGuard is always required.
abbrev pub cfg_protocols : ConfigKind → List Protocol
cfg_protocols for_wireguard = []
cfg_protocols for_universal = cloak ∷ shadowsocks ∷ proto0 ∷ []
cfg_protocols for_outline = cloak ∷ shadowsocks ∷ []
cfg_protocols for_amnezia = cloak ∷ openvpn ∷ []
cfg_protocols for_ipsec = l2tp ∷ []
cfg_protocols for_proto0 = proto0 ∷ []

unfoldable pub config_kinds : List String → Result (List ConfigKind)
config_kinds [] = ok []
config_kinds (c ∷ configs) = elim (config_kind c) [
  | none ↦ err unsupported
  | some k ↦ config_kinds configs then_ok λ ks. ok (k ∷ ks)
]

abbrev pub same_protocol : Protocol → Protocol → Bool
same_protocol p q = str_eq (protocol_name p) (protocol_name q)

abbrev pub has_protocol : List Protocol → Protocol → Bool
has_protocol ps p = any (λ q. same_protocol q p) ps

put_protocol : List Protocol → Protocol → List Protocol
put_protocol ps p = if has_protocol ps p then ps else ps ++ p ∷ []

add_protocols : List Protocol → List Protocol → List Protocol
unfolding put_protocol
add_protocols ps [] = ps
add_protocols ps (q ∷ qs) = add_protocols (put_protocol ps q) qs

-- The set of the protocols to generate, after the loop over the configurations.
unfoldable pub protocols_onto : List Protocol → List ConfigKind → List Protocol
unfolding add_protocols
protocols_onto ps [] = ps
protocols_onto ps (k ∷ ks) = protocols_onto (add_protocols ps (cfg_protocols k)) ks

unfoldable pub protocols_to_generate : List ConfigKind → List Protocol
protocols_to_generate ks = protocols_onto (wireguard ∷ []) ks

-- The protocols are among the supported ones.
unfoldable pub check_supported : List String → List Protocol → Result (Unit {0})
check_supported supported [] = ok tt
check_supported supported (p ∷ ps) =
    let rest = check_supported supported ps in
    if set_contains supported (protocol_name p) then rest else err unsupported
