-- ===== src/Vpn/Generate/Made.antt =====
-- Which configurations GenerateConfigs of internal/vpn/generator.go makes.
use keydesk.Vpn.Protocols.Members.{Serves}
use keydesk.Vpn.Generate.Needs.{covers, is_there, same_protocol-covers}
use keydesk.Vpn.Generate.{put_config, put_configs, Configs}
use keydesk.Vpn.Generators.{Generated, WgRaw, CloakConfig, SsConfig, Proto0Client}
use keydesk.Prelude.{
  All, Bool, Bool-cases, List, Option, String, [], arith, false, inl, inr, none, refl, some, true,
  ◌∷◌, ◌≡◌,
}
use keydesk.Vpn.Protocols.{
  Protocol, wireguard, ConfigKind, for_wireguard, for_universal, for_outline, for_amnezia,
  for_ipsec, for_proto0, same_protocol, has_protocol, cfg_protocols,
}

-- A configuration of a kind is there, with all its parts.
has_all_parts : Option (WgRaw × CloakConfig × SsConfig × Option Proto0Client) → Bool
has_all_parts none = false
has_all_parts (some (wg, ck, ss, p0)) = is_there p0

unfoldable pub is_made : ConfigKind → Configs → Bool
unfolding has_all_parts
is_made for_wireguard c = is_there c.wireguard_config
is_made for_universal c = has_all_parts c.universal_config
is_made for_outline c = is_there c.outline_config
is_made for_amnezia c = is_there c.amnezia_config
is_made for_ipsec c = is_there c.ipsec_config
is_made for_proto0 c = is_there c.proto0_config

-- Nothing is made by a panic.
abbrev pub made_in : ConfigKind → Option Configs → Bool
made_in kind none = false
made_in kind (some c) = is_made kind c

pub has_protocol-covers :
    (ps : List Protocol) (p : Protocol) (g : Generated)
    → All (λ q. covers q g ≡ true) ps
    → has_protocol ps p ≡ true
    → covers p g ≡ true
has_protocol-covers [] p g h k = absurd (ground (arith, k))
has_protocol-covers (q ∷ ps) p g (c, h) k = elim (Bool-cases (same_protocol q p)) [
  | inl e ↦ same_protocol-covers q p g e c
  | inr e ↦ has_protocol-covers ps p g h (ground (arith, k, e))
]

has_protocols-cover :
    (ps qs : List Protocol) (g : Generated)
    → All (λ q. covers q g ≡ true) ps
    → All (λ q. has_protocol ps q ≡ true) qs
    → All (λ q. covers q g ≡ true) qs
has_protocols-cover ps [] g h k = tt
has_protocols-cover ps (q ∷ qs) g h (p, k) =
    (has_protocol-covers ps q g h p, has_protocols-cover ps qs g h k)

module _ (g : Generated) (name : String) (w : covers wireguard g ≡ true) where
  put_config-made :
      (kind : ConfigKind) (c : Configs)
      → All (λ q. covers q g ≡ true) (cfg_protocols kind)
      → made_in kind (put_config g name kind c) ≡ true
  unfolding put_config is_made
  put_config-made for_wireguard c h = ground (arith, w)
  put_config-made for_universal c h = ground (arith, w, h)
  put_config-made for_outline c h = ground (arith, h)
  put_config-made for_amnezia c h = ground (arith, h)
  put_config-made for_ipsec c h = ground (arith, h)
  put_config-made for_proto0 c h = ground (arith, h)

  put_config-keeps :
      (kind k : ConfigKind) (c : Configs)
      → All (λ q. covers q g ≡ true) (cfg_protocols kind)
      → is_made k c ≡ true
      → made_in k (put_config g name kind c) ≡ true
  unfolding put_config is_made
  put_config-keeps for_wireguard k c h m = ground (arith, w, m)
  put_config-keeps for_universal k c h m = ground (arith, w, h, m)
  put_config-keeps for_outline k c h m = ground (arith, h, m)
  put_config-keeps for_amnezia k c h m = ground (arith, h, m)
  put_config-keeps for_ipsec k c h m = ground (arith, h, m)
  put_config-keeps for_proto0 k c h m = ground (arith, h, m)

-- All the kinds are made, and without a panic.
abbrev pub MadeAll : List ConfigKind → Option Configs → Type 0
MadeAll kinds o = (is_there o ≡ true) × All (λ k. made_in k o ≡ true) kinds

module _ (ps : List Protocol) (g : Generated) (name : String) (w : covers wireguard g ≡ true)
    (h : All (λ q. covers q g ≡ true) ps) where
  put_configs-keeps :
      (kinds : List ConfigKind) (k : ConfigKind) (c : Configs)
      → All (Serves ps) kinds
      → is_made k c ≡ true
      → made_in k (put_configs g name kinds c) ≡ true
  unfolding put_configs
  put_configs-keeps [] k c s m = m
  put_configs-keeps (kind ∷ kinds) k c (s, ss) m =
      go (put_config g name kind c)
        (put_config-keeps g name w kind k c (has_protocols-cover ps (cfg_protocols kind) g h s) m)
        (λ c'. put_configs-keeps kinds k c' ss)
    where
      go :
          (r : Option Configs)
          → made_in k r ≡ true
          → ((c' : Configs) → is_made k c' ≡ true → made_in k (put_configs g name kinds c') ≡ true)
          → made_in k (elim r [ none ↦ none | some c' ↦ put_configs g name kinds c' ]) ≡ true
      go none e f = absurd (ground (arith, e))
      go (some c') e f = f c' e

  pub put_configs-MadeAll :
      (kinds : List ConfigKind) (c : Configs)
      → All (Serves ps) kinds
      → MadeAll kinds (put_configs g name kinds c)
  unfolding put_configs
  put_configs-MadeAll [] c s = (refl, tt)
  put_configs-MadeAll (kind ∷ kinds) c (s, ss) =
      go (put_config g name kind c)
        (put_config-made g name w kind c (has_protocols-cover ps (cfg_protocols kind) g h s))
        (λ c'. put_configs-keeps kinds kind c' ss) (λ c'. put_configs-MadeAll kinds c' ss)
    where
      go :
          (r : Option Configs)
          → made_in kind r ≡ true
          → ((c' : Configs)
              → is_made kind c' ≡ true
              → made_in kind (put_configs g name kinds c') ≡ true)
          → ((c' : Configs) → MadeAll kinds (put_configs g name kinds c'))
          → MadeAll (kind ∷ kinds) (elim r [ none ↦ none | some c' ↦ put_configs g name kinds c' ])
      go none e f n = absurd (ground (arith, e))
      go (some c') e f n = ((n c').0, (f c' e, (n c').1))
