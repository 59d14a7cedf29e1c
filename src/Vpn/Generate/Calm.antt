-- ===== src/Vpn/Generate/Calm.antt =====
-- `GenerateConfigs` of internal/vpn/generator.go makes what it is asked for, and does not panic.
use keydesk.Vpn.Generate.Made.{is_made, made_in, MadeAll, put_configs-MadeAll, has_protocol-covers}
use keydesk.Vpn.Generate.Kept.{SameUser, generate_all-SameUser, cert_given-user}
use keydesk.Vpn.Generate.{blurred}
use keydesk.Storage.Types.{Addr, no_addr, ip4, ip6}
use keydesk.Kdlib.Blur.{extract_uint32_salt}
use keydesk.World.{unsupported}
use keydesk.Prelude.{ap, sym, ◌∙◌, ℕ, Bool, false}
use keydesk.Vpn.Protocols.Members.{protocols_to_generate-wireguard, protocols_to_generate-Serves}
use keydesk.Vpn.Generate.Needs.{covers, is_there, IfOk, generate_all-covers}
use keydesk.World.Api.{AddrPort}
use keydesk.Vpn.Generate.{
  put_configs, cert_given, generate_protocol, generate_all, Codecs, Configs, Bytes, Secrets,
  Brigade, ◌then_ok◌, or_nil_panic, User, protocols_to_generate, generate_configs,
  nothing_generated, supported_vpn_protocols, config_name, wg_key, no_configs,
}
use keydesk.Prelude.{All, List, Option, String, [], arith, none, refl, some, true, ◌∷◌, ◌≡◌, subst}
use keydesk.World.{Result, ok, err, M, and_then, panicked, World, Error}
use keydesk.Vpn.Protocols.{
  Protocol, wireguard, ConfigKind, config_kinds, check_supported, config_kind,
}
use keydesk.Vpn.Generators.{
  wg_generate, ss_generate, cloak_generate, openvpn_generate, ipsec_generate, proto0_generate,
  Generated,
}
use keydesk.Vpn.Client.{client_peer_add, client_call, client_answer, decode_response}

cert_given-covers :
    (cert : String) (p : Protocol) (g : Generated)
    → covers p g ≡ true
    → covers p (cert_given cert g) ≡ true
unfolding cert_given
cert_given-covers cert p g h = ground (arith, h)

-- A result is no panic.
abbrev IsCalm : Error → Type 0
IsCalm panicked = ⊥
IsCalm e = Unit

abbrev Calmly {ℓ} : {A : Type ℓ} → Result A → Type 0
Calmly (ok a) = Unit
Calmly (err e) = IsCalm e

config_kinds-Calmly : (configs : List String) → Calmly (config_kinds configs)
unfolding config_kinds
config_kinds-Calmly [] = tt
config_kinds-Calmly (c ∷ configs) = ground (arith, config_kinds-Calmly configs)

check_supported-Calmly :
    (supported : List String) (ps : List Protocol) → Calmly (check_supported supported ps)
unfolding check_supported
check_supported-Calmly supported [] = tt
check_supported-Calmly supported (p ∷ ps) = ground (arith, check_supported-Calmly supported ps)

generate_protocol-Calmly :
    (k : Codecs) (s : Secrets) (b : Brigade) (p : Protocol) (g : Generated)
    → Calmly (generate_protocol k s b p g)
unfolding generate_protocol wg_generate ss_generate cloak_generate openvpn_generate ipsec_generate
    proto0_generate
generate_protocol-Calmly k s b p g = ground arith

generate_all-Calmly :
    (k : Codecs) (s : Secrets) (b : Brigade) (ps : List Protocol) (g : Generated)
    → Calmly (generate_all k s b ps g)
unfolding generate_all
generate_all-Calmly k s b [] g = tt
generate_all-Calmly k s b (p ∷ ps) g =
    go (generate_protocol k s b p g) (generate_protocol-Calmly k s b p g)
      (λ g'. generate_all-Calmly k s b ps g')
  where
    go :
        (r : Result Generated)
        → Calmly r
        → ((g' : Generated) → Calmly (generate_all k s b ps g'))
        → Calmly (r then_ok λ g'. generate_all k s b ps g')
    go (ok g') h f = f g'
    go (err e) h f = h

client_peer_add-Calmly :
    (to : AddrPort) (key iface : Bytes) (w : World) → Calmly (client_peer_add to key iface w).0
unfolding client_peer_add client_call client_answer decode_response
client_peer_add-Calmly to key iface w = ground arith

-- A configuration is asked for by its name.
abbrev pub made_named : String → Configs → Bool
made_named s c = elim (config_kind s) [ none ↦ false | some kind ↦ is_made kind c ]

-- All the configurations that are asked for are made, or there is an error that is no panic.
abbrev pub Delivers : List String → Result (Configs × String × User) × World → Type 0
Delivers configs (ok r, w) = All (λ s. made_named s r.0 ≡ true) configs
Delivers configs (err e, w) = IsCalm e

config_kinds-named :
    (configs : List String) (kinds : List ConfigKind) (c : Configs)
    → config_kinds configs ≡ ok kinds
    → All (λ kind. is_made kind c ≡ true) kinds
    → All (λ s. made_named s c ≡ true) configs
unfolding config_kinds
config_kinds-named [] kinds c e h = tt
config_kinds-named (s ∷ configs) kinds c e h =
    go (config_kind s) (config_kinds configs) (config_kinds-named configs) kinds e h
  where
    go :
        (o : Option ConfigKind) (r : Result (List ConfigKind))
        → ((kinds : List ConfigKind) (c : Configs)
            → r ≡ ok kinds
            → All (λ kind. is_made kind c ≡ true) kinds
            → All (λ s. made_named s c ≡ true) configs)
        → (kinds : List ConfigKind)
        → (elim o [ none ↦ err unsupported | some k ↦ r then_ok λ ks. ok (k ∷ ks) ]) ≡ ok kinds
        → All (λ kind. is_made kind c ≡ true) kinds
        → ((elim o [ none ↦ false | some kind ↦ is_made kind c ]) ≡ true)
          × All (λ s. made_named s c ≡ true) configs
    go none r f ks e h = absurd (ground (arith, e))
    go (some k) (err x) f ks e h = absurd (ground (arith, e))
    go (some k) (ok ks') f [] e h = absurd (ground (arith, e))
    go (some k) (ok ks') f (k2 ∷ ks) e (m, h) =
        (subst (λ t. is_made t c ≡ true) (sym (ground (arith, e))) m, f ks c (ground (arith, e)) h)

Delivers-then :
    {A : Type 0} (configs : List String) (r : Result A × World)
    (f : A → M (Configs × String × User))
    → Calmly r.0
    → ((a : A) (w : World) → r.0 ≡ ok a → Delivers configs (f a w))
    → Delivers configs (and_then r f)
Delivers-then configs (ok a, w) f h k = k a w refl
Delivers-then configs (err e, w) f h k = h

there-then :
    {A : Type 0} (configs : List String) (o : Option A) (w : World)
    (f : A → M (Configs × String × User))
    → is_there o ≡ true
    → ((a : A) → o ≡ some a → Delivers configs (f a w))
    → Delivers configs (and_then (or_nil_panic o w) f)
unfolding or_nil_panic
there-then configs none w f h k = absurd (ground (arith, h))
there-then configs (some a) w f h k = k a refl

All-cert :
    (cert : String) (g : Generated) (ps : List Protocol)
    → All (λ p. covers p g ≡ true) ps
    → All (λ p. covers p (cert_given cert g) ≡ true) ps
All-cert cert g [] h = tt
All-cert cert g (p ∷ ps) (c, h) = (cert_given-covers cert p g c, All-cert cert g ps h)

blurred-there :
    (a : Addr) (bits salt : ℕ) → (a ≡ no_addr → ⊥) → is_there (blurred a bits salt) ≡ true
unfolding blurred
blurred-there no_addr bits salt h = absurd (h refl)
blurred-there (ip4 n) bits salt h = refl
blurred-there (ip6 n) bits salt h = refl

config_name-there :
    (b : Brigade) (v : User)
    → (b.endpoint_ipv4 ≡ no_addr → ⊥)
    → (v.ipv4_addr ≡ no_addr → ⊥)
    → is_there (config_name b v) ≡ true
unfolding config_name
config_name-there b v h k = ground (
  arith,
  blurred-there b.endpoint_ipv4 24 (extract_uint32_salt b.brigade_id) h,
  blurred-there v.ipv4_addr b.ipv4_cgnat.bits (extract_uint32_salt b.brigade_id) k,
)

module _ (to : AddrPort) (k : Codecs) (s : Secrets) (b : Brigade) (u : User) where
  generated-covers :
      (ps : List Protocol) (g : Generated) (cert : String)
      → generate_all k s b ps (nothing_generated u) ≡ ok g
      → All (λ p. covers p (cert_given cert g) ≡ true) ps
  generated-covers ps g cert e = All-cert cert g ps (
      subst (IfOk (λ g'. All (λ p. covers p g' ≡ true) ps)) e
        (generate_all-covers k s b ps (nothing_generated u)))

  -- What is generated serves the configurations.
  assembled :
      (kinds : List ConfigKind) (g : Generated) (cert name : String)
      → generate_all k s b (protocols_to_generate kinds) (nothing_generated u) ≡ ok g
      → MadeAll kinds (put_configs (cert_given cert g) name kinds no_configs)
  assembled kinds g cert name e =
      let covered = generated-covers (protocols_to_generate kinds) g cert e in
      put_configs-MadeAll (protocols_to_generate kinds) (cert_given cert g) name
        (has_protocol-covers (protocols_to_generate kinds) wireguard (cert_given cert g) covered
          (protocols_to_generate-wireguard kinds))
        covered kinds no_configs (protocols_to_generate-Serves kinds)

  same_addr :
      (kinds : List ConfigKind) (g : Generated) (cert : String)
      → generate_all k s b (protocols_to_generate kinds) (nothing_generated u) ≡ ok g
      → (cert_given cert g).user.ipv4_addr ≡ u.ipv4_addr
  same_addr kinds g cert e =
      ap (λ (v : User). v.ipv4_addr) (cert_given-user cert g)
      ∙ (subst (IfOk (λ g'. SameUser u g'.user)) e
          (generate_all-SameUser k s b (protocols_to_generate kinds) (nothing_generated u))).1

  -- Where the brigade and the user have addresses, whatever configurations are asked for, with whatever
  -- keys and answers of the endpoint: if they are made, every one that was asked for is there with all
  -- its parts (that of the universal one includes protocol 0), and else there is an error and no panic.
  pub generate_configs-Delivers :
      (configs : List String) (w : World)
      → (b.endpoint_ipv4 ≡ no_addr → ⊥)
      → (u.ipv4_addr ≡ no_addr → ⊥)
      → Delivers configs (generate_configs to k s b u configs w)
  unfolding generate_configs
  generate_configs-Delivers configs w has_b has_u =
      Delivers-then configs (config_kinds configs, w) _ (config_kinds-Calmly configs)
        λ kinds w1 e1.
          Delivers-then configs
            (check_supported (supported_vpn_protocols b) (protocols_to_generate kinds), w1) _
            (check_supported-Calmly _ _)
            λ t w2 e2.
              Delivers-then configs
                (generate_all k s b (protocols_to_generate kinds) (nothing_generated u), w2) _
                (generate_all-Calmly k s b _ _)
                λ g w3 e3.
                  Delivers-then configs (client_peer_add to (wg_key g) b.wg_public_key w3) _
                    (client_peer_add-Calmly to (wg_key g) b.wg_public_key w3)
                    λ cert w4 e4.
                      there-then configs (config_name b (cert_given cert g).user) w4 _
                        (config_name-there b (cert_given cert g).user has_b
                          (λ e. has_u (sym (same_addr kinds g cert e3) ∙ e)))
                        λ name e5.
                          let made = assembled kinds g cert name e3 in
                          there-then configs (put_configs (cert_given cert g) name kinds no_configs)
                            w4 _ made.0
                            λ c e6.
                              config_kinds-named configs kinds c e1
                                (subst (λ o. All (λ kind. made_in kind o ≡ true) kinds) e6 made.1)
