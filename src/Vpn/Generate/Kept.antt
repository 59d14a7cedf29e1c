-- ===== src/Vpn/Generate/Kept.antt =====
-- What GenerateConfigs of internal/vpn/generator.go leaves of a user.
use keydesk.Vpn.Generate.Needs.{IfOk, IfOk-then, IfOk-map}
use keydesk.Vpn.Generate.{cert_given, generate_protocol, generate_all}
use keydesk.Storage.Types.{User, Brigade}
use keydesk.Prelude.{List, String, [], arith, refl, ◌∙◌, ◌∷◌, ◌≡◌}
use keydesk.Vpn.Generators.{
  Generated, wg_generate, ss_generate, cloak_generate, openvpn_generate, ipsec_generate,
  proto0_generate, Codecs, Secrets,
}
use keydesk.Vpn.Protocols.{Protocol}

-- What the endpoint and the storage know a user by.
abbrev pub SameUser : User → User → Type 0
SameUser u v = (v.user_id ≡ u.user_id) × (v.ipv4_addr ≡ u.ipv4_addr) × (v.ipv6_addr ≡ u.ipv6_addr)

SameUser-trans : (u v x : User) → SameUser u v → SameUser v x → SameUser u x
SameUser-trans u v x (a, b, c) (d, e, f) = (d ∙ a, e ∙ b, f ∙ c)

module _ (k : Codecs) (s : Secrets) (b : Brigade) where
  generate_protocol-SameUser :
      (p : Protocol) (g : Generated)
      → IfOk (λ g'. SameUser g.user g'.user) (generate_protocol k s b p g)
  unfolding generate_protocol wg_generate ss_generate cloak_generate openvpn_generate ipsec_generate
      proto0_generate
  generate_protocol-SameUser p g = ground arith

  pub generate_all-SameUser :
      (ps : List Protocol) (g : Generated)
      → IfOk (λ g'. SameUser g.user g'.user) (generate_all k s b ps g)
  unfolding generate_all
  generate_all-SameUser [] g = (refl, refl, refl)
  generate_all-SameUser (p ∷ ps) g =
      IfOk-then _ (generate_protocol k s b p g) (generate_all k s b ps) (
        IfOk-map _ _
          (λ (g' : Generated) h.
            IfOk-map _ _ (λ (g2 : Generated) l. SameUser-trans g.user g'.user g2.user h l) _
              (generate_all-SameUser ps g'))
          _ (generate_protocol-SameUser p g))

pub cert_given-user : (cert : String) (g : Generated) → (cert_given cert g).user ≡ g.user
unfolding cert_given
cert_given-user cert g = ground arith
