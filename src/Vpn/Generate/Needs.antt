-- ===== src/Vpn/Generate/Needs.antt =====
-- What the configurations need is generated, so that none of them is made from a protocol that is not
-- there.
use keydesk.Vpn.Generate.{
  generate_protocol, wg_generate, ss_generate, cloak_generate, openvpn_generate, ipsec_generate,
  proto0_generate, ◌then_ok◌, generate_all,
}
use keydesk.Storage.Types.{Brigade}
use keydesk.Vpn.Generators.{Generated, Codecs, Secrets}
use keydesk.Prelude.{Bool, Option, arith, false, none, some, true, ◌≡◌, All, List, [], ◌∷◌}
use keydesk.World.{Result, ok, err}
use keydesk.Vpn.Protocols.{
  same_protocol, Protocol, wireguard, shadowsocks, cloak, openvpn, l2tp, proto0,
}
use keydesk.Vpn.Generators.{
  wg_generate, ss_generate, cloak_generate, openvpn_generate, ipsec_generate, proto0_generate,
}

abbrev pub is_there {ℓ} : {A : Type ℓ} → Option A → Bool
is_there none = false
is_there (some a) = true

-- A protocol has been generated.
abbrev pub covers : Protocol → Generated → Bool
covers wireguard g = is_there g.wg
covers shadowsocks g = is_there g.ss
covers cloak g = is_there g.cloak
covers openvpn g = is_there g.openvpn
covers l2tp g = is_there g.l2tp
covers proto0 g = is_there g.proto0

-- What holds of a result, if it is one.
abbrev pub IfOk {ℓ κ} : {A : Type ℓ} → (A → Type κ) → Result A → Type κ
IfOk P (ok a) = P a
IfOk P (err e) = Unit

module _ (k : Codecs) (s : Secrets) (b : Brigade) where
  generate_protocol-covers :
      (p : Protocol) (g : Generated) → IfOk (λ g'. covers p g' ≡ true) (generate_protocol k s b p g)
  unfolding generate_protocol wg_generate ss_generate cloak_generate openvpn_generate ipsec_generate
      proto0_generate
  generate_protocol-covers wireguard g = ground arith
  generate_protocol-covers shadowsocks g = ground arith
  generate_protocol-covers cloak g = ground arith
  generate_protocol-covers openvpn g = ground arith
  generate_protocol-covers l2tp g = ground arith
  generate_protocol-covers proto0 g = ground arith

  generate_protocol-keeps :
      (p q : Protocol) (g : Generated)
      → covers q g ≡ true
      → IfOk (λ g'. covers q g' ≡ true) (generate_protocol k s b p g)
  unfolding generate_protocol wg_generate ss_generate cloak_generate openvpn_generate ipsec_generate
      proto0_generate
  generate_protocol-keeps wireguard q g h = ground (arith, h)
  generate_protocol-keeps shadowsocks q g h = ground (arith, h)
  generate_protocol-keeps cloak q g h = ground (arith, h)
  generate_protocol-keeps openvpn q g h = ground (arith, h)
  generate_protocol-keeps l2tp q g h = ground (arith, h)
  generate_protocol-keeps proto0 q g h = ground (arith, h)

pub IfOk-then :
    {A B : Type 0} (P : B → Type 0) (r : Result A) (f : A → Result B)
    → IfOk (λ a. IfOk P (f a)) r
    → IfOk P (r then_ok f)
IfOk-then P (ok a) f h = h
IfOk-then P (err e) f h = h

pub IfOk-map :
    {A : Type 0} (P Q : A → Type 0) → ((a : A) → P a → Q a) → (r : Result A) → IfOk P r → IfOk Q r
IfOk-map P Q f (ok a) h = f a h
IfOk-map P Q f (err e) h = h

IfOk-both :
    {A : Type 0} (P Q : A → Type 0) (r : Result A) → IfOk P r → IfOk Q r → IfOk (λ a. P a × Q a) r
IfOk-both P Q (ok a) h k = (h, k)
IfOk-both P Q (err e) h k = tt

module _ (k : Codecs) (s : Secrets) (b : Brigade) where
  generate_all-keeps :
      (ps : List Protocol) (q : Protocol) (g : Generated)
      → covers q g ≡ true
      → IfOk (λ g'. covers q g' ≡ true) (generate_all k s b ps g)
  unfolding generate_all
  generate_all-keeps [] q g h = h
  generate_all-keeps (p ∷ ps) q g h =
      IfOk-then _ (generate_protocol k s b p g) (generate_all k s b ps)
        (IfOk-map _ _ (λ g'. generate_all-keeps ps q g') _ (generate_protocol-keeps k s b p q g h))

  pub generate_all-covers :
      (ps : List Protocol) (g : Generated)
      → IfOk (λ g'. All (λ p. covers p g' ≡ true) ps) (generate_all k s b ps g)
  unfolding generate_all
  generate_all-covers [] g = tt
  generate_all-covers (p ∷ ps) g =
      IfOk-then _ (generate_protocol k s b p g) (generate_all k s b ps) (
        IfOk-map _ _
          (λ g' c. IfOk-both _ _ _ (generate_all-keeps ps p g' c) (generate_all-covers ps g')) _
          (generate_protocol-covers k s b p g))

pub same_protocol-covers :
    (q p : Protocol) (g : Generated)
    → same_protocol q p ≡ true
    → covers q g ≡ true
    → covers p g ≡ true
same_protocol-covers wireguard wireguard g h c = c
same_protocol-covers wireguard shadowsocks g h c = absurd (ground (arith, h))
same_protocol-covers wireguard cloak g h c = absurd (ground (arith, h))
same_protocol-covers wireguard openvpn g h c = absurd (ground (arith, h))
same_protocol-covers wireguard l2tp g h c = absurd (ground (arith, h))
same_protocol-covers wireguard proto0 g h c = absurd (ground (arith, h))
same_protocol-covers shadowsocks wireguard g h c = absurd (ground (arith, h))
same_protocol-covers shadowsocks shadowsocks g h c = c
same_protocol-covers shadowsocks cloak g h c = absurd (ground (arith, h))
same_protocol-covers shadowsocks openvpn g h c = absurd (ground (arith, h))
same_protocol-covers shadowsocks l2tp g h c = absurd (ground (arith, h))
same_protocol-covers shadowsocks proto0 g h c = absurd (ground (arith, h))
same_protocol-covers cloak wireguard g h c = absurd (ground (arith, h))
same_protocol-covers cloak shadowsocks g h c = absurd (ground (arith, h))
same_protocol-covers cloak cloak g h c = c
same_protocol-covers cloak openvpn g h c = absurd (ground (arith, h))
same_protocol-covers cloak l2tp g h c = absurd (ground (arith, h))
same_protocol-covers cloak proto0 g h c = absurd (ground (arith, h))
same_protocol-covers openvpn wireguard g h c = absurd (ground (arith, h))
same_protocol-covers openvpn shadowsocks g h c = absurd (ground (arith, h))
same_protocol-covers openvpn cloak g h c = absurd (ground (arith, h))
same_protocol-covers openvpn openvpn g h c = c
same_protocol-covers openvpn l2tp g h c = absurd (ground (arith, h))
same_protocol-covers openvpn proto0 g h c = absurd (ground (arith, h))
same_protocol-covers l2tp wireguard g h c = absurd (ground (arith, h))
same_protocol-covers l2tp shadowsocks g h c = absurd (ground (arith, h))
same_protocol-covers l2tp cloak g h c = absurd (ground (arith, h))
same_protocol-covers l2tp openvpn g h c = absurd (ground (arith, h))
same_protocol-covers l2tp l2tp g h c = c
same_protocol-covers l2tp proto0 g h c = absurd (ground (arith, h))
same_protocol-covers proto0 wireguard g h c = absurd (ground (arith, h))
same_protocol-covers proto0 shadowsocks g h c = absurd (ground (arith, h))
same_protocol-covers proto0 cloak g h c = absurd (ground (arith, h))
same_protocol-covers proto0 openvpn g h c = absurd (ground (arith, h))
same_protocol-covers proto0 l2tp g h c = absurd (ground (arith, h))
same_protocol-covers proto0 proto0 g h c = c
