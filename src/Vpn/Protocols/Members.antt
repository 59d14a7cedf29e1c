-- ===== src/Vpn/Protocols/Members.antt =====
-- Which protocols a set of them has.
use keydesk.Prelude.{◌++◌, All, Bool, List, [], any, arith, refl, true, ◌||◌, ◌∷◌, ◌≡◌}
use keydesk.Vpn.Protocols.{
  Protocol, wireguard, shadowsocks, cloak, openvpn, l2tp, proto0, ConfigKind, same_protocol,
  has_protocol, put_protocol, add_protocols, protocols_onto, protocols_to_generate, cfg_protocols,
}

any-append {ℓ} :
    {A : Type ℓ} (f : A → Bool) (xs ys : List A) → any f (xs ++ ys) ≡ (any f xs || any f ys)
any-append f [] ys = refl
any-append f (x ∷ xs) ys = ground (arith, any-append f xs ys)

same_protocol_refl : (p : Protocol) → same_protocol p p ≡ true
same_protocol_refl wireguard = refl
same_protocol_refl shadowsocks = refl
same_protocol_refl cloak = refl
same_protocol_refl openvpn = refl
same_protocol_refl l2tp = refl
same_protocol_refl proto0 = refl

put_protocol-has : (ps : List Protocol) (p : Protocol) → has_protocol (put_protocol ps p) p ≡ true
unfolding put_protocol
put_protocol-has ps p =
    ground (arith, any-append (λ q. same_protocol q p) ps (p ∷ []), same_protocol_refl p)

put_protocol-keeps :
    (ps : List Protocol) (p q : Protocol)
    → has_protocol ps q ≡ true
    → has_protocol (put_protocol ps p) q ≡ true
unfolding put_protocol
put_protocol-keeps ps p q h = ground (arith, h, any-append (λ r. same_protocol r q) ps (p ∷ []))

add_protocols-keeps :
    (ps qs : List Protocol) (q : Protocol)
    → has_protocol ps q ≡ true
    → has_protocol (add_protocols ps qs) q ≡ true
unfolding add_protocols
add_protocols-keeps ps [] q h = h
add_protocols-keeps ps (p ∷ qs) q h =
    add_protocols-keeps (put_protocol ps p) qs q (put_protocol-keeps ps p q h)

add_protocols-All :
    (ps qs : List Protocol) → All (λ q. has_protocol (add_protocols ps qs) q ≡ true) qs
unfolding add_protocols
add_protocols-All ps [] = tt
add_protocols-All ps (q ∷ qs) = (
  add_protocols-keeps (put_protocol ps q) qs q (put_protocol-has ps q),
  add_protocols-All (put_protocol ps q) qs,
)

protocols_onto-keeps :
    (ps : List Protocol) (ks : List ConfigKind) (q : Protocol)
    → has_protocol ps q ≡ true
    → has_protocol (protocols_onto ps ks) q ≡ true
unfolding protocols_onto
protocols_onto-keeps ps [] q h = h
protocols_onto-keeps ps (k ∷ ks) q h =
    protocols_onto-keeps (add_protocols ps (cfg_protocols k)) ks q
      (add_protocols-keeps ps (cfg_protocols k) q h)

All-kept :
    (ps : List Protocol) (ks : List ConfigKind) (qs : List Protocol)
    → All (λ q. has_protocol ps q ≡ true) qs
    → All (λ q. has_protocol (protocols_onto ps ks) q ≡ true) qs
All-kept ps ks [] h = tt
All-kept ps ks (q ∷ qs) (p, h) = (protocols_onto-keeps ps ks q p, All-kept ps ks qs h)

-- A configuration's protocols are all in the set.
abbrev pub Serves : List Protocol → ConfigKind → Type 0
Serves ps k = All (λ q. has_protocol ps q ≡ true) (cfg_protocols k)

protocols_onto-Serves :
    (ps : List Protocol) (ks : List ConfigKind) → All (Serves (protocols_onto ps ks)) ks
unfolding protocols_onto
protocols_onto-Serves ps [] = tt
protocols_onto-Serves ps (k ∷ ks) = (
  All-kept (add_protocols ps (cfg_protocols k)) ks (cfg_protocols k)
      (add_protocols-All ps (cfg_protocols k)),
  protocols_onto-Serves (add_protocols ps (cfg_protocols k)) ks,
)

pub protocols_to_generate-Serves :
    (ks : List ConfigKind) → All (Serves (protocols_to_generate ks)) ks
unfolding protocols_to_generate
protocols_to_generate-Serves ks = protocols_onto-Serves (wireguard ∷ []) ks

pub protocols_to_generate-wireguard :
    (ks : List ConfigKind) → has_protocol (protocols_to_generate ks) wireguard ≡ true
unfolding protocols_to_generate
protocols_to_generate-wireguard ks = protocols_onto-keeps (wireguard ∷ []) ks wireguard refl
