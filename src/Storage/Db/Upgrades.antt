-- ===== src/Storage/Db/Upgrades.antt =====
-- What reading makes of a stored brigade of keydesk/storage/db.go is left alone by the next reading.
use keydesk.Prelude.{
  ◌&&◌, ◌==◌, Bool-cases, ap, false, inl, inr, ltb, not, refl, ◌∙◌, ◌≡◌, Bool, arith,
}
use keydesk.Storage.Db.{upgraded, default_mode, legacy_domain, default_port}
use keydesk.Storage.Types.{Brigade}
use text.Mathlib.Text.{◌==◌ as str_eq}

abbrev is_legacy : Brigade → Bool
is_legacy b = str_eq b.cloak_fake_domain "" && not (str_eq b.cloak_faek_domain "")

abbrev no_port : Brigade → Bool
no_port b = ltb b.ver 7 && b.endpoint_port == 0

-- The brigade has what reading sets by default.
pub record IsUpgraded (b : Brigade) : Type 0 where
  pub has_mode : str_eq b.mode "" ≡ false
  pub has_domain : is_legacy b ≡ false
  pub has_port : no_port b ≡ false

default_mode-kept : (b : Brigade) → str_eq b.mode "" ≡ false → default_mode b ≡ b
unfolding default_mode
default_mode-kept b h = rw (default_mode, h) refl

legacy_domain-kept : (b : Brigade) → is_legacy b ≡ false → legacy_domain b ≡ b
unfolding legacy_domain
legacy_domain-kept b h = rw (legacy_domain, h) refl

default_port-kept : (b : Brigade) → no_port b ≡ false → default_port b ≡ b
unfolding default_port
default_port-kept b h = rw (default_port, h) refl

pub upgraded-IsUpgraded : (b : Brigade) → IsUpgraded b → upgraded b ≡ b
unfolding upgraded
upgraded-IsUpgraded b h =
    ap (λ c. default_port (legacy_domain c)) (default_mode-kept b h.has_mode)
    ∙ ap default_port (legacy_domain-kept b h.has_domain)
    ∙ default_port-kept b h.has_port

default_mode-mode : (b : Brigade) → str_eq (default_mode b).mode "" ≡ false
unfolding default_mode
default_mode-mode b = elim (Bool-cases (str_eq b.mode "")) [
  | inl e ↦ rw (default_mode, e) refl
  | inr e ↦ rw (default_mode, e) e
]

legacy_domain-domain : (b : Brigade) → is_legacy (legacy_domain b) ≡ false
unfolding legacy_domain
legacy_domain-domain b = ground arith

legacy_domain-mode : (b : Brigade) → (legacy_domain b).mode ≡ b.mode
unfolding legacy_domain
legacy_domain-mode b = ground arith

default_port-port : (b : Brigade) → no_port (default_port b) ≡ false
unfolding default_port
default_port-port b = ground arith

default_port-mode : (b : Brigade) → (default_port b).mode ≡ b.mode
unfolding default_port
default_port-mode b = ground arith

default_port-domain : (b : Brigade) → is_legacy (default_port b) ≡ is_legacy b
unfolding default_port
default_port-domain b = ground arith

pub IsUpgraded-upgraded : (b : Brigade) → IsUpgraded (upgraded b)
unfolding upgraded
IsUpgraded-upgraded b =
    let c = default_mode b in
    let d = legacy_domain c in
    record {
      has_mode =
          ap (λ t. str_eq t "") (default_port-mode d ∙ legacy_domain-mode c) ∙ default_mode-mode b;
      has_domain = default_port-domain d ∙ legacy_domain-domain c;
      has_port = default_port-port d;
    }
