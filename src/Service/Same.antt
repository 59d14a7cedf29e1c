-- ===== src/Service/Same.antt =====
-- What GenerateConfigs of internal/vpn/generator.go leaves of a user, where it is done.
use keydesk.Vpn.Generate.Kept.{SameUser, generate_all-SameUser, cert_given-user}
use keydesk.Vpn.Client.{client_peer_add}
use keydesk.Storage.VpnConfigs.{supported_vpn_protocols}
use keydesk.Vpn.Generate.Needs.{IfOk}
use keydesk.World.Api.{AddrPort}
use keydesk.Vpn.Generate.{
  cert_given, generate_configs, generate_all, Configs, wg_key, or_nil_panic, put_configs,
  config_name, no_configs,
}
use keydesk.Storage.Types.{User, Brigade}
use keydesk.Prelude.{List, String, arith, refl, subst, sym, ◌≡◌}
use keydesk.World.{Result, ok, err, World, and_then, M}
use keydesk.Vpn.Generators.{Codecs, Secrets, nothing_generated}
use keydesk.Vpn.Protocols.{config_kinds, check_supported, protocols_to_generate}
use keydesk.Vpn.Generate.{or_nil_panic}

-- What holds where an operation is done.
abbrev pub IfDone {ℓ κ} : {A : Type ℓ} → (A → Type κ) → Result A × World → Type κ
IfDone P (ok a, w) = P a
IfDone P (err e, w) = Unit

pub IfDone-ok :
    {A : Type 0} (P : A → Type 0) (r : Result A × World) (a : A) → r.0 ≡ ok a → IfDone P r → P a
IfDone-ok P (ok x, w) a e h = subst (IfOk P) e h
IfDone-ok P (err x, w) a e h = absurd (ground (arith, e))

pub IfDone-then :
    {A B : Type 0} (P : B → Type 0) (r : Result A × World) (f : A → M B)
    → ((a : A) (w : World) → r.0 ≡ ok a → IfDone P (f a w))
    → IfDone P (and_then r f)
IfDone-then P (ok a, w) f h = h a w refl
IfDone-then P (err e, w) f h = tt

pub generate_configs-SameUser :
    (to : AddrPort) (k : Codecs) (s : Secrets) (b : Brigade) (u : User) (configs : List String)
    (w : World)
    → IfDone
        (λ (r : Configs × String × User). SameUser u r.2)
        (generate_configs to k s b u configs w)
unfolding generate_configs
generate_configs-SameUser to k s b u configs w =
    IfDone-then _ (config_kinds configs, w) _
      λ kinds w1 e1.
        IfDone-then _
          (check_supported (supported_vpn_protocols b) (protocols_to_generate kinds), w1) _
          λ t w2 e2.
            IfDone-then _
              (generate_all k s b (protocols_to_generate kinds) (nothing_generated u), w2) _
              λ g w3 e3.
                IfDone-then _ (client_peer_add to (wg_key g) b.wg_public_key w3) _ λ cert w4 e4.
                  IfDone-then _ (or_nil_panic (config_name b (cert_given cert g).user) w4) _
                    λ name w6 e6.
                      IfDone-then _
                        (or_nil_panic (put_configs (cert_given cert g) name kinds no_configs) w6) _
                        λ c w5 e5. subst (SameUser u) (sym (cert_given-user cert g)) (
                          subst (IfOk (λ g'. SameUser u g'.user)) e3 (
                            generate_all-SameUser k s b (protocols_to_generate kinds)
                              (nothing_generated u)))
