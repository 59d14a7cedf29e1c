-- ===== src/Keydesk/Brigade.antt =====
-- `CreateBrigade` of keydesk/brigade.go. What the generation of keys gives is an argument, `none` where
-- it fails, and the draws of domains from the lists of keydesk/topsites.go are lists.
use keydesk.Storage.Brigades.{create_brigade}
use keydesk.Clock.{Time}
use keydesk.Storage.Db.{BrigadeStorage}
use keydesk.Counters.{DateSummaryNetCounters}
use keydesk.Storage.Types.{Brigade}
use keydesk.Storage.VpnConfigs.{ConfigMap, ConfigsImplemented, map_len}
use keydesk.Storage.Setup.{WgConfig, Proto0Config, OvcConfig, Parts, IpsecConfig, BrigadeConfig}
use keydesk.Prelude.{
  ◌&&◌, ◌++◌, ◌==◌, Bool, List, Option, String, [], false, if◌then◌else◌, ltb, none, not, some,
  true, ◌||◌, ℕ, ◌∷◌,
}
use text.Mathlib.Text.{◌==◌ as str_eq}
use keydesk.World.{M, Result, ok, err, lift, ◌>>=◌, generation_failed, no_draw}
use keydesk.Storage.Users.Assemble.{◌then_ok◌, first_good, has_text}

-- What `genEndpointWGKeys`, `GenEndpointOpenVPNoverCloakCreds` and `GenEndpointIPSecCreds` return, and
-- what `GetRandomSite` and `GetRandomSites0` draw.
pub record BrigadeKeyGen : Type 0 where
  pub wg : Option WgConfig
  pub ovc : Option OvcConfig
  pub ipsec : Option IpsecConfig
  pub sites : List String
  pub sites0 : List String

-- `GenEndpointCloakCreds`: the loop ends with a site that is not the other domain.
unfoldable pub gen_endpoint_cloak_creds : String → List String → Result String
gen_endpoint_cloak_creds proto0_fake_domain sites =
    elim (first_good (λ s. not (str_eq s proto0_fake_domain)) sites) [
      | none ↦ err no_draw
      | some s ↦ ok s
    ]

-- `GenEndpointProto0Creds`
unfoldable pub gen_endpoint_proto0_creds : String → ℕ → List String → Proto0Config
gen_endpoint_proto0_creds domain port sites = record {
  fake_domains =
      (if not (str_eq domain "") && not (has_text domain sites)
        then sites ++ domain ∷ []
        else sites);
  fake_domain = "";
  port = (if port == 0 then 443 else port);
}

optional {ℓ} : {A : Type ℓ} → Bool → Result A → Result (Option A)
optional false r = ok none
optional true (ok a) = ok (some a)
optional true (err e) = err e

required {ℓ} : {A : Type ℓ} → Option A → Result A
required none = err generation_failed
required (some a) = ok a

is_wanted : ConfigMap → Bool
is_wanted m = ltb 0 (map_len m)

domain_or_none : Option String → String
domain_or_none none = ""
domain_or_none (some s) = s

-- The parts of the new brigade, by the configurations that it is to have.
unfoldable pub brigade_parts : ConfigsImplemented → ℕ → BrigadeKeyGen → Result Parts
unfolding optional required is_wanted domain_or_none
brigade_parts cfgs outline_port k = optional (is_wanted cfgs.ovc) (required k.ovc) then_ok λ ovc.
    optional (is_wanted cfgs.ipsec) (required k.ipsec) then_ok λ ipsec.
    optional (is_wanted cfgs.ovc || is_wanted cfgs.outline) (gen_endpoint_cloak_creds "" k.sites)
    then_ok λ cloak. ok (record {
      ovc = ovc;
      cloak = domain_or_none cloak;
      ipsec = ipsec;
      outline = (if is_wanted cfgs.outline then some outline_port else none);
      proto0 =
          (if is_wanted cfgs.proto0 then some (gen_endpoint_proto0_creds "" 0 k.sites0) else none);
    })

-- `keydesk.CreateBrigade`
unfoldable pub create_brigade_with :
    Brigade
    → DateSummaryNetCounters
    → BrigadeStorage
    → ConfigsImplemented
    → BrigadeConfig
    → ℕ
    → BrigadeKeyGen
    → String
    → ℕ
    → Bool
    → Time
    → M (Unit {0})
unfolding required
create_brigade_with blank counters db cfgs config outline_port k mode max_users vip ts = do
  wg ← lift (required k.wg)
  parts ← lift (brigade_parts cfgs outline_port k)
  create_brigade blank counters db config wg parts mode max_users vip ts
