-- ===== src/Shuffler.antt =====
-- internal/shuffler/app/run.go: the answers of the shuffler's API, over the users' service.
pub mod Unknown
use keydesk.World.{blocked_forever, no_draw}
use keydesk.Messages.Handlers.{no_response}
use keydesk.Clock.{Time}
use keydesk.Messages.Handlers.{Responder, payload, failure}
use keydesk.Prelude.Ints.{ℤ}
use keydesk.Prelude.{Bool, List, Option, String, none, some, true, false, ℕ}
use keydesk.Service.NewUsers.{ServiceDraws}
use keydesk.Service.Users.{
  Created, Service, ServiceActivity, Slots, get_last_connections, service_create_user,
  service_delete_user, service_get_slots_info, service_unblock_user,
}
use keydesk.Storage.Types.{Uuid}
use keydesk.Vpn.Generate.{Configs}
use keydesk.Vpn.Generators.{
  CloakConfig, IpsecClient, OpenvpnConfig, Proto0Client, Secrets, SsConfig, WgRaw,
}
use keydesk.World.{Result, World, err, no_free_slots, not_found, ok}

-- `GetActivity`
unfoldable pub activity_answer :
    Result (List (Uuid × ServiceActivity)) × World
    → Responder (List (Uuid × ServiceActivity)) × World
activity_answer (ok seen, w) = (payload seen, w)
activity_answer (err blocked_forever, w) = (no_response, w)
activity_answer (err e, w) = (failure 500 500, w)

unfoldable pub handle_get_activity :
    Service → Time → World → Responder (List (Uuid × ServiceActivity)) × World
handle_get_activity s now w = activity_answer (get_last_connections s now w)

-- What the answer with a new user's configurations is made from: the fields that are the same in
-- `Configs`, under the names of the API.
pub record ShufflerConfigs : Type 0 where
  pub wireguard : Option (WgRaw × String)
  pub amnezia : Option (CloakConfig × OpenvpnConfig × String)
  pub vgc : Option (WgRaw × CloakConfig × SsConfig × Option Proto0Client)
  pub outline : Option SsConfig
  pub proto0 : Option Proto0Client
  pub ipsec : Option IpsecClient

pub record PostedConfigs : Type 0 where
  pub free_slots : ℤ
  pub total_slots : ℕ
  pub id : Uuid
  pub name : String
  pub domain : String
  pub configs : ShufflerConfigs

shuffler_configs : Configs → ShufflerConfigs
shuffler_configs c = record {
  wireguard = c.wireguard_config;
  amnezia = c.amnezia_config;
  vgc = c.universal_config;
  outline = c.outline_config;
  proto0 = c.proto0_config;
  ipsec = c.ipsec_config;
}

unfoldable pub configs_answer : Result Created × World → Responder PostedConfigs × World
unfolding shuffler_configs
configs_answer (ok c, w) = (
  payload (record {
    free_slots = c.slots.free;
    total_slots = c.slots.total;
    id = c.uuid;
    name = c.name;
    domain = c.domain;
    configs = shuffler_configs c.configs;
  }),
  w,
)
configs_answer (err no_free_slots, w) = (failure 507 507, w)
configs_answer (err blocked_forever, w) = (no_response, w)
configs_answer (err no_draw, w) = (no_response, w)
configs_answer (err e, w) = (failure 500 500, w)

domain_given : Option String → String
domain_given none = ""
domain_given (some d) = d

-- `PostConfigs`
unfoldable pub handle_post_configs :
    Service
    → ServiceDraws
    → Secrets
    → Time
    → List String
    → Option String
    → World
    → Responder PostedConfigs × World
unfolding domain_given
handle_post_configs s d secrets now configs domain w =
    configs_answer (service_create_user s d secrets now configs (domain_given domain) w)

-- The answers with the free slots: only the error of the service itself is a 404.
unfoldable pub free_answer : Result ℤ × World → Responder ℤ × World
free_answer (ok free, w) = (payload free, w)
free_answer (err not_found, w) = (failure 404 404, w)
free_answer (err blocked_forever, w) = (no_response, w)
free_answer (err e, w) = (failure 500 500, w)

-- `PatchConfigsIdBlock`, `DeleteConfigsId` and `PatchConfigsIdUnblock`
unfoldable pub handle_patch_block : Service → Uuid → Time → World → Responder ℤ × World
handle_patch_block s id now w = free_answer (service_delete_user s id true now w)

unfoldable pub handle_delete_configs : Service → Uuid → Time → World → Responder ℤ × World
handle_delete_configs s id now w = free_answer (service_delete_user s id false now w)

unfoldable pub handle_patch_unblock : Service → Uuid → World → Responder ℤ × World
handle_patch_unblock s id w = free_answer (service_unblock_user s id w)

-- `GetSlots`
unfoldable pub slots_answer : Result Slots × World → Responder Slots × World
slots_answer (ok s, w) = (payload s, w)
slots_answer (err blocked_forever, w) = (no_response, w)
slots_answer (err e, w) = (failure 500 500, w)

unfoldable pub handle_get_slots : Service → World → Responder Slots × World
handle_get_slots s w = slots_answer (service_get_slots_info s w)
