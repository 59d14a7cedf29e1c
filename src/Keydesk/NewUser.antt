-- ===== src/Keydesk/NewUser.antt =====
-- `AddUser`, `AddBrigadier` and what they call in keydesk/user.go: keys for the configurations that the
-- brigade has, a user of the storage, and what the answer is made from. What key generation and
-- sealing give is in `KeyGen`, `none` where they fail. The texts of the configurations, and the names
-- of their files, are not modelled.
use keydesk.Storage.Brigades.{get_vpn_configs}
use keydesk.Storage.Users.{create_user}
use keydesk.Clock.{Time}
use keydesk.Storage.Accounts.{NewUser, UserConfig}
use keydesk.Storage.Db.{BrigadeStorage}
use keydesk.Storage.VpnConfigs.{ConfigMap, ConfigsImplemented, map_len}
use keydesk.Storage.Types.{Bytes, Person}
use keydesk.Prelude.{
  Bool, List, Option, String, [], false, if◌then◌else◌, ltb, none, some, ◌||◌, ◌∷◌,
}
use keydesk.World.{
  M, World, Result, ok, err, pure, lift, ◌>>=◌, user_collision, no_draw, generation_failed,
}
use keydesk.Storage.Users.Assemble.{◌then_ok◌, Draws, nil_uuid}

pub record WgKeys : Type 0 where
  pub public_key : Bytes
  pub private_key : Bytes
  pub psk : Bytes
  pub router_psk : Bytes
  pub shuffler_psk : Bytes

pub record OvcKeys : Type 0 where
  pub private_pem : String
  pub csr_gzip_base64 : String

pub record Enclosed : Type 0 where
  pub text : String
  pub router_enc : String
  pub shuffler_enc : String

pub record LoginKeys : Type 0 where
  pub username : Enclosed
  pub password : Enclosed

pub record Proto0Keys : Type 0 where
  pub long_id : String
  pub short_id : String
  pub router_enc : String
  pub shuffler_enc : String

-- What `GenUserWGKeys`, `genUserOvcKeys`, `GenUserCloakKeys`, `genUserIPSecUserPass`,
-- `genUserOutlineSecret` and `genUserProto0Secret` return.
pub record KeyGen : Type 0 where
  pub wg : Option WgKeys
  pub ovc : Option OvcKeys
  pub cloak : Option Enclosed
  pub login : Option LoginKeys
  pub outline : Option Enclosed
  pub proto0 : Option Proto0Keys

pub record UserKeys : Type 0 where
  pub wg : WgKeys
  pub ovc : OvcKeys
  pub cloak : Enclosed
  pub login : LoginKeys
  pub outline : Enclosed
  pub proto0 : Proto0Keys

abbrev nothing : Enclosed
nothing = record { text = ""; router_enc = ""; shuffler_enc = "" }

generated {ℓ} : {A : Type ℓ} → Option A → Result A
generated none = err generation_failed
generated (some a) = ok a

-- Keys are generated where they are wanted, and are empty texts else.
if_wanted {ℓ} : {A : Type ℓ} → Bool → Option A → A → Result A
unfolding generated
if_wanted wanted o default = if wanted then generated o else ok default

wants : ConfigMap → Bool
wants m = ltb 0 (map_len m)

-- The keys of a new user, by the configurations.
unfoldable pub generate_user_keys : ConfigsImplemented → KeyGen → Result UserKeys
unfolding if_wanted wants generated
generate_user_keys cfgs k = generated k.wg then_ok λ wg.
    if_wanted (wants cfgs.ovc) k.ovc (record { private_pem = ""; csr_gzip_base64 = "" })
    then_ok λ ovc. if_wanted (wants cfgs.ovc || wants cfgs.outline) k.cloak nothing then_ok λ cloak.
        if_wanted (wants cfgs.ipsec) k.login (record { username = nothing; password = nothing })
        then_ok λ login. if_wanted (wants cfgs.outline) k.outline nothing then_ok λ outline.
            if_wanted (wants cfgs.proto0) k.proto0
              (record { long_id = ""; short_id = ""; router_enc = ""; shuffler_enc = "" })
            then_ok λ proto0. ok (record {
              wg = wg;
              ovc = ovc;
              cloak = cloak;
              login = login;
              outline = outline;
              proto0 = proto0;
            })

-- What `addUser` gives the storage.
unfoldable pub with_keys : UserKeys → String → Person → Bool → Bool → NewUser
with_keys k fullname person brigadier replace = record {
  uid = nil_uuid;
  fullname = fullname;
  person = person;
  is_brigadier = brigadier;
  replace_brigadier = replace;
  wg_pub = k.wg.public_key;
  wg_router_psk = k.wg.router_psk;
  wg_shuffler_psk = k.wg.shuffler_psk;
  ovc_csr = k.ovc.csr_gzip_base64;
  cloak_router = k.cloak.router_enc;
  cloak_shuffler = k.cloak.shuffler_enc;
  ipsec_username_router = k.login.username.router_enc;
  ipsec_password_router = k.login.password.router_enc;
  ipsec_username_shuffler = k.login.username.shuffler_enc;
  ipsec_password_shuffler = k.login.password.shuffler_enc;
  outline_router = k.outline.router_enc;
  outline_shuffler = k.outline.shuffler_enc;
  proto0_router = k.proto0.router_enc;
  proto0_shuffler = k.proto0.shuffler_enc;
}

-- What one call of `addUser` draws, and its time.
pub record Attempt : Type 0 where
  pub keys : KeyGen
  pub draws : Draws
  pub ts : Time

module _ (ungzip : String → Option String) (test_cert : String) (db : BrigadeStorage) where
  -- `addUser`
  unfoldable pub add_user_with :
      ConfigsImplemented → String → Person → Bool → Bool → Attempt → M (UserConfig × UserKeys)
  add_user_with cfgs fullname person brigadier replace a = do
    k ← lift (generate_user_keys cfgs a.keys)
    u ←
        create_user ungzip test_cert db cfgs (with_keys k fullname person brigadier replace) a.draws
          a.ts
    pure (u, k)

  -- Any error but a collision of names ends the loop.
  unfoldable pub or_again {ℓ} :
      {A : Type ℓ} → (World → Result A × World) → Result A × World → Result A × World
  or_again again (ok a, w) = (ok a, w)
  or_again again (err user_collision, w) = again w
  or_again again (err e, w) = (err e, w)

  no_request : ConfigsImplemented
  no_request = record { wg = none; ovc = none; ipsec = none; outline = none; proto0 = none }

  unfoldable pub one_user :
      String → Person → Attempt → M (UserConfig × ConfigsImplemented × UserKeys)
  unfolding no_request
  one_user fullname person a = do
    cfgs ← get_vpn_configs db no_request
    (u, k) ← add_user_with cfgs fullname person false false a
    pure (u, cfgs, k)

  -- `pickUpUser`, over what the generator of names gives and each attempt draws
  unfoldable pub pick_up_user :
      List (Option (String × Person) × Attempt) → M (UserConfig × ConfigsImplemented × UserKeys)
  pick_up_user [] w = (err no_draw, w)
  pick_up_user ((none, a) ∷ rest) w = (err generation_failed, w)
  pick_up_user ((some (fullname, person), a) ∷ rest) w =
      or_again (pick_up_user rest) (one_user fullname person a w)
