-- ===== src/Keydesk/Answer.antt =====
-- `assembleConfig` of keydesk/user.go, and the two callers of it: what each part of the answer with a
-- new user's configurations is made from.
use keydesk.Prelude.Ints.{ℤ}
use keydesk.World.{no_draw, blocked_forever}
use keydesk.Messages.Handlers.{no_response}
use keydesk.Storage.Brigades.{get_vpn_configs}
use keydesk.Keydesk.Maintenance.{MaintenanceFile, check_in_paths}
use keydesk.Messages.Handlers.{Responder, failure, payload}
use keydesk.Clock.{Time}
use keydesk.Storage.Db.{BrigadeStorage}
use keydesk.Storage.Accounts.{UserConfig}
use keydesk.Storage.VpnConfigs.{ConfigMap, ConfigsImplemented, map_len}
use keydesk.Storage.Types.{Bytes, Uuid, Addr, Person}
use keydesk.Prelude.{
  ◌&&◌, Bool, List, Option, String, any, false, if◌then◌else◌, ltb, none, not, some, true, ℕ,
}
use text.Mathlib.Text.{◌==◌ as str_eq}
use keydesk.World.{M, World, Result, ok, err, raise, lift, ◌>>=◌, bad_key, on_maintenance}
use keydesk.Keydesk.NewUser.{UserKeys, Attempt, add_user_with, pick_up_user}

pub record WireguardPart : Type 0 where
  pub private_key : Bytes
  pub psk : Bytes

pub record IpsecPart : Type 0 where
  pub username : String
  pub password : String
  pub psk : String
  pub server : String

-- The parts of the configuration for the application of the service: WireGuard always, and Shadowsocks,
-- Cloak and protocol 0 where there are secrets and settings for them.
pub record VgcPart : Type 0 where
  pub host : String
  pub extended : ℕ
  pub wireguard : WireguardPart
  pub shadowsocks : Option (String × ℕ)
  pub cloak : Option (String × String)
  pub proto0 : Option (String × String × String × ℕ)

-- models.Newuser
pub record NewUserModel : Type 0 where
  pub user_id : Uuid
  pub user_name : String
  pub domain : String
  pub free_slots : ℤ
  pub total_slots : ℕ
  pub wireguard_config : Option WireguardPart
  pub amnz_ovc_config : Option (String × String × String)
  pub ipsec_l2tp_config : Option IpsecPart
  pub outline_config : Option (String × ℕ)
  pub proto0_config : Option (String × String × String × ℕ)
  pub vpn_gen_config : VgcPart

-- `m[kind]`
is_kind : ConfigMap → String → Bool
is_kind none kind = false
is_kind (some m) kind = any (λ e. str_eq e.0 kind && e.1) m

part {ℓ} : {A : Type ℓ} → Bool → A → Option A
part t a = if t then some a else none

-- The domain of the user's endpoint, or the text of its address.
config_host : (Addr → String) → UserConfig → String
config_host text u = if str_eq u.endpoint_domain "" then text u.endpoint_ipv4 else u.endpoint_domain

unfoldable pub vgc_part : (Addr → String) → UserConfig → ℕ → UserKeys → VgcPart
unfolding part config_host
vgc_part text u brigadier k =
    let has_outline = not (str_eq k.outline.text "") && ltb 0 u.outline_port in
    record {
      host = config_host text u;
      extended = brigadier;
      wireguard = record { private_key = k.wg.private_key; psk = k.wg.psk };
      shadowsocks = part has_outline (k.outline.text, u.outline_port);
      cloak =
          part (not (str_eq k.cloak.text "") && has_outline && not (str_eq u.cloak_fake_domain ""))
            (k.cloak.text, u.cloak_fake_domain);
      proto0 =
          part
            (not (str_eq k.proto0.long_id "")
              && not (str_eq k.proto0.short_id "")
              && not (str_eq u.proto0_fake_domain ""))
            (k.proto0.long_id, k.proto0.short_id, u.proto0_fake_domain, u.proto0_port);
    }

-- `assembleConfig`: `is_key` is whether `wgtypes.NewKey` takes a key.
unfoldable pub assemble_config :
    (Addr → String)
    → (Bytes → Bool)
    → UserConfig
    → ℕ
    → ConfigsImplemented
    → UserKeys
    → Result NewUserModel
unfolding part config_host is_kind
assemble_config text is_key u brigadier cfgs k =
    if is_key k.wg.private_key && is_key u.endpoint_wg_public && is_key k.wg.psk
    then ok (record {
      user_id = u.id;
      user_name = u.name;
      domain = config_host text u;
      free_slots = u.free_slots;
      total_slots = u.total_slots;
      wireguard_config =
          part (ltb 0 (map_len cfgs.wg))
            (record { private_key = k.wg.private_key; psk = k.wg.psk });
      amnz_ovc_config =
          part (is_kind cfgs.ovc "amnezia") (k.ovc.private_pem, k.cloak.text, u.ov_client_cert_pem);
      ipsec_l2tp_config = part (is_kind cfgs.ipsec "manual") (record {
        username = k.login.username.text;
        password = k.login.password.text;
        psk = u.ipsec_psk;
        server = config_host text u;
      });
      outline_config = part (is_kind cfgs.outline "access_key") (k.outline.text, u.outline_port);
      proto0_config =
          part (is_kind cfgs.proto0 "access_key")
            (k.proto0.long_id, k.proto0.short_id, u.proto0_fake_domain, u.proto0_port);
      vpn_gen_config = vgc_part text u brigadier k;
    })
    else err bad_key

module _ (ungzip : String → Option String) (test_cert : String) (text : Addr → String)
    (is_key : Bytes → Bool) (db : BrigadeStorage) where
  unfoldable pub add_user_answer :
      Result (UserConfig × ConfigsImplemented × UserKeys) × World → Responder NewUserModel × World
  add_user_answer (err blocked_forever, w) = (no_response, w)
  add_user_answer (err no_draw, w) = (no_response, w)
  add_user_answer (err e, w) = (failure 500 500, w)
  add_user_answer (ok (u, cfgs, k), w) = elim (assemble_config text is_key u 0 cfgs k) [
    | err e ↦ (failure 500 500, w)
    | ok m ↦ (payload m, w)
  ]

  -- `AddUser`
  unfoldable pub handle_add_user :
      List (Option (String × Person) × Attempt) → World → Responder NewUserModel × World
  handle_add_user attempts w = add_user_answer (pick_up_user ungzip test_cert db attempts w)

  -- `AddBrigadier`, at a time, with what the paths of the maintenance files hold; the removal of the file
  -- `.maintenance_till_restore` is left out. The name of the configuration file is left out too.
  unfoldable pub add_brigadier :
      Time
      → List (Option MaintenanceFile)
      → String
      → Person
      → Bool
      → ConfigsImplemented
      → Attempt
      → M NewUserModel
  add_brigadier now files fullname person replace request a =
      if (check_in_paths now files).found then raise on_maintenance else (do
        cfgs ← get_vpn_configs db request
        (u, k) ← add_user_with ungzip test_cert db cfgs fullname person true replace a
        lift (assemble_config text is_key u 1 cfgs k))
