-- ===== src/Examples/Serving.antt =====
-- The users' service, the VPN configurations and the maintenance files.
use keydesk.Prelude.Ints.{int_minus}
use keydesk.Clock.{Time, day_length, second}
use keydesk.Examples.Data.{two_users, world_of, storage, plain_text, done_body, member, brigadier}
use keydesk.Keydesk.Maintenance.{MaintenanceFile, check_in_paths, is_maintenance}
use keydesk.Keydesk.Maintenance.Latest.{
  IsLatest, check_in_paths-IsLatest, is_maintenance-empty_or_zero,
}
use keydesk.Prelude.{
  ◌*◌, ◌+◌, List, Option, String, [], arith, false, none, refl, some, true, ◌∷◌, ◌≡◌,
}
use keydesk.Prelude.Ints.{pos}
use keydesk.Service.Creation.{Adds, IfDone, create_in-Adds}
use keydesk.Service.Deletion.{delete_in-done, create_in-delete_in}
use keydesk.Service.NewUsers.{ServiceDraws}
use keydesk.Service.Users.{Service, create_in, delete_in}
use keydesk.Storage.Removal.{find_user}
use keydesk.Storage.Types.{Brigade}
use keydesk.Durable.Peers.{Answers}
use keydesk.Keydesk.Users.{handle_block_user, handle_unblock_user}
use keydesk.Keydesk.Blocking.{block-unblock}
use keydesk.Messages.Handlers.{payload}
use keydesk.Storage.Db.{upgraded}
use keydesk.Shuffler.{handle_delete_configs, handle_patch_block, handle_patch_unblock}
use keydesk.Shuffler.Unknown.{AnswersWith, handlers-unknown}
use keydesk.Vpn.Client.{decode_response}
use keydesk.Vpn.Generate.{generate_configs}
use keydesk.Vpn.Generate.Calm.{Delivers, generate_configs-Delivers}
use keydesk.Vpn.Generators.{Codecs, NaclBox, Sealed, Secrets}
use keydesk.World.{json, World, answer, ok, peer_del}

abbrev with_room : Brigade
with_room = record two_users {
  max_users = 5;
  cloak_fake_domain = "cloak.example";
  ov_ca_key_router_enc = "cakey";
  ov_ca_key_shuffler_enc = "cakey";
  ov_ca_cert_pem_gzip_base64 = "ca";
  outline_port = 443;
}

abbrev codecs : Codecs
codecs = record { addr_text = λ a. "1.2.3.4"; is_key = λ k. true; ungzip = plain_text }

abbrev service : Service
service = record { db = storage; endpoint = storage.actual_addr_port; codecs = codecs }

abbrev box : NaclBox
box = record { router = "r"; shuffler = "s" }

abbrev sealed : Sealed
sealed = record { plain_text = "secret"; sealed = box }

abbrev secrets : Secrets
secrets = record {
  wg = some (record { private_key = "priv"; public_key = "pub"; psk = "psk"; sealed = box });
  ss = some sealed;
  bypass_id = some sealed;
  csr = some (record { csr = "csr"; key_pem = "pem" });
  login = some (record { username = sealed; password = sealed });
  proto0 = some (record { long_id = "long"; short_id = "short"; sealed = box });
}

abbrev draws : ServiceDraws
draws = record {
  people = some ("Max Planck", "person") ∷ [];
  uuids = "b" ∷ "n" ∷ [];
  ip4s = 0 ∷ 11 ∷ [];
  ip6s =
      record { low = 0; low_sign = 0; high = 0; high_sign = 0 }
      ∷ record { low = 5; low_sign = 1; high = 0; high_sign = 0 }
      ∷ [];
}

abbrev world : World
world = world_of []

abbrev asked : List String
asked = "amnezia" ∷ "outline" ∷ []

generated_example :
    Delivers asked
      (generate_configs storage.actual_addr_port codecs secrets with_room member asked world)
generated_example =
    generate_configs-Delivers storage.actual_addr_port codecs secrets with_room member asked world
      (λ e. absurd (ground (arith, e))) (λ e. absurd (ground (arith, e)))

Adds_example :
    IfDone
      (λ r. Adds with_room r.0 r.1)
      (create_in service draws secrets 7 asked "" with_room world)
Adds_example = create_in-Adds service draws secrets 7 asked "" with_room world

done_example : delete_in service "m" false 7 with_room world ≡ (
  ok (record with_room { users = brigadier ∷ [] }, pos 4),
  record world {
    replies = answer done_body ∷ answer done_body ∷ [];
    accepted = peer_del "mkey" "wg" ∷ [];
  },
)
unfolding find_user decode_response int_minus
done_example =
    delete_in-done service "m" false 7 with_room world (brigadier ∷ []) member [] done_body "cert"
      (answer done_body ∷ answer done_body ∷ []) refl refl refl refl
      (λ e. absurd (ground (arith, e))) refl refl

taken_back_example :
    IfDone
      (λ r.
        IfDone
          (λ x. (x.0.users ≡ brigadier ∷ member ∷ []) × (x.1 ≡ pos 3))
          (delete_in service r.1.uuid false 9 r.0 world))
      (create_in service draws secrets 7 asked "" with_room world)
taken_back_example = create_in-delete_in service draws secrets 7 asked "" with_room world world 9

abbrev written : Time
written = 740000 * day_length

abbrev two_files : List (Option MaintenanceFile)
two_files =
    some (record { lines = some []; mod_time = some written })
    ∷ some (record { lines = some ("1800000000" ∷ "soon" ∷ []); mod_time = some written })
    ∷ none
    ∷ []

latest_example : IsLatest (written + second) two_files (check_in_paths (written + second) two_files)
latest_example = check_in_paths-IsLatest (written + second) two_files

zero_example :
    (is_maintenance (written + second) (some (record { lines = some []; mod_time = some written }))
      ≡ some (written + 10800 * second, ""))
    × (is_maintenance
          (written + second)
          (some (record { lines = some ("0" ∷ []); mod_time = some written }))
        ≡ none)
zero_example =
    is_maintenance-empty_or_zero (written + second) written [] (omega arith) (omega arith)

abbrev after_blocking : World
after_blocking = record world { brigade = (handle_block_user storage "m" 6 world).1.brigade }

replied-Answers : (w : World) → w.replies ≡ world.replies → Answers storage w
replied-Answers w e = record {
  host = 1;
  has_host = refl;
  body = done_body;
  rest = answer done_body ∷ answer done_body ∷ [];
  next = e;
  success = refl;
}

unblocked_example :
    ((handle_block_user storage "m" 6 world).0 ≡ payload tt)
    × ((handle_unblock_user storage "m" after_blocking).0 ≡ payload tt)
    × ((handle_unblock_user storage "m" after_blocking).1.brigade.main
        ≡ some (json (upgraded two_users)))
unfolding find_user upgraded
unblocked_example =
    block-unblock storage two_users "m" 6 world after_blocking (brigadier ∷ []) member []
      (record { no_failure = refl; main_json = refl; not_linked = refl; own_id = refl })
      (replied-Answers world refl) refl refl refl refl refl refl refl
      (replied-Answers after_blocking refl)

unknown_example :
    AnswersWith 404 two_users (handle_delete_configs service "x" 7 world)
    × AnswersWith 404 two_users (handle_patch_block service "x" 7 world)
    × AnswersWith 500 (upgraded two_users) (handle_patch_unblock service "x" world)
unfolding find_user upgraded
unknown_example =
    handlers-unknown service two_users "x" 7 world
      (record { no_failure = refl; main_json = refl; not_linked = refl; own_id = refl }) refl
