-- ===== src/Durable/Runs.antt =====
-- Any sequence of operations of the storage, whichever of their calls fail.
use keydesk.Durable.Replays.{replay_brigade-IsRecoverable}
use keydesk.Stats.Brigade.{get_stats_quota}
use keydesk.Durable.Operations.{
  Keeps-effect, create_user-IsRecoverable, delete_user-IsRecoverable, unblock_user-IsRecoverable,
  list_users-IsRecoverable, set_vip-IsRecoverable, domain_set-IsRecoverable, port_set-IsRecoverable,
  save_subscription-IsRecoverable, get_subscription-IsRecoverable, create_message-IsRecoverable,
  get_messages-IsRecoverable, destroy_unless_vip-IsRecoverable, get_stats_quota-IsRecoverable,
}
use keydesk.Storage.Brigades.{
  list_users, set_vip, domain_set, port_set, save_subscription, get_subscription, create_message,
  get_messages, destroy_unless_vip,
}
use keydesk.Prelude.{ℕ, Bool, List, Option, String, [], ◌∷◌}
use keydesk.Clock.{Time, Duration}
use keydesk.Storage.Types.{Subscription, Uuid}
use keydesk.Storage.Db.{BrigadeStorage}
use keydesk.Storage.VpnConfigs.{ConfigsImplemented}
use keydesk.Storage.Users.{create_user}
use keydesk.Storage.Accounts.{NewUser}
use keydesk.Storage.Users.Assemble.{Draws}
use keydesk.Storage.Removal.{delete_user, unblock_user}
use keydesk.Storage.Replay.{Flags, replay_brigade}
use keydesk.World.{World, M, ◌>>◌, pure}
use keydesk.Durable.Files.{IsRecoverable, Keeps}

-- What a caller asks of the storage, with what the call draws and the time of the call.
pub data Operation : Type 0 where
  op_create : ConfigsImplemented → NewUser → Draws → Time → Operation
  op_delete : Uuid → Bool → Bool → Time → Operation
  op_unblock : Uuid → Operation
  op_list : Time → Operation
  op_set_vip : Bool → Operation
  op_domain : String → Operation
  op_port : ℕ → Operation
  op_save_subscription : Subscription → Operation
  op_get_subscription : Operation
  op_create_message : Uuid → String → Time → Operation
  op_get_messages : Operation
  op_replay : Flags → Operation
  op_stats : Duration → Time → Operation
  op_destroy : Operation

-- An operation for its effect alone.
abbrev pub effect {ℓ} : {A : Type ℓ} → M A → M (Unit {0})
effect m = m >> pure tt

module _ (ungzip parse_prefix : String → Option String) (test_cert : String)
    (db : BrigadeStorage) where
  unfoldable pub perform : Operation → M (Unit {0})
  perform (op_create cfgs a draws ts) = effect (create_user ungzip test_cert db cfgs a draws ts)
  perform (op_delete id brigadier only now) = delete_user db id brigadier only now
  perform (op_unblock id) = unblock_user db id
  perform (op_list now) = effect (list_users db now)
  perform (op_set_vip vip) = set_vip db vip
  perform (op_domain domain) = domain_set db domain
  perform (op_port port) = port_set db port
  perform (op_save_subscription sub) = save_subscription db sub
  perform op_get_subscription = effect (get_subscription db)
  perform (op_create_message id text now) = create_message db id text now
  perform op_get_messages = effect (get_messages db)
  perform (op_replay f) = replay_brigade db f
  perform (op_stats ttl now) = effect (get_stats_quota parse_prefix db ttl now)
  perform op_destroy = destroy_unless_vip db

  -- The world after the operations; each is a call of its own, and goes ahead whether or not the one
  -- before it has failed.
  unfoldable pub run : List Operation → World → World
  run [] w = w
  run (o ∷ os) w = run os (perform o w).1

  perform-IsRecoverable : (o : Operation) → Keeps IsRecoverable (perform o)
  unfolding perform
  perform-IsRecoverable (op_create cfgs a draws ts) =
      Keeps-effect _ (create_user-IsRecoverable ungzip test_cert db cfgs a draws ts)
  perform-IsRecoverable (op_delete id brigadier only now) =
      delete_user-IsRecoverable db id brigadier only now
  perform-IsRecoverable (op_unblock id) = unblock_user-IsRecoverable db id
  perform-IsRecoverable (op_list now) = Keeps-effect _ (list_users-IsRecoverable db now)
  perform-IsRecoverable (op_set_vip vip) = set_vip-IsRecoverable db vip
  perform-IsRecoverable (op_domain domain) = domain_set-IsRecoverable db domain
  perform-IsRecoverable (op_port port) = port_set-IsRecoverable db port
  perform-IsRecoverable (op_save_subscription sub) = save_subscription-IsRecoverable db sub
  perform-IsRecoverable op_get_subscription = Keeps-effect _ (get_subscription-IsRecoverable db)
  perform-IsRecoverable (op_create_message id text now) =
      create_message-IsRecoverable db id text now
  perform-IsRecoverable op_get_messages = Keeps-effect _ (get_messages-IsRecoverable db)
  perform-IsRecoverable (op_replay f) = replay_brigade-IsRecoverable db f
  perform-IsRecoverable (op_stats ttl now) =
      Keeps-effect _ (get_stats_quota-IsRecoverable parse_prefix db ttl now)
  perform-IsRecoverable op_destroy = destroy_unless_vip-IsRecoverable db

  -- Whatever operations are asked for, whichever calls of the file system fail and whatever the
  -- endpoint answers, afterwards the backup holds the JSON of a brigade, or the main file does and is
  -- not one file with the temporary one, if that is so before.
  pub run-IsRecoverable :
      (os : List Operation) (w : World) → IsRecoverable w → IsRecoverable (run os w)
  unfolding run
  run-IsRecoverable [] w h = h
  run-IsRecoverable (o ∷ os) w h =
      run-IsRecoverable os (perform o w).1 ((perform-IsRecoverable o).at w h)
