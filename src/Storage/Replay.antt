-- ===== src/Storage/Replay.antt =====
-- keydesk/storage/replay.go: telling the endpoint about the brigade and its users again.
use keydesk.Prelude.{◌&&◌, Bool, List, [], false, if◌then◌else◌, not, true, ◌||◌, ◌∷◌}
use keydesk.Storage.Types.{Brigade, User}
use keydesk.Storage.Db.{BrigadeStorage, open_with_reading, commit_brigade}
use keydesk.World.{M, pure, ◌>>=◌, ◌>>◌}
use keydesk.World.Api.{wg_add_iface, wg_del_iface, wg_peer_add, wg_peer_del}

pub record Flags : Type 0 where
  pub fresh : Bool
  pub bonly : Bool
  pub uonly : Bool
  pub delayed : Bool
  pub donly : Bool

abbrev pub when : Bool → M (Unit {0}) → M (Unit {0})
when true m = m
when false m = pure tt

-- The loop at OUTER: every user whose deletion was put off, in order. The source goes back to the
-- first user after each deletion, where none but the users that stay are left.
unfoldable pub purge : BrigadeStorage → Brigade → List User → M (List User)
purge db b [] = pure []
purge db b (u ∷ us) = elim u.delayed_deletion [
  | true ↦ (do wg_peer_del db.actual_addr_port u.wg_public_key b.wg_public_key; purge db b us)
  | false ↦ (do rest ← purge db b us; pure (u ∷ rest))
]

abbrev pub is_delayed : User → Bool
is_delayed u = u.delayed_creation || u.delayed_deletion || u.delayed_replay || u.delayed_blocking

-- The `switch` for a blocking or a replay that was put off.
unfoldable pub catch_up : BrigadeStorage → Brigade → User → M User
catch_up db b u =
    if u.delayed_blocking
    then (do
      wg_peer_del db.actual_addr_port u.wg_public_key b.wg_public_key
      pure (record u { delayed_blocking = false }))
    else if u.delayed_replay
    then (do
      wg_peer_del db.actual_addr_port u.wg_public_key b.wg_public_key
      pure (record u { delayed_replay = false; delayed_creation = true }))
    else pure u

-- The peer is added, unless the user is blocked or only delayed users are asked for.
unfoldable pub bring_in : BrigadeStorage → Brigade → Flags → User → M User
bring_in db b f u =
    if u.is_blocked
    then pure u
    else if f.donly && not u.delayed_creation && not u.delayed_replay && not u.delayed_blocking
    then pure u
    else (do
      wg_peer_add db.actual_addr_port u.wg_public_key b.wg_public_key
      pure (
          if (f.donly || f.delayed) && u.delayed_creation
          then record u { delayed_creation = false }
          else u))

-- One round of the loop over the users.
unfoldable pub replay_user : BrigadeStorage → Brigade → Flags → User → M User
unfolding catch_up bring_in
replay_user db b f u =
    if not f.donly && not f.delayed && is_delayed u
    then pure u
    else (do u' ← (if f.donly || f.delayed then catch_up db b u else pure u); bring_in db b f u')

unfoldable pub replay_users : BrigadeStorage → Brigade → Flags → List User → M (List User)
replay_users db b f [] = pure []
replay_users db b f (u ∷ us) = do
  u' ← replay_user db b f u
  us' ← replay_users db b f us
  pure (u' ∷ us')

-- The endpoint's own part: `fresh` deletes it first, and `uonly` leaves it alone.
unfoldable pub interface_part : BrigadeStorage → Brigade → Flags → M (Unit {0})
interface_part db b f = if f.donly then pure tt else (do
  when f.fresh (wg_del_iface db.actual_addr_port b.wg_private_router_enc)
  when (not f.uonly) (wg_add_iface db.actual_addr_port b.wg_private_router_enc))

-- `ReplayBrigade`: only changes that were put off are stored.
unfoldable pub replay_brigade : BrigadeStorage → Flags → M (Unit {0})
unfolding interface_part
replay_brigade db f = do
  b ← open_with_reading db
  interface_part db b f
  if not f.donly && f.bonly then pure tt else do
    left ← (if f.delayed || f.donly then purge db b b.users else pure b.users)
    us ← replay_users db b f left
    when (f.donly || f.delayed) (commit_brigade (record b { users = us }))
