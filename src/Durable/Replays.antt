-- ===== src/Durable/Replays.antt =====
-- A replay of the brigade keeps the brigade recoverable.
use keydesk.Storage.Replay.{
  purge, when, replay_user, replay_users, interface_part, replay_brigade, Flags, catch_up, bring_in,
}
use keydesk.Prelude.{
  Bool, false, if◌then◌else◌, inl, inr, true, Bool-cases, List, [], ◌∷◌, ◌&&◌, not, ◌||◌,
}
use keydesk.Storage.Types.{Brigade, User}
use keydesk.Storage.Db.{BrigadeStorage}
use keydesk.World.{M, pure}
use keydesk.Durable.Files.{
  IsBacked, IsRecoverable, Keeps, Keeps-bind, Keeps-pure, Keeps-open, wg_peer_del-IsBacked,
  commit_brigade-IsBacked, Keeps-if, backed_rules,
}

purge-IsBacked :
    (db : BrigadeStorage) (b : Brigade) (us : List User) → Keeps IsBacked (purge db b us)
unfolding purge
purge-IsBacked db b [] = Keeps-pure []
purge-IsBacked db b (u ∷ us) = elim (Bool-cases u.delayed_deletion) [
  | inl e ↦
      rw (e, purge) (Keeps-bind _ _ (wg_peer_del-IsBacked _ _ _) (λ _. purge-IsBacked db b us))
  | inr e ↦ rw (e, purge) (Keeps-bind _ _ (purge-IsBacked db b us) (λ rest. Keeps-pure _))
]

when-IsBacked : (t : Bool) (m : M (Unit {0})) → Keeps IsBacked m → Keeps IsBacked (when t m)
when-IsBacked true m k = k
when-IsBacked false m k = Keeps-pure tt

catch_up-IsBacked :
    (db : BrigadeStorage) (b : Brigade) (u : User) → Keeps IsBacked (catch_up db b u)
unfolding catch_up
catch_up-IsBacked db b u = search (Keeps-if, backed_rules)

bring_in-IsBacked :
    (db : BrigadeStorage) (b : Brigade) (f : Flags) (u : User) → Keeps IsBacked (bring_in db b f u)
unfolding bring_in
bring_in-IsBacked db b f u = search (Keeps-if, backed_rules)

replay_user-IsBacked :
    (db : BrigadeStorage) (b : Brigade) (f : Flags) (u : User)
    → Keeps IsBacked (replay_user db b f u)
unfolding replay_user
replay_user-IsBacked db b f u =
    search (Keeps-if, backed_rules, catch_up-IsBacked, bring_in-IsBacked)

replay_users-IsBacked :
    (db : BrigadeStorage) (b : Brigade) (f : Flags) (us : List User)
    → Keeps IsBacked (replay_users db b f us)
unfolding replay_users
replay_users-IsBacked db b f [] = Keeps-pure []
replay_users-IsBacked db b f (u ∷ us) =
    Keeps-bind _ _ (replay_user-IsBacked db b f u)
      λ u'. Keeps-bind _ _ (replay_users-IsBacked db b f us) (λ us'. Keeps-pure _)

interface_part-IsBacked :
    (db : BrigadeStorage) (b : Brigade) (f : Flags) → Keeps IsBacked (interface_part db b f)
unfolding interface_part
interface_part-IsBacked db b f = search (Keeps-if, when-IsBacked, backed_rules)

left_over-IsBacked :
    (db : BrigadeStorage) (b : Brigade) (f : Flags)
    → Keeps IsBacked (if f.delayed || f.donly then purge db b b.users else pure b.users)
left_over-IsBacked db b f = search (Keeps-if, Keeps-pure, purge-IsBacked)

pub replay_brigade-IsRecoverable :
    (db : BrigadeStorage) (f : Flags) → Keeps IsRecoverable (replay_brigade db f)
unfolding replay_brigade
replay_brigade-IsRecoverable db f = Keeps-open db _ λ b.
    Keeps-bind _ _ (interface_part-IsBacked db b f) λ _.
      Keeps-if (not f.donly && f.bonly) _ _ (Keeps-pure tt) (
        Keeps-bind _ _ (left_over-IsBacked db b f) λ left.
          Keeps-bind _ _ (replay_users-IsBacked db b f left)
            λ us. when-IsBacked (f.donly || f.delayed) _ (commit_brigade-IsBacked _))
