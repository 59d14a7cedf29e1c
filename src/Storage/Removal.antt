-- ===== src/Storage/Removal.antt =====
-- `DeleteUser` and `UnblockUser` of keydesk/storage/user.go. Blocking a user takes its peer from the
-- endpoint and keeps its record.
pub mod Found
use text.Mathlib.Text.{◌==◌ as str_eq}
use keydesk.Prelude.{
  ◌&&◌, ◌++◌, Bool, List, Option, [], false, if◌then◌else◌, none, some, true, ◌∷◌, bool_eq,
}
use keydesk.Clock.{Time, zero_time}
use keydesk.Storage.Types.{Brigade, User, Uuid, Bytes}
use keydesk.Storage.Db.{BrigadeStorage, open_with_reading, commit_brigade}
use keydesk.World.{M, pure, raise, ◌>>=◌, ◌>>◌, user_not_found}
use keydesk.World.Api.{wg_peer_add, wg_peer_del}

-- The first user that passes a test, with the users before and behind it.
unfoldable pub find_user : (User → Bool) → List User → Option (List User × User × List User)
find_user p [] = none
find_user p (u ∷ us) = elim (p u) [
  | true ↦ some ([], u, us)
  | false ↦ elim (find_user p us) [ none ↦ none | some (l, v, r) ↦ some (u ∷ l, v, r) ]
]

abbrev pub blocked_at_time : Time → User → User
blocked_at_time now u = record u { is_blocked = true; blocked_at = now }

abbrev pub unblocked : User → User
unblocked u = record u { is_blocked = false; blocked_at = zero_time }

-- The peer of a user that is not blocked leaves the endpoint, and the user is marked if it stays.
unfoldable pub drop_peer : BrigadeStorage → Brigade → Bool → Time → User → M User
drop_peer db b only_block now u = if u.is_blocked then pure u else (do
  wg_peer_del db.actual_addr_port u.wg_public_key b.wg_public_key
  pure (if only_block then blocked_at_time now u else u))

abbrev pub is_named : Uuid → Bool → User → Bool
is_named id brigadier u = str_eq u.user_id id && bool_eq u.is_brigadier brigadier

-- `DeleteUser`: a user that is not there is no error, and changes nothing.
unfoldable pub delete_user : BrigadeStorage → Uuid → Bool → Bool → Time → M (Unit {0})
unfolding drop_peer
delete_user db id brigadier only_block now = do
  b ← open_with_reading db
  elim (find_user (is_named id brigadier) b.users) [
    | none ↦ pure tt
    | some (l, u, r) ↦ (do
      u' ← drop_peer db b only_block now u
      commit_brigade (record b { users = (if only_block then l ++ u' ∷ r else l ++ r) }))
  ]

unfoldable pub add_peer : BrigadeStorage → Brigade → User → M User
add_peer db b u =
    if u.is_blocked
    then (do wg_peer_add db.actual_addr_port u.wg_public_key b.wg_public_key; pure (unblocked u))
    else pure u

unfoldable pub key_given : Bytes → M (Unit {0})
key_given key = if str_eq key "" then raise user_not_found else pure tt

-- `UnblockUser`
unfoldable pub unblock_user : BrigadeStorage → Uuid → M (Unit {0})
unfolding add_peer key_given
unblock_user db id = do
  b ← open_with_reading db
  elim (find_user (λ u. str_eq u.user_id id) b.users) [
    | none ↦ raise user_not_found
    | some (l, u, r) ↦ (do
      u' ← add_peer db b u
      key_given u.wg_public_key
      commit_brigade (record b { users = l ++ u' ∷ r }))
  ]
