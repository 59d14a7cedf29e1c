-- ===== src/Examples/Storing.antt =====
-- Users and files of a brigade.
use keydesk.Prelude.Texts.{base32_decode}
use keydesk.Storage.Users.Fresh.{IsFresh, assemble_user-IsFresh}
use keydesk.Storage.Users.Enough.{assemble_user-ends}
use keydesk.Kdlib.Blur.{blur_ipv4_addr, extract_uint32_salt}
use keydesk.Kdlib.Net.{
  random_addr_ipv4, random_addr_ipv6, last_prefix_ipv4, last_prefix_ipv6, is_zero_ending,
}
use keydesk.Storage.Users.{add_user}
use keydesk.Storage.Brigades.{update_brigade, get_messages}
use keydesk.Storage.Names.{numbered_name}
use keydesk.Storage.Db.{upgraded}
use keydesk.Storage.Users.Named.{scan_users-taken}
use keydesk.Storage.Users.Order.{IsSorted, count, add_user-IsSorted}
use keydesk.Storage.Users.Assemble.{
  Assembled, assemble_user, scan_users, count_distinct, pick_id, addr_eq, pick_addr, first_good,
  nil_uuid, addr_number,
}
use keydesk.Storage.Types.{Brigade, ip4, ip6, User}
use keydesk.Storage.Removal.{find_user, delete_user, unblock_user}
use keydesk.Durable.Peers.{
  Answers, without, after_unblock, del_request, add_request, delete_user-Stores,
  unblock_user-Stores,
}
use keydesk.Durable.Calm.{Holds, Stores, Emptied, update_brigade-Stores, get_messages-Emptied}
use keydesk.Durable.Files.{IsRecoverable}
use keydesk.World.{World, answer, err, user_collision, ok}
use keydesk.Durable.Runs.{
  Operation, op_create, run, op_get_messages, op_delete, run-IsRecoverable, op_unblock, op_list,
}
use keydesk.Storage.VpnConfigs.{ConfigsImplemented}
use keydesk.Prelude.{
  ◌*◌, ◌+◌, ◌-◌, List, [], ◌^◌, arith, false, if◌then◌else◌, inl, none, refl, some, true, ◌∷◌, ◌≡◌,
  ◌≢◌,
}
use keydesk.Examples.Data.{
  brigadier, member, two_users, storage, world_of, plain_text, draws, newcomer, done_body,
}

abbrev some_configs : ConfigsImplemented
some_configs = record { wg = some []; ovc = none; ipsec = none; outline = none; proto0 = none }

abbrev operations : List Operation
operations =
    op_create some_configs newcomer draws 5
    ∷ op_delete "m" false true 6
    ∷ op_unblock "m"
    ∷ op_get_messages
    ∷ op_list 7
    ∷ []

-- The commit of the first operation fails after it has removed the main file.
abbrev failing : World
failing = world_of (false ∷ false ∷ false ∷ false ∷ false ∷ false ∷ false ∷ true ∷ [])

run_example : IsRecoverable (run plain_text plain_text "cert" storage operations failing)
run_example =
    run-IsRecoverable plain_text plain_text "cert" storage operations failing (inl (tt, refl))

abbrev calm : World
calm = world_of []

calm-Holds : Holds storage two_users calm
calm-Holds = record { no_failure = refl; main_json = refl; not_linked = refl; own_id = refl }

calm-Answers : Answers storage calm
calm-Answers = record {
  host = 1;
  has_host = refl;
  body = done_body;
  rest = answer done_body ∷ answer done_body ∷ [];
  next = refl;
  success = refl;
}

delete_example :
    Stores storage tt
      (without two_users true 6 (brigadier ∷ []) member [])
      two_users
      (del_request (upgraded two_users) member calm)
      (delete_user storage "m" false true 6 calm)
unfolding find_user upgraded
delete_example =
    delete_user-Stores storage two_users "m" false true 6 calm (brigadier ∷ []) member [] calm-Holds
      calm-Answers refl

unblock_example :
    Stores storage tt
      (record (upgraded two_users) { users = brigadier ∷ after_unblock member ∷ [] })
      two_users
      (add_request (upgraded two_users) member calm)
      (unblock_user storage "m" calm)
unfolding find_user upgraded
unblock_example =
    unblock_user-Stores storage two_users "m" calm (brigadier ∷ []) member [] calm-Holds
      calm-Answers refl refl

set_port : Brigade → Brigade
set_port b = record b { endpoint_port = 443 }

update_example :
    Stores storage tt
      (set_port (upgraded two_users))
      two_users
      calm.accepted
      (update_brigade storage set_port calm)
unfolding set_port
update_example = update_brigade-Stores storage set_port two_users calm calm-Holds (λ c. refl)

get_messages_example : Emptied storage two_users (get_messages storage calm)
get_messages_example = get_messages-Emptied storage two_users calm calm-Holds

abbrev assembled : Assembled
assembled = record {
  id = "n";
  ipv4 = ip4 0x6440000b;
  ipv6 = ip6 (0xfd00 * 2 ^ 112 + (2 ^ 64 - 5));
  name = "011 Lise Meitner";
}

fresh_example : IsFresh two_users false 250 assembled
unfolding assemble_user scan_users count_distinct pick_id pick_addr first_good addr_eq
    random_addr_ipv4 random_addr_ipv6 last_prefix_ipv4 last_prefix_ipv6 is_zero_ending
    blur_ipv4_addr extract_uint32_salt numbered_name addr_number base32_decode
fresh_example =
    assemble_user-IsFresh nil_uuid two_users "Lise Meitner" false 250 draws assembled refl

ends_example :
    (s : Assembled) × (assemble_user nil_uuid two_users "Lise Meitner" false 250 draws ≡ ok s)
unfolding scan_users count_distinct addr_eq random_addr_ipv4 random_addr_ipv6 last_prefix_ipv4
    last_prefix_ipv6 is_zero_ending
ends_example =
    assemble_user-ends nil_uuid two_users "Lise Meitner" false 250 draws refl (omega arith) refl
      (λ e. refl) refl refl

abbrev late_member : User
late_member = record member { user_id = "z" }

order_example :
    IsSorted (add_user late_member two_users).users
    × (count (λ u. u.is_brigadier) (add_user late_member two_users).users
        ≡ count (λ u. u.is_brigadier) two_users.users + (if late_member.is_brigadier then 1 else 0))
order_example = add_user-IsSorted late_member two_users (λ u. u.is_brigadier)

taken_example : scan_users "Max Born" false two_users.users ≢ err user_collision
taken_example = scan_users-taken "Max Born" false two_users.users refl (refl, (refl, tt))
