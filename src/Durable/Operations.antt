-- ===== src/Durable/Operations.antt =====
-- Every operation of the storage on brigade.json keeps the brigade recoverable.
use keydesk.Clock.{Duration}
use keydesk.Stats.Brigade.{get_stats_quota}
use text.Mathlib.Text.{◌==◌ as str_eq}
use keydesk.Storage.Brigades.{
  update_brigade, list_users, get_subscription, get_messages, destroy_brigade, set_vip, domain_set,
  port_set, save_subscription, create_message, is_vip, destroy_unless_vip, vip_answer,
}
use keydesk.Storage.Removal.{
  drop_peer, add_peer, key_given, delete_user, unblock_user, find_user, is_named,
}
use keydesk.Prelude.{Bool, Option-cases, inl, inr, Option, String, arith, ℕ}
use keydesk.Clock.{Time}
use keydesk.Storage.Types.{Brigade, User, Uuid, Subscription}
use keydesk.Storage.Db.{BrigadeStorage, open_with_reading}
use keydesk.Storage.VpnConfigs.{ConfigsImplemented}
use keydesk.Storage.Users.{
  create_user, remove_brigadier, replaced, ca_pem, client_cert, take_brigadier,
}
use keydesk.Storage.Accounts.{NewUser}
use keydesk.Storage.Users.Assemble.{Draws}
use keydesk.World.{World, M, Body, ◌>>◌, pure, destroy_vip, Result, ok, err}
use keydesk.Durable.Files.{
  IsBacked, IsRecoverable, Keeps, Keeps-bind, Keeps-pure, Keeps-raise, Keeps-lift, Keeps-open,
  wg_peer_add-IsBacked, commit_brigade-IsBacked, Opened, open_with_reading-Opened, wg_stat-IsBacked,
  backed_rules, Keeps-if, Keeps-then,
}

remove_brigadier-IsBacked :
    (db : BrigadeStorage) (b : Brigade) → Keeps IsBacked (remove_brigadier db b)
unfolding remove_brigadier
remove_brigadier-IsBacked db b = elim (Option-cases (take_brigadier b.users)) [
  | inl e ↦ rw (e, remove_brigadier) (search backed_rules)
  | inr (a, e) ↦ rw (e, remove_brigadier) (search backed_rules)
]

replaced-IsBacked :
    (db : BrigadeStorage) (a : NewUser) (b : Brigade) → Keeps IsBacked (replaced db a b)
unfolding replaced
replaced-IsBacked db a b = search (Keeps-if, backed_rules, remove_brigadier-IsBacked)

ca_pem-IsBacked :
    (z : String → Option String) (c : ConfigsImplemented) (b : Brigade)
    → Keeps IsBacked (ca_pem z c b)
unfolding ca_pem
ca_pem-IsBacked z c b = elim (Option-cases (z b.ov_ca_cert_pem_gzip_base64)) [
  | inl e ↦ rw (e, ca_pem) (search (Keeps-if, backed_rules))
  | inr (a, e) ↦ rw (e, ca_pem) (search (Keeps-if, backed_rules))
]

client_cert-IsBacked :
    (t : String) (db : BrigadeStorage) (b : Body) → Keeps IsBacked (client_cert t db b)
unfolding client_cert
client_cert-IsBacked t db b = record { at = λ w h. record { bak_json = ground arith } }

pub create_user-IsRecoverable :
    (z : String → Option String) (t : String) (db : BrigadeStorage) (c : ConfigsImplemented)
    (a : NewUser) (d : Draws) (ts : Time)
    → Keeps IsRecoverable (create_user z t db c a d ts)
unfolding create_user
create_user-IsRecoverable z t db c a d ts = Keeps-open db _ λ stored.
    Keeps-bind (replaced db a stored) _ (replaced-IsBacked db a stored) λ r.
      Keeps-bind _ _ (Keeps-lift _) λ s. Keeps-bind _ _ (ca_pem-IsBacked z c r.0) λ pem.
        Keeps-bind _ _ (wg_peer_add-IsBacked _ _ _) λ body.
          Keeps-bind _ _ (client_cert-IsBacked t db body)
            λ cert. Keeps-bind _ _ (commit_brigade-IsBacked _) λ _. Keeps-pure _

drop_peer-IsBacked :
    (db : BrigadeStorage) (b : Brigade) (o : Bool) (now : Time) (u : User)
    → Keeps IsBacked (drop_peer db b o now u)
unfolding drop_peer
drop_peer-IsBacked db b o now u = search (Keeps-if, backed_rules)

add_peer-IsBacked :
    (db : BrigadeStorage) (b : Brigade) (u : User) → Keeps IsBacked (add_peer db b u)
unfolding add_peer
add_peer-IsBacked db b u = search (Keeps-if, backed_rules)

key_given-IsBacked : (k : String) → Keeps IsBacked (key_given k)
unfolding key_given
key_given-IsBacked k = search (Keeps-if, backed_rules)

pub delete_user-IsRecoverable :
    (db : BrigadeStorage) (id : Uuid) (br only : Bool) (now : Time)
    → Keeps IsRecoverable (delete_user db id br only now)
unfolding delete_user
delete_user-IsRecoverable db id br only now = Keeps-open db _ λ b.
    elim (Option-cases (find_user (is_named id br) b.users)) [
      | inl e ↦ rw e (search backed_rules)
      | inr (f, e) ↦ rw e (search (backed_rules, drop_peer-IsBacked))
    ]

pub unblock_user-IsRecoverable :
    (db : BrigadeStorage) (id : Uuid) → Keeps IsRecoverable (unblock_user db id)
unfolding unblock_user
unblock_user-IsRecoverable db id = Keeps-open db _ λ b.
    elim (Option-cases (find_user (λ u. str_eq u.user_id id) b.users)) [
      | inl e ↦ rw e (search backed_rules)
      | inr (f, e) ↦ rw e (search (backed_rules, add_peer-IsBacked, key_given-IsBacked))
    ]

update_brigade-IsRecoverable :
    (db : BrigadeStorage) (f : Brigade → Brigade) → Keeps IsRecoverable (update_brigade db f)
unfolding update_brigade
update_brigade-IsRecoverable db f = Keeps-open db _ λ b. commit_brigade-IsBacked _

pub list_users-IsRecoverable :
    (db : BrigadeStorage) (now : Time) → Keeps IsRecoverable (list_users db now)
unfolding list_users
list_users-IsRecoverable db now = Keeps-open db _ λ b. search (Keeps-if, backed_rules)

pub get_subscription-IsRecoverable :
    (db : BrigadeStorage) → Keeps IsRecoverable (get_subscription db)
unfolding get_subscription
get_subscription-IsRecoverable db = Keeps-open db _ λ b. search (Keeps-if, backed_rules)

pub get_messages-IsRecoverable : (db : BrigadeStorage) → Keeps IsRecoverable (get_messages db)
unfolding get_messages
get_messages-IsRecoverable db = Keeps-open db _ λ b. search backed_rules

destroy_brigade-IsRecoverable : (db : BrigadeStorage) → Keeps IsRecoverable (destroy_brigade db)
unfolding destroy_brigade
destroy_brigade-IsRecoverable db = Keeps-open db _ λ b. search backed_rules

pub set_vip-IsRecoverable :
    (db : BrigadeStorage) (vip : Bool) → Keeps IsRecoverable (set_vip db vip)
unfolding set_vip
set_vip-IsRecoverable db vip = update_brigade-IsRecoverable db _

pub domain_set-IsRecoverable :
    (db : BrigadeStorage) (domain : String) → Keeps IsRecoverable (domain_set db domain)
unfolding domain_set
domain_set-IsRecoverable db domain = update_brigade-IsRecoverable db _

pub port_set-IsRecoverable :
    (db : BrigadeStorage) (port : ℕ) → Keeps IsRecoverable (port_set db port)
unfolding port_set
port_set-IsRecoverable db port = update_brigade-IsRecoverable db _

pub save_subscription-IsRecoverable :
    (db : BrigadeStorage) (sub : Subscription) → Keeps IsRecoverable (save_subscription db sub)
unfolding save_subscription
save_subscription-IsRecoverable db sub = update_brigade-IsRecoverable db _

pub create_message-IsRecoverable :
    (db : BrigadeStorage) (id : Uuid) (text : String) (now : Time)
    → Keeps IsRecoverable (create_message db id text now)
unfolding create_message
create_message-IsRecoverable db id text now = update_brigade-IsRecoverable db _

-- Opening the brigade and reading a flag of it keeps the brigade, whatever the flag is.
is_vip-IsRecoverable :
    (db : BrigadeStorage) (w : World) → IsRecoverable w → IsRecoverable (is_vip db w).1
unfolding is_vip vip_answer
is_vip-IsRecoverable db w h = go (open_with_reading db w) (open_with_reading-Opened db w h)
  where
    go : (r : Result Brigade × World) → Opened r → IsRecoverable (vip_answer r).1
    go (ok b, w') k = inr k.bak_json
    go (err e, w') k = k

pub destroy_unless_vip-IsRecoverable :
    (db : BrigadeStorage) → Keeps IsRecoverable (destroy_unless_vip db)
unfolding destroy_unless_vip
destroy_unless_vip-IsRecoverable db = record {
  at = λ w h.
      (Keeps-if (is_vip db w).0 _ _ (Keeps-raise destroy_vip) (destroy_brigade-IsRecoverable db)).at
        (is_vip db w).1 (is_vip-IsRecoverable db w h);
}

pub get_stats_quota-IsRecoverable :
    (parse_prefix : String → Option String) (db : BrigadeStorage) (ttl : Duration) (now : Time)
    → Keeps IsRecoverable (get_stats_quota parse_prefix db ttl now)
unfolding get_stats_quota
get_stats_quota-IsRecoverable parse_prefix db ttl now = Keeps-open db _ λ b.
    Keeps-bind _ _ (wg_stat-IsBacked db.actual_addr_port b.wg_public_key) λ resp.
      Keeps-bind _ _ (Keeps-lift _)
        λ parsed. Keeps-bind _ _ (commit_brigade-IsBacked _) λ _. Keeps-pure _

pub Keeps-effect {ℓ} :
    {A : Type ℓ} {P : World → Type 0} (m : M A) → Keeps P m → Keeps {0} P (m >> pure tt)
Keeps-effect m k = Keeps-then m _ k (Keeps-pure tt)
