-- ===== src/Service/Fresh.antt =====
-- What the users' service gives a new user is taken by nobody.
use keydesk.Kdlib.Net.{random_addr_ipv4, random_addr_ipv6}
use keydesk.Clock.{Time}
use keydesk.Vpn.Generate.Needs.{IfOk}
use keydesk.Storage.Types.{Brigade, Uuid, Addr, User}
use keydesk.Prelude.{
  Bool, List, String, arith, false, map, refl, true, ◌≡◌, Bool-cases, [], inl, inr, ◌∷◌,
}
use keydesk.World.{Result, ok, err}
use keydesk.Service.NewUsers.{
  ServiceDraws, existing_uids, existing_addr4, existing_addr6, existing_names, unique_person,
  unique_uuid, unique_addr, drawn, storage_new_user, service_new_user,
}
use keydesk.Storage.Users.Assemble.{◌then_ok◌, first_good, has_text, has_addr}
use text.Mathlib.Text.{◌==◌ as str_eq}

pub record IsNew (b : Brigade) (u : User) : Type 0 where
  pub new_id : has_text u.user_id (existing_uids b) ≡ false
  pub new_ipv4 : has_addr u.ipv4_addr (existing_addr4 b) ≡ false
  pub new_ipv6 : has_addr u.ipv6_addr (existing_addr6 b) ≡ false

IfOk-next :
    {A B : Type 0} (P : B → Type 0) (r : Result A) (f : A → Result B)
    → ((a : A) → r ≡ ok a → IfOk P (f a))
    → IfOk P (r then_ok f)
IfOk-next P (ok a) f h = h a refl
IfOk-next P (err e) f h = tt

first_good-passes :
    {A : Type 0} (good : A → Bool) (xs : List A) (x : A)
    → drawn (first_good good xs) ≡ ok x
    → good x ≡ true
unfolding first_good drawn
first_good-passes good [] x h = absurd (ground (arith, h))
first_good-passes good (y ∷ xs) x h = elim (Bool-cases (good y)) [
  | inl e ↦ ground (arith, e, h)
  | inr e ↦ first_good-passes good xs x (ground (arith, e, h))
]

unique_uuid-new :
    (uids draws : List Uuid) (id : Uuid) → unique_uuid uids draws ≡ ok id → has_text id uids ≡ false
unfolding unique_uuid
unique_uuid-new uids draws id h = ground (arith, first_good-passes _ draws id h)

unique_addr-new :
    (taken draws : List Addr) (a : Addr) → unique_addr taken draws ≡ ok a → has_addr a taken ≡ false
unfolding unique_addr
unique_addr-new taken draws a h = ground (arith, first_good-passes _ draws a h)

pub service_new_user-IsNew :
    (b : Brigade) (domain : String) (d : ServiceDraws) (now : Time)
    → IfOk (IsNew b) (service_new_user b domain d now)
unfolding service_new_user storage_new_user
service_new_user-IsNew b domain d now =
    IfOk-next _ (unique_person (existing_names b) d.people) _ λ p e1.
      IfOk-next _ (unique_uuid (existing_uids b) d.uuids) _ λ id e2.
        IfOk-next _ (unique_addr (existing_addr4 b) (map (random_addr_ipv4 b.ipv4_cgnat) d.ip4s)) _
          λ v4 e3.
            IfOk-next _ (unique_addr (existing_addr6 b) (map (random_addr_ipv6 b.ipv6_ula) d.ip6s))
              _
              λ v6 e4. elim (Bool-cases (str_eq domain "")) [
                | inl e ↦ rw e (record {
                  new_id = unique_uuid-new _ _ id e2;
                  new_ipv4 = unique_addr-new _ _ v4 e3;
                  new_ipv6 = unique_addr-new _ _ v6 e4;
                })
                | inr e ↦ rw e (record {
                  new_id = unique_uuid-new _ _ id e2;
                  new_ipv4 = unique_addr-new _ _ v4 e3;
                  new_ipv6 = unique_addr-new _ _ v6 e4;
                })
              ]
