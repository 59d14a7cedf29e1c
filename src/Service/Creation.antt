-- ===== src/Service/Creation.antt =====
-- What `CreateUser` of the users' service does to a brigade.
use keydesk.Prelude.Ints.{int_minus}
use keydesk.Clock.{Time}
use keydesk.Service.NewUsers.{
  existing_uids, ServiceDraws, existing_addr4, service_new_user, existing_addr6,
}
use keydesk.Stats.Traffic.{str_eq_refl}
use keydesk.Storage.Users.Assemble.{has_text, has_addr}
use keydesk.Prelude.Ints.{pos}
use keydesk.Service.Fresh.{IsNew, service_new_user-IsNew}
use keydesk.Storage.Removal.{find_user}
use keydesk.Service.Users.{Created, slots_info, create_in, Service, or_text}
use keydesk.Vpn.Generate.Needs.{IfOk}
use keydesk.Vpn.Generate.{generate_configs, Configs}
use keydesk.Storage.Types.{User, Brigade}
use keydesk.Prelude.{
  List, String, [], arith, refl, subst, ◌∙◌, ◌∷◌, ◌≡◌, ◌+◌, ◌++◌, ◌-◌, ◌<◌, Bool-cases, ap, false,
  inl, inr, leb, length, map, some, true, length-append,
}
use text.Mathlib.Text.{◌==◌ as str_eq}
use keydesk.World.{Result, ok, err, World}
use keydesk.Vpn.Generators.{Secrets}
use text.Mathlib.TextEquality.{path_by_compare}
pub use keydesk.Service.Same.{IfDone, IfDone-ok, IfDone-then}
use keydesk.Service.Same.{generate_configs-SameUser}
use keydesk.Vpn.Generate.Kept.{SameUser}

-- What the creation of a user makes of a brigade and answers.
pub record Adds (b b' : Brigade) (c : Created) : Type 0 where
  pub user : User
  pub room : length b.users < b.max_users
  pub users : b'.users ≡ b.users ++ user ∷ []
  pub same_max : b'.max_users ≡ b.max_users
  pub answered : c.uuid ≡ user.user_id
  pub is_new : IsNew b user
  pub found : find_user (λ v. str_eq v.user_id c.uuid) b'.users ≡ some (b.users, user, [])
  pub free : c.slots.free ≡ pos (b.max_users - length b.users - 1)
  pub total : c.slots.total ≡ b.max_users

path_by_str_eq : (s t : String) → str_eq s t ≡ true → s ≡ t
path_by_str_eq s t h = path_by_compare s t (ground (arith, h))

-- A user whose identifier nobody else has is found behind the others.
pub find_user-end :
    (us : List User) (u : User)
    → has_text u.user_id (map (λ v. v.user_id) us) ≡ false
    → find_user (λ v. str_eq v.user_id u.user_id) (us ++ u ∷ []) ≡ some (us, u, [])
unfolding find_user
find_user-end [] u h = rw (find_user, str_eq_refl u.user_id) refl
find_user-end (v ∷ us) u h = rw (find_user, other, find_user-end us u (ground (arith, h))) refl
  where
    other : str_eq v.user_id u.user_id ≡ false
    other = elim (Bool-cases (str_eq v.user_id u.user_id)) [
      | inl e ↦ absurd (
          ground (
            arith,
            h,
            str_eq_refl u.user_id,
            ap (λ t. str_eq u.user_id t) (path_by_str_eq v.user_id u.user_id e),
          ))
      | inr e ↦ e
    ]

IsNew-SameUser : (b : Brigade) (u v : User) → SameUser u v → IsNew b u → IsNew b v
IsNew-SameUser b u v (i, a4, a6) n = record {
  new_id = ap (λ t. has_text t (existing_uids b)) i ∙ n.new_id;
  new_ipv4 = ap (λ t. has_addr t (existing_addr4 b)) a4 ∙ n.new_ipv4;
  new_ipv6 = ap (λ t. has_addr t (existing_addr6 b)) a6 ∙ n.new_ipv6;
}

slots-free :
    (b : Brigade) (u : User)
    → length b.users < b.max_users
    → (slots_info (record b { users = b.users ++ u ∷ [] })).free
      ≡ pos (b.max_users - length b.users - 1)
unfolding slots_info int_minus
slots-free b u h =
    let n : length (b.users ++ u ∷ []) ≡ length b.users + 1 =
      omega (arith, length-append b.users (u ∷ [])) in
    let fits : leb (length b.users + 1) b.max_users ≡ true = ground (arith, h) in
    rw (n, fits) (ap pos (omega (arith, h)))

-- Whatever is drawn, generated and answered, a user that is created is added behind the others, where
-- there was room for it; nobody else has its identifier or its addresses, none of which is the first or
-- the last of its network; the free slots are the ones that are left; and a search for the identifier
-- finds the user, with all the other users in front of it.
pub create_in-Adds :
    (s : Service) (d : ServiceDraws) (secrets : Secrets) (now : Time) (configs : List String)
    (asked : String) (b : Brigade) (w : World)
    → IfDone (λ r. Adds b r.0 r.1) (create_in s d secrets now configs asked b w)
unfolding create_in slots_info
create_in-Adds s d secrets now configs asked b w =
    elim (Bool-cases (leb b.max_users (length b.users))) [
      | inl e ↦ rw (create_in, e) tt
      | inr e ↦
          rw (create_in, e)
            (IfDone-then _ (service_new_user b (or_text asked b.endpoint_domain) d now, w) _
              λ u w1 e1.
                IfDone-then _ (generate_configs s.endpoint s.codecs secrets b u configs w1) _
                  λ r w2 e2.
                    added u r.2 r.0 r.1 _
                      (subst (IfOk (IsNew b)) e1
                        (service_new_user-IsNew b (or_text asked b.endpoint_domain) d now))
                      (subst (IfOkSame u) e2 (
                        of_done u _
                          (generate_configs-SameUser s.endpoint s.codecs secrets b u configs w1)))
                      (ground (arith, e)))
    ]
  where
    IfOkSame : User → Result (Configs × String × User) → Type 0
    IfOkSame u = IfOk (λ (r : Configs × String × User). SameUser u r.2)

    of_done :
        (u : User) (r : Result (Configs × String × User) × World)
        → IfDone (λ (r : Configs × String × User). SameUser u r.2) r
        → IfOkSame u r.0
    of_done u (ok a, w) h = h
    of_done u (err e, w) h = h

    added :
        (u v : User) (cfgs : Configs) (name domain : String)
        → IsNew b u
        → SameUser u v
        → length b.users < b.max_users
        → Adds b
            (record b { users = b.users ++ v ∷ [] })
            (record {
              uuid = v.user_id;
              name = name;
              domain = domain;
              configs = cfgs;
              slots = slots_info (record b { users = b.users ++ v ∷ [] });
            })
    added u v cfgs name domain n same room =
        let new = IsNew-SameUser b u v same n in
        record {
          user = v;
          room = room;
          users = refl;
          same_max = refl;
          answered = refl;
          is_new = new;
          found = find_user-end b.users v new.new_id;
          free = slots-free b v room;
          total = refl;
        }
