-- ===== src/Storage/Users/Enough.antt =====
-- The loops of `assembleUser` end as soon as the draws have what they look for.
use text.Mathlib.TextEquality.{path_by_compare}
use text.Mathlib.Text.{◌==◌ as str_eq}
use keydesk.Kdlib.Net.{random_addr_ipv4, random_addr_ipv6}
use keydesk.World.{ok}
use keydesk.Storage.Types.{Uuid, Addr, Brigade}
use keydesk.Storage.Users.Assemble.{
  first_good, pick_id, pick_addr, assemble_user, nil_uuid, good_addr, has_text, Draws, scan_users,
  count_distinct, user_ids, taken_ipv4, taken_ipv6, Assembled, user_name,
}
use keydesk.Prelude.{
  Bool, Bool-cases, List, [], any, arith, inl, inr, refl, some, true, ◌∷◌, ◌≡◌, ◌<◌, String, false,
  leb, map, not, ℕ,
}

path_by_str_eq : (s t : String) → str_eq s t ≡ true → s ≡ t
path_by_str_eq s t h = path_by_compare s t (ground (arith, h))

first_good-any {ℓ} :
    {A : Type ℓ} (good : A → Bool) (xs : List A)
    → any good xs ≡ true
    → (x : A) × (first_good good xs ≡ some x)
unfolding first_good
first_good-any good [] h = ground arith
first_good-any good (x ∷ xs) h = elim (Bool-cases (good x)) [
  | inl e ↦ (x, rw e refl)
  | inr e ↦
      (let (y, k) = first_good-any good xs (ground (arith, h, e)) in (y, ground (arith, k, e)))
]

pick_id-ends :
    (uid : Uuid) (ids draws : List Uuid)
    → (uid ≡ nil_uuid → any (λ x. not (has_text x ids)) draws ≡ true)
    → has_text uid ids ≡ false
    → (x : Uuid) × (pick_id uid ids draws ≡ ok x)
unfolding pick_id
pick_id-ends uid ids draws h k = elim (Bool-cases (str_eq uid nil_uuid)) [
  | inl e ↦
      (let (x, f) =
          first_good-any (λ y. not (has_text y ids)) draws (h (path_by_str_eq uid nil_uuid e)) in
        (x, rw (e, pick_id, f) refl))
  | inr e ↦ (uid, rw (e, pick_id, k) refl)
]

pick_addr-ends :
    (taken draws : List Addr)
    → any (good_addr taken) draws ≡ true
    → (x : Addr) × (pick_addr taken draws ≡ ok x)
unfolding pick_addr
pick_addr-ends taken draws h =
    let (x, f) = first_good-any (good_addr taken) draws h in (x, rw (f, pick_addr) refl)

-- Where the scan finds no collision, a slot is free, the given identifier is not taken, and each list
-- of draws has one that will do, a user is assembled.
pub assemble_user-ends :
    (uid : Uuid) (b : Brigade) (fullname : String) (is_brigadier : Bool) (max_users : ℕ) (d : Draws)
    → scan_users fullname is_brigadier b.users ≡ ok tt
    → count_distinct (user_ids b.users) < max_users
    → has_text uid (user_ids b.users) ≡ false
    → (uid ≡ nil_uuid → any (λ x. not (has_text x (user_ids b.users))) d.uuids ≡ true)
    → any (good_addr (taken_ipv4 b)) (map (random_addr_ipv4 b.ipv4_cgnat) d.ip4s) ≡ true
    → any (good_addr (taken_ipv6 b)) (map (random_addr_ipv6 b.ipv6_ula) d.ip6s) ≡ true
    → (s : Assembled) × (assemble_user uid b fullname is_brigadier max_users d ≡ ok s)
unfolding assemble_user
assemble_user-ends uid b fullname br max_users d scan room free ids v4s v6s =
    let (id, e_id) = pick_id-ends uid (user_ids b.users) d.uuids ids free in
    let (v4, e4) = pick_addr-ends (taken_ipv4 b) (map (random_addr_ipv4 b.ipv4_cgnat) d.ip4s) v4s in
    let (v6, e6) = pick_addr-ends (taken_ipv6 b) (map (random_addr_ipv6 b.ipv6_ula) d.ip6s) v6s in
    let slot : leb max_users (count_distinct (user_ids b.users)) ≡ false = ground (arith, room) in
    (
      record { id = id; ipv4 = v4; ipv6 = v6; name = user_name b v4 fullname },
      rw (assemble_user, scan, slot, e_id, e4, e6) refl,
    )
