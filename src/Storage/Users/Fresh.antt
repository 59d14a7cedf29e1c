-- ===== src/Storage/Users/Fresh.antt =====
-- What a new user gets is nobody's: its identifier, its addresses and the number in its name.
use text.Mathlib.Text.{◌==◌ as str_eq}
use keydesk.Kdlib.Net.Range.{offset, at_offset}
use keydesk.World.{ok, Result, err, Error, user_limit}
use keydesk.Kdlib.Net.{is_zero_ending, masked, random_addr_ipv4, random_addr_ipv6}
use keydesk.Storage.Types.{Brigade, User, Uuid, ip4, Addr}
use keydesk.Prelude.{
  ◌&&◌, ◌+◌, ◌<◌, Bool, Bool-cases, List, String, [], any, arith, false, inl, inr, map, some, true,
  ℕ, ◌∷◌, ◌≡◌, Option-cases, leb, not, refl, sym, ◌∙◌, ap, if◌then◌else◌, subst,
}
use keydesk.Storage.Users.Assemble.{
  Assembled, Draws, assemble_user, scan_users, pick_id, pick_addr, first_good, good_addr, has_addr,
  has_text, count_distinct, user_ids, taken_ipv4, taken_ipv6, ◌then_ok◌, user_name, nil_uuid,
}

module _ {ℓ κ} {A : Type ℓ} {B : Type κ} where
  then_ok-ok :
      (r : Result A) (f : A → Result B) (y : B)
      → (r then_ok f) ≡ ok y
      → (a : A) × (r ≡ ok a) × (f a ≡ ok y)
  then_ok-ok (ok a) f y h = (a, refl, h)
  then_ok-ok (err e) f y h = ground arith

  -- What the loop ends with is good, and one of the draws.
  first_good-map :
      (good : B → Bool) (f : A → B) (rs : List A) (x : B)
      → first_good good (map f rs) ≡ some x
      → (good x ≡ true) × (r : A) × (x ≡ f r)
  unfolding first_good
  first_good-map good f [] x h = ground arith
  first_good-map good f (r ∷ rs) x h = elim (Bool-cases (good (f r))) [
    | inl e ↦ (let same : x ≡ f r = ground (arith, e, h) in (ground (arith, e, same), r, same))
    | inr e ↦ first_good-map good f rs x (ground (arith, e, h))
  ]

map_id {ℓ} : {A : Type ℓ} (l : List A) → map (λ y. y) l ≡ l
map_id [] = refl
map_id (x ∷ l) = ap (λ (t : List _). x ∷ t) (map_id l)

guard-ok {ℓ} :
    {A : Type ℓ} (t : Bool) (e : Error) (m : Result A) (y : A)
    → (if t then err e else m) ≡ ok y
    → (t ≡ false) × (m ≡ ok y)
guard-ok true e m y h = ground arith
guard-ok false e m y h = (refl, h)

-- What `assembleUser` promises of its result.
pub record IsFresh (b : Brigade) (is_brigadier : Bool) (max_users : ℕ) (s : Assembled)
    : Type 0 where
  pub has_slot : count_distinct (user_ids b.users) < max_users
  pub one_brigadier : is_brigadier && any (λ u. u.is_brigadier) b.users ≡ false
  pub id_free : has_text s.id (user_ids b.users) ≡ false
  pub ipv4_free : has_addr s.ipv4 (taken_ipv4 b) ≡ false
  pub ipv4_ending : is_zero_ending s.ipv4 ≡ false
  pub ipv4_offset : (r : ℕ) × (s.ipv4 ≡ ip4 (masked 32 b.ipv4_cgnat + offset b.ipv4_cgnat r))
  pub ipv6_free : has_addr s.ipv6 (taken_ipv6 b) ≡ false
  pub ipv6_ending : is_zero_ending s.ipv6 ≡ false

scan-one_brigadier :
    (fullname : String) (is_brigadier : Bool) (us : List User)
    → scan_users fullname is_brigadier us ≡ ok tt
    → is_brigadier && any (λ u. u.is_brigadier) us ≡ false
unfolding scan_users
scan-one_brigadier n br [] h = ground arith
scan-one_brigadier n br (u ∷ us) h = ground (arith, scan-one_brigadier n br us)

pick_id-free :
    (uid : Uuid) (ids draws : List Uuid) (x : Uuid)
    → pick_id uid ids draws ≡ ok x
    → has_text x ids ≡ false
unfolding pick_id
pick_id-free uid ids draws x h = elim (Bool-cases (str_eq uid nil_uuid)) [
  | inl e ↦ (elim (Option-cases (first_good (λ y. not (has_text y ids)) draws)) [
    | inl n ↦ ground (arith, e, n, h)
    | inr (y, n) ↦
        (let g =
            (first_good-map (λ y. not (has_text y ids)) (λ y. y) draws y (rw (map_id draws) n)).0 in
          let same : y ≡ x = ground (arith, e, n, h) in ground (arith, g, same))
  ])
  | inr e ↦ ground (arith, e, h)
]

pick_addr-free :
    {A : Type 0} (taken : List Addr) (f : A → Addr) (rs : List A) (x : Addr)
    → pick_addr taken (map f rs) ≡ ok x
    → (has_addr x taken ≡ false) × (is_zero_ending x ≡ false) × (r : A) × (x ≡ f r)
unfolding pick_addr
pick_addr-free taken f rs x h = elim (Option-cases (first_good (good_addr taken) (map f rs))) [
  | inl n ↦ ground (arith, n, h)
  | inr (y, n) ↦
      (let (g, r, e) = first_good-map (good_addr taken) f rs y n in
        let same : y ≡ x = ground (arith, n, h) in
        (ground (arith, g, same), ground (arith, g, same), r, sym same ∙ e))
]

ok_inj : (s t : Assembled) → Path (Result Assembled) (ok s) (ok t) → s ≡ t
ok_inj s t h = ground arith

-- A user that is assembled is fresh: it takes a slot that is free, is no second brigadier, and has an
-- identifier and addresses that no user has and that are not the first or last of the prefixes. The
-- addresses end in no zero, and the IPv4 address is at an offset in its prefix.
pub assemble_user-IsFresh :
    (uid : Uuid) (b : Brigade) (fullname : String) (is_brigadier : Bool) (max_users : ℕ) (d : Draws)
    (s : Assembled)
    → assemble_user uid b fullname is_brigadier max_users d ≡ ok s
    → IsFresh b is_brigadier max_users s
unfolding assemble_user
assemble_user-IsFresh uid b fullname br max_users d s h =
    let (u, scan, h1) = then_ok-ok (scan_users fullname br b.users) (λ _. slot) s h in
    let (room, h2) =
      guard-ok (leb max_users (count_distinct (user_ids b.users))) user_limit (ids then_ok with_id)
        s h1 in
    let (id, e_id, h3) = then_ok-ok ids with_id s h2 in
    let (v4, e_v4, h4) = then_ok-ok v4s (with_v4 id) s h3 in
    let (v6, e_v6, h5) = then_ok-ok v6s (with_v6 id v4) s h4 in
    let (free4, end4, r4, at4) =
      pick_addr-free (taken_ipv4 b) (random_addr_ipv4 b.ipv4_cgnat) d.ip4s v4 e_v4 in
    let (free6, end6, r6, at6) =
      pick_addr-free (taken_ipv6 b) (random_addr_ipv6 b.ipv6_ula) d.ip6s v6 e_v6 in
    subst (λ t. IsFresh b br max_users t) (ok_inj _ s h5)
      (record {
        has_slot = ground (arith, room);
        one_brigadier = scan-one_brigadier fullname br b.users scan;
        id_free = pick_id-free uid (user_ids b.users) d.uuids id e_id;
        ipv4_free = free4;
        ipv4_ending = end4;
        ipv4_offset = (r4, at4 ∙ at_offset b.ipv4_cgnat r4);
        ipv6_free = free6;
        ipv6_ending = end6;
      })
  where
    ids : Result Uuid
    ids = pick_id uid (user_ids b.users) d.uuids

    v4s : Result Addr
    v4s = pick_addr (taken_ipv4 b) (map (random_addr_ipv4 b.ipv4_cgnat) d.ip4s)

    v6s : Result Addr
    v6s = pick_addr (taken_ipv6 b) (map (random_addr_ipv6 b.ipv6_ula) d.ip6s)

    with_v6 : Uuid → Addr → Addr → Result Assembled
    with_v6 id v4 v6 = ok (record { id = id; ipv4 = v4; ipv6 = v6; name = user_name b v4 fullname })

    with_v4 : Uuid → Addr → Result Assembled
    with_v4 id v4 = v6s then_ok with_v6 id v4

    with_id : Uuid → Result Assembled
    with_id id = v4s then_ok with_v4 id

    slot : Result Assembled
    slot =
        if leb max_users (count_distinct (user_ids b.users))
        then err user_limit
        else (ids then_ok with_id)
