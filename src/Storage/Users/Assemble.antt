-- ===== src/Storage/Users/Assemble.antt =====
-- `assembleUser` of keydesk/storage/user.go: a new user's identifier, addresses and name.
use text.Mathlib.Text.{◌==◌ as str_eq}
use keydesk.Prelude.{
  ℕ, ◌&&◌, ◌+◌, ◌==◌, Bool, List, Option, String, [], any, false, if◌then◌else◌, leb, map, none,
  not, some, true, ◌∷◌,
}
use keydesk.Storage.Types.{Brigade, User, Addr, no_addr, ip4, ip6, Uuid}
use keydesk.Storage.Names.{numbered_name}
use keydesk.Kdlib.Net.{
  Draw6, random_addr_ipv4, random_addr_ipv6, last_prefix_ipv4, last_prefix_ipv6, is_zero_ending,
}
use keydesk.Kdlib.Blur.{blur_ipv4_addr, extract_uint32_salt}
use keydesk.World.{
  ok, err, Result, user_collision, brigadier_collision, user_limit, unresolvable_collision, no_draw,
}

-- What the calls of `uuid.New` and of math/rand give, in their order.
pub record Draws : Type 0 where
  pub uuids : List Uuid
  pub ip4s : List ℕ
  pub ip6s : List Draw6
  pub domain : ℕ

pub record Assembled : Type 0 where
  pub id : Uuid
  pub ipv4 : Addr
  pub ipv6 : Addr
  pub name : String

abbrev pub nil_uuid : Uuid
nil_uuid = "00000000-0000-0000-0000-000000000000"

-- Equality of addresses, by which the sets of taken addresses go.
unfoldable pub addr_eq : Addr → Addr → Bool
addr_eq no_addr no_addr = true
addr_eq (ip4 m) (ip4 n) = m == n
addr_eq (ip6 m) (ip6 n) = m == n
addr_eq _ _ = false

abbrev pub has_addr : Addr → List Addr → Bool
has_addr a l = any (addr_eq a) l

abbrev pub has_text : String → List String → Bool
has_text s l = any (str_eq s) l

-- The number of keys of a set that is filled with the texts of a list.
unfoldable pub count_distinct : List String → ℕ
count_distinct [] = 0
count_distinct (s ∷ ss) = if has_text s ss then count_distinct ss else count_distinct ss + 1

-- `for { x := draw(); if good(x) { break } }` over what the draws give; `none` says that the loop
-- has not ended yet.
unfoldable pub first_good {ℓ} : {A : Type ℓ} → (A → Bool) → List A → Option A
first_good good [] = none
first_good good (x ∷ xs) = let rest = first_good good xs in if good x then some x else rest

-- The two collisions that the scan of the users looks for, in the order of the users.
unfoldable pub scan_users : String → Bool → List User → Result (Unit {0})
scan_users fullname is_brigadier [] = ok tt
scan_users fullname is_brigadier (u ∷ us) =
    let rest = scan_users fullname is_brigadier us in
    if str_eq u.name fullname
    then err user_collision
    else if is_brigadier && u.is_brigadier
    then err brigadier_collision
    else rest

abbrev pub user_ids : List User → List Uuid
user_ids us = map (λ u. u.user_id) us

abbrev pub taken_ipv4 : Brigade → List Addr
taken_ipv4 b =
    ip4 b.ipv4_cgnat.base ∷ last_prefix_ipv4 b.ipv4_cgnat ∷ map (λ u. u.ipv4_addr) b.users

abbrev pub taken_ipv6 : Brigade → List Addr
taken_ipv6 b = ip6 b.ipv6_ula.base ∷ last_prefix_ipv6 b.ipv6_ula ∷ map (λ u. u.ipv6_addr) b.users

abbrev pub good_addr : List Addr → Addr → Bool
good_addr taken a = not (is_zero_ending a) && not (has_addr a taken)

-- A new identifier, or the given one if nobody has it.
unfoldable pub pick_id : Uuid → List Uuid → List Uuid → Result Uuid
pick_id uid ids draws =
    if str_eq uid nil_uuid
    then (elim (first_good (λ x. not (has_text x ids)) draws) [
      | none ↦ err no_draw
      | some x ↦ ok x
    ])
    else if has_text uid ids
    then err unresolvable_collision
    else ok uid

unfoldable pub pick_addr : List Addr → List Addr → Result Addr
pick_addr taken draws = elim (first_good (good_addr taken) draws) [
  | none ↦ err no_draw
  | some x ↦ ok x
]

unfoldable pub addr_number : Addr → ℕ
addr_number no_addr = 0
addr_number (ip4 n) = n
addr_number (ip6 n) = n

infixl 5 ◌then_ok◌
abbrev pub ◌then_ok◌ {ℓ κ} : {A : Type ℓ} {B : Type κ} → Result A → (A → Result B) → Result B
ok a then_ok f = f a
err e then_ok f = err e

abbrev pub user_name : Brigade → Addr → String → String
user_name b a fullname =
    numbered_name
      (blur_ipv4_addr (addr_number a) b.ipv4_cgnat.bits (extract_uint32_salt b.brigade_id)) fullname

-- `assembleUser`
unfoldable pub assemble_user : Uuid → Brigade → String → Bool → ℕ → Draws → Result Assembled
unfolding pick_id pick_addr addr_number
assemble_user uid b fullname is_brigadier max_users draws =
    scan_users fullname is_brigadier b.users then_ok λ _.
    if leb max_users (count_distinct (user_ids b.users))
    then err user_limit
    else (pick_id uid (user_ids b.users) draws.uuids then_ok λ id.
        pick_addr (taken_ipv4 b) (map (random_addr_ipv4 b.ipv4_cgnat) draws.ip4s) then_ok λ v4.
        pick_addr (taken_ipv6 b) (map (random_addr_ipv6 b.ipv6_ula) draws.ip6s) then_ok λ v6.
        ok (record { id = id; ipv4 = v4; ipv6 = v6; name = user_name b v4 fullname }))
