-- ===== src/Kdlib/Net.antt =====
-- kdlib/net.go: random addresses of a prefix. A random number of math/rand is an argument `r`, any
-- number at all, and `rand.Int63n(n)` is `r % n`.
pub mod Range
use Prim.Native.Nat.{bit_and, bit_or}
use keydesk.Prelude.{ℕ, ◌%◌, ◌*◌, ◌+◌, ◌-◌, ◌/◌, ◌==◌, Bool, ◌^◌, false, if◌then◌else◌, ltb}
use keydesk.Storage.Types.{Addr, no_addr, ip4, ip6, Prefix}

-- `p.Masked().Addr()` of a prefix whose addresses have `width` bits.
abbrev pub masked : ℕ → Prefix → ℕ
masked width p = p.base / 2 ^ (width - p.bits) * 2 ^ (width - p.bits)

-- `IsZeroEnding`
unfoldable pub is_zero_ending : Addr → Bool
is_zero_ending no_addr = false
is_zero_ending (ip4 n) = n % 256 == 0
is_zero_ending (ip6 n) = n % 65536 == 0

-- `RandomAddrIPv4`
unfoldable pub random_addr_ipv4 : Prefix → ℕ → Addr
random_addr_ipv4 p r =
    let m = 2 ^ (32 - p.bits) - 1 in
    let x = if ltb 0 m then r % m else 0 in ip4 (bit_or (bit_and x m) (masked 32 p))

-- The random numbers of one call of `RandomAddrIPv6`: two for either half of the address.
pub record Draw6 : Type 0 where
  pub low : ℕ
  pub low_sign : ℕ
  pub high : ℕ
  pub high_sign : ℕ

-- `randomFrom8`: the product by 0 or -1 is taken modulo 2 ^ 64.
random_from8 : ℕ → ℕ → ℕ → ℕ → ℕ
random_from8 src mask r sign =
    let n = r % bit_and mask (2 ^ 63 - 1) in
    let x = if ltb 0 mask then (if sign % 2 == 0 then 0 else (2 ^ 64 - n) % 2 ^ 64) else 0 in
    bit_or (bit_and x mask) src

-- The ones below the prefix in the low and in the high half of an address.
abbrev pub mask_low : ℕ → ℕ
mask_low bits = if ltb 64 bits then 2 ^ (128 - bits) - 1 else 2 ^ 64 - 1

abbrev pub mask_high : ℕ → ℕ
mask_high bits = 2 ^ (64 - bits) - 1

-- `RandomAddrIPv6`
unfoldable pub random_addr_ipv6 : Prefix → Draw6 → Addr
unfolding random_from8
random_addr_ipv6 p d =
    let s = masked 128 p in
    let low = random_from8 (s % 2 ^ 64) (mask_low p.bits) d.low d.low_sign in
    let high =
      if ltb p.bits 64
      then random_from8 (s / 2 ^ 64) (mask_high p.bits) d.high d.high_sign
      else s / 2 ^ 64 in
    ip6 (high * 2 ^ 64 + low)

-- `LastPrefixIPv4`
unfoldable pub last_prefix_ipv4 : Prefix → Addr
last_prefix_ipv4 p = ip4 (bit_or (masked 32 p) (2 ^ (32 - p.bits) - 1))

-- `LastPrefixIPv6`
unfoldable pub last_prefix_ipv6 : Prefix → Addr
last_prefix_ipv6 p =
    let s = masked 128 p in
    let low = bit_or (s % 2 ^ 64) (mask_low p.bits) in
    let high = if ltb p.bits 64 then bit_or (s / 2 ^ 64) (mask_high p.bits) else s / 2 ^ 64 in
    ip6 (high * 2 ^ 64 + low)
