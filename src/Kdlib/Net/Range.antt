-- ===== src/Kdlib/Net/Range.antt =====
-- A random address is one of its prefix, and never the last one of it.
use Prim.Native.Nat.{bit_and, bit_or}
use keydesk.Prelude.{
  ℕ, ◌%◌, ◌+◌, ◌-◌, ◌<◌, ◌^◌, if◌then◌else◌, ltb, ◌≡◌, ◌*◌, ◌/◌, ap, arith, suc, zero, ◌∙◌, ◌≤◌,
}
use keydesk.Prelude.Bits.{bit_and-mask, bit_or-disjoint}
use native.Mathlib.Nat.{pow-suc, one-le-pow, mod-lt, mod-eq_of_lt}
use keydesk.Storage.Types.{ip4, Prefix}
use keydesk.Kdlib.Net.{random_addr_ipv4, masked}

-- The offset in the prefix that a random number gives.
abbrev pub offset : Prefix → ℕ → ℕ
offset p r = if ltb 0 (2 ^ (32 - p.bits) - 1) then r % (2 ^ (32 - p.bits) - 1) else 0

below_mask : (k r : ℕ) → (if ltb 0 (2 ^ k - 1) then r % (2 ^ k - 1) else 0) < 2 ^ k
below_mask k r = ground (arith, one-le-pow k 2, mod-lt r {m = 2 ^ k - 1})

two-le-pow : (k : ℕ) → 0 < k → 2 ≤ 2 ^ k
two-le-pow zero h = elim h [ ]
two-le-pow (suc k) h = omega (arith, pow-suc 2 k, one-le-pow k 2)

not_last : (k r : ℕ) → 0 < k → (if ltb 0 (2 ^ k - 1) then r % (2 ^ k - 1) else 0) + 1 < 2 ^ k
not_last k r h = ground (arith, two-le-pow k h, mod-lt r {m = 2 ^ k - 1})

masked_or : (k x q : ℕ) → x < 2 ^ k → bit_or (bit_and x (2 ^ k - 1)) (q * 2 ^ k) ≡ q * 2 ^ k + x
masked_or k x q h =
    ap (λ (t : ℕ). bit_or t (q * 2 ^ k)) (bit_and-mask k x ∙ mod-eq_of_lt h)
    ∙ bit_or-disjoint k x q h

pub at_offset : (p : Prefix) (r : ℕ) → random_addr_ipv4 p r ≡ ip4 (masked 32 p + offset p r)
unfolding random_addr_ipv4
at_offset p r =
    ap ip4 (
      masked_or (32 - p.bits) (offset p r) (p.base / 2 ^ (32 - p.bits))
        (below_mask (32 - p.bits) r))

-- In a prefix of more than one address, a random address is at an offset in the prefix that is not the
-- last one.
pub random_addr_ipv4-offset :
    (p : Prefix) (r : ℕ)
    → p.bits < 32
    → (random_addr_ipv4 p r ≡ ip4 (masked 32 p + offset p r)) × (offset p r + 1 < 2 ^ (32 - p.bits))
random_addr_ipv4-offset p r h = (at_offset p r, not_last (32 - p.bits) r (omega arith))
