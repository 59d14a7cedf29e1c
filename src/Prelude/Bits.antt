-- ===== src/Prelude/Bits.antt =====
-- Bitwise operations on machine words at variables, by their lowest digit.
use Prim.Native.Nat.{
  ℕ, zero, suc, ◌+◌, ◌-◌, ◌*◌, ◌/◌, ◌%◌, ◌^◌, ◌≤◌, ◌<◌, min, max, digits, bitwise, bit_and, bit_or,
  bit_xor, bit_and-bitwise, bit_or-bitwise, bit_xor-bitwise, differ,
}
use mathlib.Core.Path.{◌≡◌, refl, ap, ap₂, ◌∙◌, sym}
use native.Mathlib.Nat.{
  pow-suc, one-le-pow, div-add-mod', mul-add-mod_self_right, mod-eq_of_lt, mod-lt,
}
use native.Mathlib.Omega.{arith}

-- Two counts of digits that both suffice for the first number give the same result.
module _ (z : ℕ → ℕ) (f : ℕ → ℕ → ℕ) where
  digits_count : (b a n m : ℕ) → a ≤ n → a ≤ m → digits z f n a b ≡ digits z f m a b
  digits_count b zero zero zero h k = refl
  digits_count b zero zero (suc m) h k = refl
  digits_count b zero (suc n) zero h k = refl
  digits_count b zero (suc n) (suc m) h k = refl
  digits_count b (suc a) zero m h k = elim h [ ]
  digits_count b (suc a) (suc n) zero h k = elim k [ ]
  digits_count b (suc a) (suc n) (suc m) h k =
      ap (λ (t : ℕ). t * 2 + f (suc a % 2) (b % 2))
        (digits_count (b / 2) (suc a / 2) n m (omega arith) (omega arith))

  lowest_digit :
      (a b : ℕ)
      → bitwise z f (suc a) b ≡ 2 * bitwise z f (suc a / 2) (b / 2) + f (suc a % 2) (b % 2)
  lowest_digit a b =
      ap (λ (t : ℕ). t * 2 + f (suc a % 2) (b % 2))
        (digits_count (b / 2) (suc a / 2) a (suc a / 2) (omega arith) (omega arith))
      ∙ omega arith

and_digit : (a b : ℕ) → bit_and a b ≡ 2 * bit_and (a / 2) (b / 2) + min (a % 2) (b % 2)
and_digit zero b = simp bit_and-bitwise (omega arith)
and_digit (suc a) b = simp bit_and-bitwise (lowest_digit (λ c. 0) min a b)

or_digit : (a b : ℕ) → bit_or a b ≡ 2 * bit_or (a / 2) (b / 2) + max (a % 2) (b % 2)
or_digit zero b = simp bit_or-bitwise (omega arith)
or_digit (suc a) b = simp bit_or-bitwise (lowest_digit (λ c. c) max a b)

xor_digit : (a b : ℕ) → bit_xor a b ≡ 2 * bit_xor (a / 2) (b / 2) + differ (a % 2) (b % 2)
xor_digit zero b = simp bit_xor-bitwise (omega arith)
xor_digit (suc a) b = simp bit_xor-bitwise (lowest_digit (λ c. c) differ a b)

differ_digit : (a b : ℕ) → a < 2 → b < 2 → differ a b < 2
differ_digit zero b h k = k
differ_digit (suc zero) zero h k = h
differ_digit (suc zero) (suc zero) h k = omega arith
differ_digit (suc zero) (suc (suc b)) h k = absurd (omega arith)
differ_digit (suc (suc a)) b h k = absurd (omega arith)

differ_cancel : (a b c : ℕ) → a < 2 → b < 2 → c < 2 → differ a c ≡ differ b c → a ≡ b
differ_cancel zero zero c h k l e = refl
differ_cancel zero (suc zero) zero h k l e = omega arith
differ_cancel zero (suc zero) (suc zero) h k l e = omega arith
differ_cancel zero (suc zero) (suc (suc c)) h k l e = absurd (omega arith)
differ_cancel (suc zero) zero zero h k l e = omega arith
differ_cancel (suc zero) zero (suc zero) h k l e = omega arith
differ_cancel (suc zero) zero (suc (suc c)) h k l e = absurd (omega arith)
differ_cancel (suc zero) (suc zero) c h k l e = refl
differ_cancel (suc (suc a)) b c h k l e = absurd (omega arith)
differ_cancel zero (suc (suc b)) c h k l e = absurd (omega arith)
differ_cancel (suc zero) (suc (suc b)) c h k l e = absurd (omega arith)

twice_pow : (q k : ℕ) → q * 2 ^ suc k ≡ q * 2 ^ k * 2
twice_pow q k = omega (arith, ap (λ (t : ℕ). q * t) (pow-suc 2 k))

-- Nothing is left over a number that has run out.
zero-bit_or : (b : ℕ) → bit_or 0 b ≡ b
zero-bit_or b = bit_or-bitwise 0 b

bit_and-zero : (n a : ℕ) → a ≤ n → bit_and a 0 ≡ 0
bit_and-zero n zero h = refl
bit_and-zero zero (suc a) h = elim h [ ]
bit_and-zero (suc n) (suc a) h =
    omega (arith, and_digit (suc a) 0, bit_and-zero n (suc a / 2) (omega arith))

mod_double : (m a : ℕ) → 0 < m → a % (m * 2) ≡ a / 2 % m * 2 + a % 2
mod_double m a h =
    let q = a / 2 / m in
    let r = a / 2 % m in
    let parts : a ≡ q * (m * 2) + (r * 2 + a % 2) = omega (arith, div-add-mod' (a / 2) m) in
    ap (λ (t : ℕ). t % (m * 2)) parts
    ∙ mul-add-mod_self_right q (m * 2) (r * 2 + a % 2)
    ∙ mod-eq_of_lt (omega (arith, mod-lt (a / 2) h))

pub mod_pow : (k a : ℕ) → a % 2 ^ suc k ≡ a / 2 % 2 ^ k * 2 + a % 2
mod_pow k a =
    ap (λ (t : ℕ). a % t) (pow-suc 2 k) ∙ mod_double (2 ^ k) a (omega (arith, one-le-pow k 2))

-- A mask of k ones leaves the k lowest digits.
pub bit_and-mask : (k a : ℕ) → bit_and a (2 ^ k - 1) ≡ a % 2 ^ k
bit_and-mask zero a = omega (arith, bit_and-zero a a (omega arith))
bit_and-mask (suc k) a =
    and_digit a (2 ^ suc k - 1)
    ∙ ap (λ (t : ℕ). 2 * bit_and (a / 2) t + min (a % 2) ((2 ^ suc k - 1) % 2)) half
    ∙ omega (arith, bit_and-mask k (a / 2), mod_pow k a, pow-suc 2 k, one-le-pow k 2)
  where
    half : (2 ^ suc k - 1) / 2 ≡ 2 ^ k - 1
    half = omega (arith, pow-suc 2 k, one-le-pow k 2)

-- Numbers with no digit in common: the one below 2 ^ k, the other a multiple of 2 ^ k.
pub bit_or-disjoint : (k r q : ℕ) → r < 2 ^ k → bit_or r (q * 2 ^ k) ≡ q * 2 ^ k + r
bit_or-disjoint zero r q h = ground (arith, zero-bit_or q)
bit_or-disjoint (suc k) r q h = ground (
  arith,
  or_digit r (q * 2 ^ suc k),
  twice_pow q k,
  pow-suc 2 k,
  bit_or-disjoint k (r / 2) q (omega (arith, pow-suc 2 k)),
)

xor-mod :
    (k a c : ℕ)
    → bit_xor a c % 2 ^ suc k ≡ bit_xor (a / 2) (c / 2) % 2 ^ k * 2 + differ (a % 2) (c % 2)
xor-mod k a c =
    let low = differ_digit (a % 2) (c % 2) (omega arith) (omega arith) in
    let digit = xor_digit a c in
    mod_pow k (bit_xor a c) ∙ ap₂ (λ (s t : ℕ). s % 2 ^ k * 2 + t) (omega arith) (omega arith)

-- The k lowest digits of an exclusive or determine those of either number, given the other.
pub bit_xor-cancel :
    (k a b c : ℕ) → bit_xor a c % 2 ^ k ≡ bit_xor b c % 2 ^ k → a % 2 ^ k ≡ b % 2 ^ k
bit_xor-cancel zero a b c h = omega arith
bit_xor-cancel (suc k) a b c h =
    let whole : bit_xor (a / 2) (c / 2) % 2 ^ k * 2 + differ (a % 2) (c % 2)
        ≡ bit_xor (b / 2) (c / 2) % 2 ^ k * 2 + differ (b % 2) (c % 2) =
      sym (xor-mod k a c) ∙ h ∙ xor-mod k b c in
    let high : bit_xor (a / 2) (c / 2) % 2 ^ k ≡ bit_xor (b / 2) (c / 2) % 2 ^ k = omega (
      arith,
      differ_digit (a % 2) (c % 2) (omega arith) (omega arith),
      differ_digit (b % 2) (c % 2) (omega arith) (omega arith),
    ) in
    let low =
      differ_cancel (a % 2) (b % 2) (c % 2) (omega arith) (omega arith) (omega arith)
        (omega arith) in
    omega (arith, mod_pow k a, mod_pow k b, bit_xor-cancel k (a / 2) (b / 2) (c / 2) high)
