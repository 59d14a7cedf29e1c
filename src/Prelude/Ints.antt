-- ===== src/Prelude/Ints.antt =====
-- Signed integers over the native naturals, with the comparisons of the code.
use keydesk.Prelude.{◌≡◌, arith, refl, not, ◌||◌}
use Prim.Native.Nat.{ℕ, ◌+◌, ◌-◌}
use mathlib.Core.Bool.{Bool, true, false}
use keydesk.Prelude.Tests.{ltb, leb, if◌then◌else◌, ◌==◌}

pub data ℤ : Type 0 where
  pos : ℕ → ℤ
  negsuc : ℕ → ℤ

-- A difference of machine integers.
unfoldable pub int_minus : ℕ → ℕ → ℤ
int_minus m n = if leb n m then pos (m - n) else negsuc (n - m - 1)

unfoldable pub int_less : ℤ → ℤ → Bool
int_less (pos m) (pos n) = ltb m n
int_less (pos m) (negsuc n) = false
int_less (negsuc m) (pos n) = true
int_less (negsuc m) (negsuc n) = ltb n m

unfoldable pub int_eq : ℤ → ℤ → Bool
int_eq (pos m) (pos n) = m == n
int_eq (negsuc m) (negsuc n) = m == n
int_eq _ _ = false

abbrev pub is_zero_int : ℤ → Bool
is_zero_int (pos n) = n == 0
is_zero_int (negsuc n) = false

-- A natural number moved by an integer, cut off at 0.
unfoldable pub moved_by : ℕ → ℤ → ℕ
moved_by m (pos n) = m + n
moved_by m (negsuc n) = m - n - 1

pub int_less-asym : (m n : ℤ) → int_less m n ≡ true → int_less n m ≡ false
unfolding int_less
int_less-asym (pos m) (pos n) h = ground (arith, h)
int_less-asym (pos m) (negsuc n) h = absurd (ground (arith, h))
int_less-asym (negsuc m) (pos n) h = refl
int_less-asym (negsuc m) (negsuc n) h = ground (arith, h)

-- "Not less" is transitive.
pub int_less_trans :
    (k m n : ℤ) → int_less m k ≡ false → int_less n m ≡ false → int_less n k ≡ false
unfolding int_less
int_less_trans (pos k) (pos m) (pos n) h l = ground (arith, h, l)
int_less_trans (pos k) (pos m) (negsuc n) h l = l
int_less_trans (pos k) (negsuc m) n h l = absurd (ground (arith, h))
int_less_trans (negsuc k) (pos m) (pos n) h l = refl
int_less_trans (negsuc k) (pos m) (negsuc n) h l = absurd (ground (arith, l))
int_less_trans (negsuc k) (negsuc m) (pos n) h l = refl
int_less_trans (negsuc k) (negsuc m) (negsuc n) h l = ground (arith, h, l)

pub not_less-ge : (t v : ℤ) → not (int_less t v) ≡ (int_eq t v || int_less v t)
unfolding int_less int_eq
not_less-ge (pos t) (pos v) = ground arith
not_less-ge (pos t) (negsuc v) = refl
not_less-ge (negsuc t) (pos v) = refl
not_less-ge (negsuc t) (negsuc v) = ground arith

pub int_eq-sym : (t v : ℤ) → int_eq t v ≡ int_eq v t
unfolding int_eq
int_eq-sym (pos t) (pos v) = ground arith
int_eq-sym (pos t) (negsuc v) = refl
int_eq-sym (negsuc t) (pos v) = refl
int_eq-sym (negsuc t) (negsuc v) = ground arith
