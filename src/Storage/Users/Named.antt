-- ===== src/Storage/Users/Named.antt =====
-- Stored names start with the digits of a number, so the scan for a name that is taken finds none.
use keydesk.World.{err, user_collision}
use keydesk.Storage.Types.{User}
use keydesk.Storage.Users.Assemble.{scan_users}
use keydesk.Prelude.{
  ◌&&◌, All, Bool, List, String, arith, false, leb, suc, true, zero, ℕ, ◌≡◌, ◌≢◌, ◌%◌, ◌/◌,
  if◌then◌else◌, ltb, refl, [], ◌∷◌, ap,
}
use Prim.Native.Char.{Char, code}
use Prim.Native.String.{◌++◌ as str_append}
use text.Mathlib.TextEquality.{path_by_compare}
use text.Mathlib.Text.{◌==◌ as str_eq}
use keydesk.Storage.Names.{decimal, numbered_name, digit, nth_char}

abbrev pub is_digit : Char → Bool
is_digit c = leb b'0' (code c) && leb (code c) b'9'

abbrev pub starts_digit : String → Bool
starts_digit String.[] = false
starts_digit (String.◌∷◌ c s) = is_digit c

abbrev all_digits : String → Bool
all_digits String.[] = true
all_digits (String.◌∷◌ c s) = is_digit c && all_digits s

nth_char-is_digit :
    (s : String) (last : Char) (n : ℕ)
    → all_digits s ≡ true
    → is_digit last ≡ true
    → is_digit (nth_char s last n) ≡ true
unfolding nth_char
nth_char-is_digit String.[] last n h k = k
nth_char-is_digit (String.◌∷◌ c s) last zero h k = ground arith
nth_char-is_digit (String.◌∷◌ c s) last (suc n) h k = nth_char-is_digit s last n (ground arith) k

digit-is_digit : (d : ℕ) → is_digit (digit d) ≡ true
unfolding digit
digit-is_digit d = nth_char-is_digit "012345678" "9" d refl refl

str_eq-false : (s t : String) → (s ≡ t → ⊥) → str_eq s t ≡ false
str_eq-false s t h = ground (arith, path_by_compare s t)

either-starts :
    (t : Bool) (a b : String)
    → starts_digit a ≡ true
    → starts_digit b ≡ true
    → starts_digit (if t then a else b) ≡ true
either-starts true a b h k = h
either-starts false a b h k = k

decimal-keeps :
    (f n : ℕ) (acc : String) → starts_digit acc ≡ true → starts_digit (decimal f n acc) ≡ true
unfolding decimal
decimal-keeps zero n acc h = h
decimal-keeps (suc f) n acc h =
    either-starts (ltb n 10) _ _ (digit-is_digit n)
      (decimal-keeps f (n / 10) _ (digit-is_digit (n % 10)))

decimal-starts : (f n : ℕ) (acc : String) → starts_digit (decimal (suc f) n acc) ≡ true
unfolding decimal
decimal-starts f n acc =
    either-starts (ltb n 10) _ _ (digit-is_digit n)
      (decimal-keeps f (n / 10) _ (digit-is_digit (n % 10)))

-- A name with its number starts with a digit.
pub numbered_name-starts : (n : ℕ) (s : String) → starts_digit (numbered_name n s) ≡ true
unfolding numbered_name
numbered_name-starts n s =
    either-starts (ltb n 10) _ _ refl
      (either-starts (ltb n 100) _ _ refl (decimal-starts 9 n (str_append " " s)))

-- Whoever the user is to be, no name is found to be taken, where the stored names start with a digit
-- and the full name does not.
pub scan_users-taken :
    (fullname : String) (is_brigadier : Bool) (us : List User)
    → starts_digit fullname ≡ false
    → All (λ u. starts_digit u.name ≡ true) us
    → scan_users fullname is_brigadier us ≢ err user_collision
unfolding scan_users
scan_users-taken n br [] f a e = ground arith
scan_users-taken n br (u ∷ us) f a e = scan_users-taken n br us f a.1 (ground (arith, e, differs))
  where
    differs : str_eq u.name n ≡ false
    differs = str_eq-false u.name n (λ p. ground (arith, ap starts_digit p, a.0, f))
