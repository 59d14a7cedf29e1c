-- ===== src/Prelude/Texts.antt =====
-- Texts as their characters: order, decimal numbers and base32.
use Prim.Native.Nat.{ℕ, ◌+◌, ◌-◌, ◌*◌, ◌/◌, ◌%◌, ◌^◌}
use Prim.Native.Char.{code}
use Prim.Native.String.{String}
use mathlib.Core.Bool.{Bool, true, false, ◌&&◌, ◌||◌}
use mathlib.Core.Option.{Option, none, some}
use mathlib.Core.List.{List, [], ◌∷◌, ◌++◌}
use mathlib.Core.Path.{◌≡◌, refl}
use native.Mathlib.Omega.{arith}
use keydesk.Prelude.Tests.{ltb, leb, ◌==◌, if◌then◌else◌}
use keydesk.Prelude.Lists.{keep}

abbrev pub codes : String → List ℕ
codes String.[] = []
codes (String.◌∷◌ c s) = code c ∷ codes s

-- Go's order on strings.
unfoldable pub codes_lt : List ℕ → List ℕ → Bool
codes_lt [] [] = false
codes_lt [] (c ∷ cs) = true
codes_lt (c ∷ cs) [] = false
codes_lt (c ∷ cs) (d ∷ ds) =
    let rest = codes_lt cs ds in if ltb c d then true else if c == d then rest else false

unfoldable pub text_lt : String → String → Bool
unfolding codes_lt
text_lt s t = codes_lt (codes s) (codes t)

pub codes_lt-asym : (s t : List ℕ) → codes_lt s t ≡ true → codes_lt t s ≡ false
unfolding codes_lt
codes_lt-asym [] [] h = refl
codes_lt-asym [] (d ∷ ds) h = refl
codes_lt-asym (c ∷ cs) [] h = ground arith
codes_lt-asym (c ∷ cs) (d ∷ ds) h = ground (arith, codes_lt-asym cs ds)

pub text_lt-asym : (s t : String) → text_lt s t ≡ true → text_lt t s ≡ false
unfolding text_lt
text_lt-asym s t h = codes_lt-asym (codes s) (codes t) h

-- A decimal digit, as `strconv` reads it.
abbrev pub is_digit : ℕ → Bool
is_digit c = leb b'0' c && leb c b'9'

digits_value : ℕ → List ℕ → Option ℕ
digits_value acc [] = some acc
digits_value acc (c ∷ cs) =
    let rest = digits_value (acc * 10 + (c - b'0')) cs in if is_digit c then rest else none

unsigned : List ℕ → Option ℕ
unsigned [] = none
unsigned (c ∷ cs) = digits_value 0 (c ∷ cs)

below : ℕ → Option ℕ → Option ℕ
below bound none = none
below bound (some n) = if ltb n bound then some n else none

-- `strconv.ParseUint(s, 10, 64)`; `none` is an error.
unfoldable pub parse_uint : String → Option ℕ
unfolding digits_value unsigned below
parse_uint s = below (2 ^ 64) (unsigned (codes s))

-- A sign, true for a minus, and a magnitude below a bound.
signed_below : Bool → ℕ → Option ℕ → Option (Bool × ℕ)
signed_below minus bound none = none
signed_below minus bound (some n) = if ltb n bound then some (minus, n) else none

signed : List ℕ → Option (Bool × ℕ)
signed [] = none
signed (c ∷ cs) =
    if c == b'-'
    then signed_below true (2 ^ 63 + 1) (unsigned cs)
    else signed_below false (2 ^ 63) (if c == b'+' then unsigned cs else unsigned (c ∷ cs))

-- `strconv.ParseInt(s, 10, 64)`; `none` is an error.
unfoldable pub parse_int : String → Option (Bool × ℕ)
unfolding digits_value unsigned signed signed_below
parse_int s = signed (codes s)

-- The value of a character of base32, `none` where it has none.
base32_value : ℕ → Option ℕ
base32_value c =
    if leb b'A' c && leb c b'Z'
    then some (c - b'A')
    else if leb b'2' c && leb c b'7'
    then some (c - b'2' + 26)
    else none

base32_values : List ℕ → Option (List ℕ)
base32_values [] = some []
base32_values (c ∷ cs) = elim (base32_value c) [
  | none ↦ none
  | some v ↦ elim (base32_values cs) [ none ↦ none | some vs ↦ some (v ∷ vs) ]
]

-- The whole bytes of a group of at most eight characters.
group_bytes : List ℕ → List ℕ
group_bytes (a ∷ b ∷ c ∷ d ∷ e ∷ f ∷ g ∷ h ∷ _) =
    (a * 8 + b / 4)
    ∷ (b % 4 * 64 + c * 2 + d / 16)
    ∷ (d % 16 * 16 + e / 2)
    ∷ (e % 2 * 128 + f * 4 + g / 8)
    ∷ (g % 8 * 32 + h)
    ∷ []
group_bytes (a ∷ b ∷ c ∷ d ∷ e ∷ f ∷ g ∷ []) =
    (a * 8 + b / 4)
    ∷ (b % 4 * 64 + c * 2 + d / 16)
    ∷ (d % 16 * 16 + e / 2)
    ∷ (e % 2 * 128 + f * 4 + g / 8)
    ∷ []
group_bytes (a ∷ b ∷ c ∷ d ∷ e ∷ []) =
    (a * 8 + b / 4) ∷ (b % 4 * 64 + c * 2 + d / 16) ∷ (d % 16 * 16 + e / 2) ∷ []
group_bytes (a ∷ b ∷ c ∷ d ∷ []) = (a * 8 + b / 4) ∷ (b % 4 * 64 + c * 2 + d / 16) ∷ []
group_bytes (a ∷ b ∷ []) = (a * 8 + b / 4) ∷ []
group_bytes _ = []

groups : List ℕ → List ℕ
groups (a ∷ b ∷ c ∷ d ∷ e ∷ f ∷ g ∷ h ∷ rest) =
    group_bytes (a ∷ b ∷ c ∷ d ∷ e ∷ f ∷ g ∷ h ∷ []) ++ groups rest
groups few = group_bytes few

-- `base32.StdEncoding.WithPadding(base32.NoPadding).DecodeString`: line ends are skipped, and what
-- is left of a last group makes no byte. `none` is an error.
unfoldable pub base32_decode : String → Option (List ℕ)
unfolding base32_value base32_values group_bytes groups
base32_decode s =
    elim (base32_values (keep (λ c. ltb c 10 || (leb 11 c && ltb c 13) || ltb 13 c) (codes s))) [
      | none ↦ none
      | some vs ↦ some (groups vs)
    ]
