-- ===== src/Storage/Names.antt =====
-- Names of users: "%03d %s" of a number and a full name, and the full name again.
use Prim.Native.Char.{Char, code}
use Prim.Native.String.{◌++◌ as str_append}
use keydesk.Prelude.{ℕ, ◌%◌, ◌&&◌, ◌/◌, ◌==◌, String, if◌then◌else◌, leb, ltb, suc, zero, ◌||◌}

-- The character at a place of a text, the last one behind the end.
unfoldable pub nth_char : String → Char → ℕ → Char
nth_char String.[] last n = last
nth_char (String.◌∷◌ c s) last zero = c
nth_char (String.◌∷◌ c s) last (suc n) = nth_char s last n

unfoldable pub digit : ℕ → Char
unfolding nth_char
digit d = nth_char "012345678" "9" d

-- The decimal digits of a number in front of a text. Ten digits hold every uint32.
unfoldable pub decimal : ℕ → ℕ → String → String
unfolding digit
decimal zero n acc = acc
decimal (suc f) n acc =
    let rest = decimal f (n / 10) (String.◌∷◌ (digit (n % 10)) acc) in
    if ltb n 10 then String.◌∷◌ (digit n) acc else rest

-- `fmt.Sprintf("%03d %s", n, fullname)`
unfoldable pub numbered_name : ℕ → String → String
unfolding decimal
numbered_name n fullname =
    let text = decimal 10 n (str_append " " fullname) in
    if ltb n 10
    then String.◌∷◌ "0" (String.◌∷◌ "0" text)
    else if ltb n 100
    then String.◌∷◌ "0" text
    else text

-- `strings.TrimLeft(s, "0123456789 ")`
unfoldable pub trim_number : String → String
trim_number String.[] = ""
trim_number (String.◌∷◌ c s) =
    let rest = trim_number s in
    if (leb b'0' (code c) && leb (code c) b'9') || code c == b' ' then rest else String.◌∷◌ c s
