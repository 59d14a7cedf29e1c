-- ===== src/Kdlib/Blur.antt =====
-- kdlib/blur.go: the number in front of a user's name, made of the user's address.
use Prim.Native.Nat.{bit_and, bit_xor}
use native.Mathlib.Nat.{div-add-mod'}
use mathlib.Core.Path.{ap₂}
use keydesk.Prelude.{
  ℕ, ◌%◌, ◌*◌, ◌+◌, ◌-◌, ◌/◌, List, String, [], ◌^◌, if◌then◌else◌, length, ltb, none, some, suc,
  sym, zero, ◌∙◌, ◌∷◌, ◌≡◌, ◌≢◌,
}
use keydesk.Prelude.Texts.{base32_decode}
use keydesk.Prelude.Bits.{bit_and-mask, bit_xor-cancel}

-- `b[i]` where the list is known to be long enough
byte_at : List ℕ → ℕ → ℕ
byte_at [] i = 0
byte_at (b ∷ bs) zero = b
byte_at (b ∷ bs) (suc i) = byte_at bs i

salt_of : List ℕ → ℕ
salt_of b =
    let b0 = byte_at b 0 in
    let b1 = byte_at b 1 in
    byte_at b (b0 % 16) * 2 ^ 24
    + byte_at b (b0 / 16) * 2 ^ 16
    + byte_at b (b1 % 16) * 2 ^ 8
    + byte_at b (b1 / 16)

-- `ExtractUint32Salt`: 0 for a text that is not base32 or is short.
unfoldable pub extract_uint32_salt : String → ℕ
unfolding byte_at salt_of
extract_uint32_salt s = elim (base32_decode s) [
  | none ↦ 0
  | some b ↦ if ltb (length b) 16 then 0 else salt_of b
]

-- `BlurIpv4Addr`, for an address of four bytes
unfoldable pub blur_ipv4_addr : ℕ → ℕ → ℕ → ℕ
blur_ipv4_addr ip cidr salt = bit_and (bit_xor ip salt) (2 ^ (32 - cidr) - 1)

blur_ipv4_addr-injective :
    (a b cidr salt : ℕ)
    → a / 2 ^ (32 - cidr) ≡ b / 2 ^ (32 - cidr)
    → blur_ipv4_addr a cidr salt ≡ blur_ipv4_addr b cidr salt
    → a ≡ b
unfolding blur_ipv4_addr
blur_ipv4_addr-injective a b cidr salt same e =
    let k = 32 - cidr in
    let low =
      bit_xor-cancel k a b salt
        (sym (bit_and-mask k (bit_xor a salt)) ∙ e ∙ bit_and-mask k (bit_xor b salt)) in
    sym (div-add-mod' a (2 ^ k))
    ∙ ap₂ (λ (q r : ℕ). q * 2 ^ k + r) same low
    ∙ div-add-mod' b (2 ^ k)

-- Different addresses of one prefix are blurred to different numbers, whatever the salt is.
pub blur_ipv4_addr-differs :
    (a b cidr salt : ℕ)
    → a / 2 ^ (32 - cidr) ≡ b / 2 ^ (32 - cidr)
    → a ≢ b
    → blur_ipv4_addr a cidr salt ≢ blur_ipv4_addr b cidr salt
blur_ipv4_addr-differs a b cidr salt same differ e =
    differ (blur_ipv4_addr-injective a b cidr salt same e)
