-- ===== src/Messages/Page.antt =====
-- `paginate` of internal/messages/service/service.go. `none` stands for a panic.
pub mod Pages
use keydesk.Prelude.Ints.{ℤ, negsuc, pos}
use keydesk.Prelude.{
  ◌+◌, List, Option, [], ◌^◌, drop, if◌then◌else◌, leb, length, ltb, min, none, some, take, ℕ,
}
use keydesk.Storage.Types.{Message}

-- `messages[lo:hi]`
abbrev pub slice : List Message → ℕ → ℕ → List Message
slice ms lo hi = drop lo (take hi ms)

-- The sum of an offset and a limit wraps to a negative number at 2 ^ 63.
unfoldable pub page_from : List Message → ℕ → ℤ → Option (List Message)
page_from ms o (negsuc k) = none
page_from ms o (pos l) =
    if ltb (o + l) (2 ^ 63) then some (slice ms o (min (o + l) (length ms))) else none

unfoldable pub paginate : List Message → ℤ → ℤ → Option (List Message)
unfolding page_from
paginate ms (negsuc k) limit = none
paginate ms (pos o) limit = if leb (length ms) o then some [] else page_from ms o limit
