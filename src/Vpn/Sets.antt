-- ===== src/Vpn/Sets.antt =====
-- utils/set.go at texts: a set is a list in which no text stands twice. The order in which Go walks a
-- set is not determined; here it is the order in which the elements came.
use keydesk.Prelude.{◌++◌, Bool, List, String, [], any, if◌then◌else◌, keep, not, ◌∷◌}
use text.Mathlib.Text.{◌==◌ as str_eq}

abbrev pub StringSet : Type 0
StringSet = List String

-- `Set.Contains`
unfoldable pub set_contains : StringSet → String → Bool
set_contains s v = any (λ t. str_eq t v) s

set_put : StringSet → String → StringSet
set_put s v = if set_contains s v then s else s ++ v ∷ []

-- `Set.Add`
unfoldable pub set_add : StringSet → List String → StringSet
unfolding set_put
set_add s [] = s
set_add s (v ∷ values) = set_add (set_put s v) values

-- `New`
unfoldable pub new_set : List String → StringSet
new_set values = set_add [] values

-- `Set.Remove`
unfoldable pub set_remove : StringSet → String → StringSet
set_remove s v = keep (λ t. not (str_eq t v)) s

-- `Set.Intersect`, `Set.Union` and `Set.Difference`
unfoldable pub intersect : StringSet → StringSet → StringSet
intersect s s2 = set_add [] (keep (set_contains s2) s)

unfoldable pub union : StringSet → StringSet → StringSet
union s s2 = set_add (set_add [] s) s2

unfoldable pub difference : StringSet → StringSet → StringSet
difference s s2 = set_add [] (keep (λ k. not (set_contains s2 k)) s)
