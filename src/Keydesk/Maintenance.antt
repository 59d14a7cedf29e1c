-- ===== src/Keydesk/Maintenance.antt =====
-- internal/maintenance: whether the files `.maintenance` say that the service is not to be used.
pub mod Latest
use keydesk.Prelude.Texts.{parse_int}
use keydesk.Prelude.{
  ◌*◌, ◌+◌, ◌-◌, Bool, List, Option, String, [], false, if◌then◌else◌, ltb, none, some, true, ℕ,
  ◌∷◌, ◌/◌, ◌^◌,
}
use Prim.Native.String.{◌++◌ as str_append}
use keydesk.Clock.{Time, second, unix_epoch, after, is_zero}

-- What opening a path, scanning its lines, and asking for the time of its change give; `none` is an
-- error.
pub record MaintenanceFile : Type 0 where
  pub lines : Option (List String)
  pub mod_time : Option Time

-- `time.Unix`: seconds since the year 1 in an int64, which wrap around to below 0. A time before the
-- year 1 is no time here, and is never later than now.
unfoldable pub unix : Bool × ℕ → Option Time
unix (false, n) =
    if ltb (n + unix_epoch / second) (2 ^ 63) then some (unix_epoch + n * second) else none
unix (true, n) = if ltb unix_epoch (n * second) then none else some (unix_epoch - n * second)

join_lines : List String → String
join_lines [] = ""
join_lines (l ∷ []) = l
join_lines (l ∷ m ∷ ls) = str_append l (str_append "\n" (join_lines (m ∷ ls)))

-- `readMaintenance`: a first line that is no number leaves the zero time. The outer `none` is a time
-- before the year 1.
unfoldable pub read_maintenance : List String → Option (Time × String)
unfolding join_lines
read_maintenance [] = some (0, "")
read_maintenance (l ∷ ls) = elim (parse_int l) [
  | none ↦ some (0, join_lines ls)
  | some n ↦ elim (unix n) [ none ↦ none | some t ↦ some (t, join_lines ls) ]
]

-- The zero time stands for three hours after the change of the file.
unfoldable pub till_or_default : Option Time → Time → Option Time
till_or_default mod_time till =
    if is_zero till
    then elim mod_time [ none ↦ none | some t ↦ some (t + 10800 * second) ]
    else some till

-- `IsMaintenance`: the time and the message, where there is maintenance at the time `now`
unfoldable pub is_maintenance : Time → Option MaintenanceFile → Option (Time × String)
is_maintenance now none = none
is_maintenance now (some f) = elim f.lines [
  | none ↦ none
  | some ls ↦ elim (read_maintenance ls) [
    | none ↦ none
    | some (t, msg) ↦ elim (till_or_default f.mod_time t) [
      | none ↦ none
      | some till ↦ if after till now then some (till, msg) else none
    ]
  ]
]

-- The result of `CheckInPaths`: whether there is maintenance, till when, and why.
pub record Checked : Type 0 where
  pub found : Bool
  pub till : Time
  pub msg : String

unfoldable pub check_path : Option (Time × String) → Checked → Checked
check_path none c = c
check_path (some (t, m)) c =
    if after t c.till then record { found = true; till = t; msg = m } else c

unfoldable pub check_from : Checked → Time → List (Option MaintenanceFile) → Checked
check_from c now [] = c
check_from c now (f ∷ files) = check_from (check_path (is_maintenance now f) c) now files

-- `CheckInPaths`, the clock read once
unfoldable pub check_in_paths : Time → List (Option MaintenanceFile) → Checked
check_in_paths now files = check_from (record { found = false; till = 0; msg = "" }) now files
