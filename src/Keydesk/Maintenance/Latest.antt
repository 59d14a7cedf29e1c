-- ===== src/Keydesk/Maintenance/Latest.antt =====
-- Which of several maintenance files decides, and what an empty file or a zero stand for.
use keydesk.Prelude.{
  ◌<◌, All, Bool-cases, List, Option, String, [], ap, arith, false, inl, inr, none, refl, some, sym,
  true, ◌∙◌, ◌∷◌, ◌≡◌, ◌≤◌, ◌⊎◌, ◌*◌, ◌+◌, Option-cases, subst,
}
use keydesk.Clock.{Time, after}
use keydesk.Keydesk.Maintenance.{
  MaintenanceFile, Checked, unix, read_maintenance, till_or_default, is_maintenance, check_path,
  check_from, check_in_paths,
}
use keydesk.Prelude.Texts.{parse_int}
use keydesk.Clock.{second, unix_epoch}

-- A result is no earlier than the maintenance that a file stands for.
abbrev Within : Checked → Option (Time × String) → Type 0
Within c none = Unit
Within c (some (t, m)) = t ≤ c.till

-- One of the files stands for the maintenance of a result.
abbrev pub Among : Time → List (Option MaintenanceFile) → Checked → Type 0
Among now [] c = ⊥
Among now (f ∷ files) c = (is_maintenance now f ≡ some (c.till, c.msg)) ⊎ Among now files c

abbrev pub IsLatest : Time → List (Option MaintenanceFile) → Checked → Type 0
IsLatest now files c =
    ((c.found ≡ false) × All (λ f. is_maintenance now f ≡ none) files)
    ⊎ ((c.found ≡ true) × Among now files c × All (λ f. Within c (is_maintenance now f)) files)

check_path-Within :
    (m : Option (Time × String)) (c : Checked)
    → (c.till ≤ (check_path m c).till) × Within (check_path m c) m
unfolding check_path
check_path-Within none c = (omega arith, tt)
check_path-Within (some (t, msg)) c = ground arith

check_path-same :
    (m : Option (Time × String)) (c : Checked)
    → (check_path m c ≡ c)
      ⊎ (((check_path m c).found ≡ true) × (m ≡ some ((check_path m c).till, (check_path m c).msg)))
unfolding check_path
check_path-same none c = inl refl
check_path-same (some (t, msg)) c = elim (Bool-cases (after t c.till)) [
  | inl e ↦ rw (check_path, e) (inr (refl, refl))
  | inr e ↦ rw (check_path, e) (inl refl)
]

Within-later :
    (m : Option (Time × String)) (c d : Checked) → c.till ≤ d.till → Within c m → Within d m
Within-later none c d h k = tt
Within-later (some (t, msg)) c d h k = omega (arith, h, k)

-- What the loop over the files comes to from a result so far.
record Comes (now : Time) (c : Checked) (files : List (Option MaintenanceFile)) (r : Checked)
    : Type 0 where
  grows : c.till ≤ r.till
  within : All (λ f. Within r (is_maintenance now f)) files
  either : (r ≡ c) ⊎ ((r.found ≡ true) × Among now files r)

check_from-Comes :
    (now : Time) (c : Checked) (files : List (Option MaintenanceFile))
    → Comes now c files (check_from c now files)
unfolding check_from
check_from-Comes now c [] = record { grows = omega arith; within = tt; either = inl refl }
check_from-Comes now c (f ∷ files) =
    let m = is_maintenance now f in
    let d = check_path m c in
    let (up, in_d) = check_path-Within m c in
    let rest = check_from-Comes now d files in
    record {
      grows = omega (arith, up, rest.grows);
      within = (Within-later m d (check_from d now files) rest.grows in_d, rest.within);
      either = step f (check_from d now files) files rest.either (check_path-same m c);
    }
  where
    step :
        (f : Option MaintenanceFile) (r : Checked) (files : List (Option MaintenanceFile))
        → (r ≡ check_path (is_maintenance now f) c) ⊎ ((r.found ≡ true) × Among now files r)
        → (check_path (is_maintenance now f) c ≡ c)
          ⊎ (((check_path (is_maintenance now f) c).found ≡ true)
              × (is_maintenance now f
                  ≡ some (
                    (check_path (is_maintenance now f) c).till,
                    (check_path (is_maintenance now f) c).msg,
                  )))
        → (r ≡ c) ⊎ ((r.found ≡ true) × Among now (f ∷ files) r)
    step f r files (inr (t, a)) k = inr (t, inr a)
    step f r files (inl e) (inl k) = inl (e ∙ k)
    step f r files (inl e) (inr (t, k)) = inr (
      ap (λ (x : Checked). x.found) e ∙ t,
      inl (k ∙ ap (λ (x : Checked). some (x.till, x.msg)) (sym e)),
    )

-- Maintenance lasts longer than now.
is_maintenance-later :
    (now : Time) (f : Option MaintenanceFile) (t : Time) (msg : String)
    → is_maintenance now f ≡ some (t, msg)
    → now < t
unfolding is_maintenance
is_maintenance-later now f t msg h = ground (arith, h)

no_maintenance :
    (now : Time) (r : Checked) (files : List (Option MaintenanceFile))
    → r.till ≡ 0
    → All (λ f. Within r (is_maintenance now f)) files
    → All (λ f. is_maintenance now f ≡ none) files
no_maintenance now r [] z h = tt
no_maintenance now r (f ∷ files) z (k, h) = (
  elim (Option-cases (is_maintenance now f)) [
    | inl e ↦ e
    | inr ((t, msg), e) ↦
        let early = subst (Within r) e k in
        absurd (omega (arith, is_maintenance-later now f t msg e, early, z))
  ],
  no_maintenance now r files z h,
)

-- The answer is no where none of the files stands for maintenance; else it has the time and the message
-- of one of the files, and none of them stands for maintenance that lasts longer.
pub check_in_paths-IsLatest :
    (now : Time) (files : List (Option MaintenanceFile))
    → IsLatest now files (check_in_paths now files)
unfolding check_in_paths
check_in_paths-IsLatest now files =
    let start : Checked = record { found = false; till = 0; msg = "" } in
    let c = check_from-Comes now start files in
    elim c.either [
      | inl e ↦ inl (
        ap (λ (x : Checked). x.found) e,
        no_maintenance now (check_from start now files) files (ap (λ (x : Checked). x.till) e)
            c.within,
      )
      | inr (t, a) ↦ inr (t, a, c.within)
    ]

zero_number : parse_int "0" ≡ some (false, 0)
unfolding parse_int
zero_number = refl

-- A file that is empty stands for the three hours after its change. A file whose first line is 0 stands
-- for no maintenance at any time after 1970, whenever it was changed.
pub is_maintenance-empty_or_zero :
    (now changed : Time) (ls : List String)
    → unix_epoch ≤ now
    → now < changed + 10800 * second
    → (is_maintenance now (some (record { lines = some []; mod_time = some changed }))
        ≡ some (changed + 10800 * second, ""))
      × (is_maintenance now (some (record { lines = some ("0" ∷ ls); mod_time = some changed }))
          ≡ none)
unfolding is_maintenance read_maintenance till_or_default unix
is_maintenance-empty_or_zero now changed ls h k =
    (ground (arith, h, k), ground (arith, h, k, zero_number))
