-- ===== src/Kdlib.antt =====
-- kdlib: when a monthly quota is reset (date.go), and below it addresses and how they are blurred.
use keydesk.Prelude.{ℕ, ◌+◌, ◌==◌, if◌then◌else◌}
use keydesk.Clock.{Time, date, midnight}
pub mod Reset
pub mod Net
pub mod Blur

-- `time.Date(now.Year(), now.Month()+1, 1, 0, 0, 0, 0, time.UTC)`: month 13 is the next January.
unfoldable pub next_monthly_reset_on : Time → Time
next_monthly_reset_on now =
    let today = date now in
    if today.month == 12
    then midnight (today.year + 1) 1 1
    else midnight today.year (today.month + 1) 1
