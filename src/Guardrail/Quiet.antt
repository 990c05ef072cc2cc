-- ===== src/Guardrail/Quiet.antt =====
-- The quiet-hours window of packages/guardrail/src/guardrail.ts (`inQuietHours`), read on a clock.
use ax10m.Common.{ℕ, ◌+◌, ◌-◌, ◌%◌, ◌<◌, ◌≡◌, ltb, arith}
use ax10m.Guardrail.{HourWindow, in_quiet_hours}

-- On a 24-hour clock an hour is quiet exactly when it lies fewer hours after the start of the
-- window than the end does, whether or not the window passes midnight.
pub in_quiet_hours-clock :
    (hour : ℕ) (w : HourWindow)
    → hour < 24
    → w.start < 24
    → w.end < 24
    → in_quiet_hours hour w ≡ ltb ((hour + 24 - w.start) % 24) ((w.end + 24 - w.start) % 24)
unfolding in_quiet_hours
in_quiet_hours-clock hour w h s e = ground arith
