-- ===== src/Cli/Age.antt =====
-- `formatAge` of cmd/cli/helpers.go, on times in milliseconds.
pub mod Reading
use kubecopilot_core.Common.{ℕ, ◌-◌, ◌*◌, ◌/◌, String, ltb, ◌=?◌, if◌then◌else◌}
use kubecopilot_core.Common.Text.{◌<>◌, decimal}

-- time.Second, time.Minute, time.Hour and a day
abbrev pub second : ℕ
second = 1000

abbrev pub minute : ℕ
minute = 60 * second

abbrev pub hour : ℕ
hour = 60 * minute

abbrev pub day : ℕ
day = 24 * hour

-- A time in the future is a negative duration, of which `int` drops the fraction.
abbrev pub seconds_ahead : ℕ → String
seconds_ahead n = if n =? 0 then "0s" else "-" <> decimal n <> "s"

-- `time.Since(t)` at the time `now`
unfoldable pub format_age : ℕ → ℕ → String
format_age now t =
    let d = now - t in
    if ltb now t
    then seconds_ahead ((t - now) / second)
    else if ltb d minute
    then decimal (d / second) <> "s"
    else if ltb d hour
    then decimal (d / minute) <> "m"
    else if ltb d day
    then decimal (d / hour) <> "h"
    else decimal (d / day) <> "d"
