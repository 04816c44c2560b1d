-- ===== src/Client/Uptime.antt =====
-- `FormatUptime` of pkg/utils/utils.go.
use kubemox.Base.{Text, arith, bytes, itoa, ℕ, ◌*◌, ◌++◌, ◌+◌, ◌-◌, ◌/◌, ◌<◌, ◌≡◌}

pub record Uptime : Type 0 where
  pub days : ℕ
  pub hours : ℕ
  pub minutes : ℕ
  pub seconds : ℕ

-- The four numbers of `FormatUptime`.
unfoldable pub uptime_parts : ℕ → Uptime
uptime_parts uptime =
    let days = uptime / 86400 in
    let hours = (uptime - days * 86400) / 3600 in
    let minutes = (uptime - days * 86400 - hours * 3600) / 60 in
    record {
      days = days;
      hours = hours;
      minutes = minutes;
      seconds = uptime - days * 86400 - hours * 3600 - minutes * 60;
    }

-- `FormatUptime`
unfoldable pub format_uptime : ℕ → Text
format_uptime uptime =
    let u = uptime_parts uptime in
    itoa u.days
    ++ (bytes "d"
        ++ (itoa u.hours
            ++ (bytes "h" ++ (itoa u.minutes ++ (bytes "m" ++ (itoa u.seconds ++ bytes "s"))))))

-- The parts of an uptime add up to it, and the hours, the minutes and the seconds are less than 24, 60
-- and 60.
pub uptime_parts_lem :
    (uptime : ℕ)
    → ((uptime_parts uptime).days * 86400
          + (uptime_parts uptime).hours * 3600
          + (uptime_parts uptime).minutes * 60
          + (uptime_parts uptime).seconds
        ≡ uptime)
      × ((uptime_parts uptime).hours < 24)
      × ((uptime_parts uptime).minutes < 60)
      × ((uptime_parts uptime).seconds < 60)
unfolding uptime_parts
uptime_parts_lem uptime = omega arith
