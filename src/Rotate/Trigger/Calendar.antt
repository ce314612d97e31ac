-- ===== src/Rotate/Trigger/Calendar.antt =====
-- The intervals of file/trigger.go against the calendar.
use elastic_agent_libs.Prelude.{false, ◌≡◌, ◌↔◌, arith}
use elastic_agent_libs.Rotate.Trigger.{
  Time, new_year, new_month, new_day, new_hour, new_minute, new_second,
}

-- Two times of the same second of the same minute, up to the year.
abbrev pub SameSecond : Time → Time → Type 0
SameSecond a b =
    (a.second ≡ b.second)
    × (a.minute ≡ b.minute)
    × (a.hour ≡ b.hour)
    × (a.day ≡ b.day)
    × (a.month ≡ b.month)
    × (a.year ≡ b.year)

-- The trigger of a second lets two times pass exactly where they agree from the second up to the
-- year, so that it tells times of different minutes with the same second apart.
pub new_second-SameSecond : (a b : Time) → (new_second a b ≡ false) ↔ SameSecond a b
unfolding new_second new_minute new_hour new_day new_month new_year
new_second-SameSecond a b = ground arith
