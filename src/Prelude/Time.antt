-- ===== src/Prelude/Time.antt =====
-- Times in milliseconds since 1970 as JavaScript prints them in UTC.
use pulse_keeper.Prelude.{
  Text, [], codes, if◌then◌else◌, ltb, suc, zero, ℕ, ◌%◌, ◌*◌, ◌++◌, ◌+◌, ◌-◌, ◌/◌, ◌∷◌,
}

-- A day of the calendar.
pub record CalendarDay : Type 0 where
  pub year : ℕ
  pub month : ℕ
  pub day : ℕ

-- The day with this number since 1970-01-01, by eras of 400 years that begin on the first of March.
unfoldable pub calendar_day : ℕ → CalendarDay
calendar_day days =
    let shifted = days + 719468 in
    let era = shifted / 146097 in
    let of_era = shifted % 146097 in
    let year_of_era = (of_era - of_era / 1460 + of_era / 36524 - of_era / 146096) / 365 in
    let of_year = of_era - (365 * year_of_era + year_of_era / 4 - year_of_era / 100) in
    let shifted_month = (5 * of_year + 2) / 153 in
    record {
      year = year_of_era + era * 400 + (if ltb shifted_month 10 then 0 else 1);
      month = if ltb shifted_month 10 then shifted_month + 3 else shifted_month - 9;
      day = of_year - (153 * shifted_month + 2) / 5 + 1;
    }

-- The last digits of a number, as many as the length of the first argument.
unfoldable pub padded : ℕ → ℕ → Text
padded zero n = []
padded (suc width) n = padded width (n / 10) ++ (b'0' + n % 10) ∷ []

-- `date.toISOString()`, up to the year 9999.
unfoldable pub iso_string : ℕ → Text
unfolding calendar_day padded
iso_string ms =
    let date = calendar_day (ms / 86400000) in
    padded 4 date.year
    ++ codes "-"
    ++ padded 2 date.month
    ++ codes "-"
    ++ padded 2 date.day
    ++ codes "T"
    ++ padded 2 (ms / 3600000 % 24)
    ++ codes ":"
    ++ padded 2 (ms / 60000 % 60)
    ++ codes ":"
    ++ padded 2 (ms / 1000 % 60)
    ++ codes "."
    ++ padded 3 (ms % 1000)
    ++ codes "Z"
