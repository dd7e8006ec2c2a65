-- ===== src/Time.antt =====
-- src/time.rs: the format of times in mails. Times are seconds since the Unix epoch, from it on.
pub mod Days
pub mod Gregorian
pub mod Year
pub mod Turn
pub mod Calendar
pub mod Tests
use kohaku.Base.{
  ℕ, zero, suc, ◌+◌, ◌-◌, ◌*◌, ◌/◌, ◌%◌, List, [], ◌∷◌, ◌++◌, length, ltb, leb, if◌then◌else◌,
}
use kohaku.Base.Text.{Text, codes}
use kohaku.Config.Decimal.{show}

pub record Date : Type 0 where
  pub year : ℕ
  pub month : ℕ
  pub day : ℕ

abbrev zeros : ℕ → Text
zeros zero = []
zeros (suc n) = b'0' ∷ zeros n

-- `{:04}` and `{:02}`.
abbrev padded : ℕ → ℕ → Text
padded width n = zeros (width - length (show n)) ++ show n

-- The format's text, from the date and the seconds of the day.
abbrev pub minute_text : Date → ℕ → Text
minute_text date seconds =
    padded 4 date.year
    ++ (codes "-"
        ++ (padded 2 date.month
            ++ (codes "-"
                ++ (padded 2 date.day
                    ++ (codes " "
                        ++ (padded 2 (seconds / 3600)
                            ++ (codes ":" ++ (padded 2 (seconds % 3600 / 60) ++ codes " UTC"))))))))

-- From the year of the era and the day of that year, which begins in March.
unfoldable pub date_of : ℕ → ℕ → ℕ → Date
date_of era yoe doy =
    let mp = (5 * doy + 2) / 153 in
    let month = if ltb mp 10 then mp + 3 else mp - 9 in
    record {
      year = yoe + era * 400 + (if leb month 2 then 1 else 0);
      month = month;
      day = doy - (153 * mp + 2) / 5 + 1;
    }

unfoldable pub year_of_era : ℕ → ℕ
year_of_era doe = (doe - doe / 1460 + doe / 36524 - doe / 146096) / 365

unfoldable pub day_of_year : ℕ → ℕ
day_of_year doe = doe - (365 * year_of_era doe + year_of_era doe / 4 - year_of_era doe / 100)

-- Howard Hinnant's conversion, from the days since the first of March of the year 0.
unfoldable pub date_since : ℕ → Date
date_since z = date_of (z / 146097) (year_of_era (z % 146097)) (day_of_year (z % 146097))

unfoldable pub format_utc_minute : ℕ → Text
format_utc_minute unix = minute_text (date_since (unix / 86400 + 719468)) (unix % 86400)
