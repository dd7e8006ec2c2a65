-- ===== src/Time/Gregorian.antt =====
-- The Gregorian calendar, counted from day to day from 1970 on.
use kohaku.Base.{ℕ, zero, suc, ◌+◌, ◌%◌, Bool, not, ◌&&◌, ◌||◌, ◌==◌, ltb, if◌then◌else◌}
use kohaku.Time.{Date}

abbrev pub is_leap : ℕ → Bool
is_leap year = ((year % 4) == 0) && (not ((year % 100) == 0) || ((year % 400) == 0))

abbrev pub month_days : Bool → ℕ → ℕ
month_days leap month =
    if month == 2
    then (if leap then 29 else 28)
    else if (month == 4) || ((month == 6) || ((month == 9) || (month == 11)))
    then 30
    else 31

-- The next day, in a leap year or in another.
abbrev pub next_of : Bool → Date → Date
next_of leap date =
    if ltb date.day (month_days leap date.month)
    then record date { day = date.day + 1 }
    else if ltb date.month 12
    then record date { month = date.month + 1; day = 1 }
    else record { year = date.year + 1; month = 1; day = 1 }

abbrev pub next_date : Date → Date
next_date date = next_of (is_leap date.year) date

-- The date some days after the first of January 1970.
abbrev pub date_after : ℕ → Date
date_after zero = record { year = 1970; month = 1; day = 1 }
date_after (suc days) = next_date (date_after days)
