-- ===== src/Time/Tests.antt =====
-- Times of mails (src/time.rs).
use kohaku.Base.{◌≡◌, refl}
use kohaku.Base.Text.{codes}
use kohaku.Config.Decimal.{show}
use kohaku.Time.{date_since, date_of, year_of_era, day_of_year, format_utc_minute}
use kohaku.Time.Calendar.{format_utc_minute-calendar}

minutes :
    (format_utc_minute 0 ≡ codes "1970-01-01 00:00 UTC")
    × (format_utc_minute 951782400 ≡ codes "2000-02-29 00:00 UTC")
    × (format_utc_minute 1800000000 ≡ codes "2027-01-15 08:00 UTC")
    × (format_utc_minute 4107542399 ≡ codes "2100-02-28 23:59 UTC")
unfolding format_utc_minute date_since date_of year_of_era day_of_year show
minutes = (refl, refl, refl, refl)

format_utc_minute-calendar_example : format_utc_minute 5183999 ≡ codes "1970-03-01 23:59 UTC"
unfolding show
format_utc_minute-calendar_example = format_utc_minute-calendar 5183999
