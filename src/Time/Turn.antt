-- ===== src/Time/Turn.antt =====
-- From one day to the next (src/time.rs).
use kohaku.Base.{ℕ, ◌+◌, ◌*◌, ◌<◌, ◌≡◌, ◌∙◌, ap, Bool, true, false, ◌⊎◌, inl, inr, arith}
use kohaku.Time.{Date, date_of, date_since}
use kohaku.Time.Days.{IsDay, of_era, day-date}
use kohaku.Time.Gregorian.{is_leap, next_of, next_date}
use kohaku.Time.Year.{shift, next_of-shift, date_of-shift}

-- The year of a place that begins in March.
abbrev pub year_at : ℕ → ℕ → ℕ → ℕ → ℕ
year_at e c q r = 100 * c + 4 * q + r + e * 400

pub day-shift :
    (e c q r d : ℕ)
    → IsDay c q r d
    → date_since (146097 * e + of_era c q r d) ≡ shift (year_at e c q r) (date_of 0 0 d)
day-shift e c q r d s = day-date e c q r d s ∙ date_of-shift e _ d

pub next_shifted :
    (k : ℕ) (t : Date) (leap : Bool)
    → is_leap (k + t.year) ≡ leap
    → next_date (shift k t) ≡ shift k (next_of leap t)
next_shifted k t leap e = rw e (next_of-shift leap k t)

pub shift-shift : (k : ℕ) (t : Date) → shift k (shift 1 t) ≡ shift (k + 1) t
shift-shift k t = ap (λ y. record t { year = y }) (omega arith)

pub long_year :
    (e c q : ℕ) → c < 4 → q < 25 → (q < 24) ⊎ (c ≡ 3) → is_leap (year_at e c q 3 + 1) ≡ true
long_year e c q hc hq (inl f) = ground arith
long_year e c q hc hq (inr f) = ground arith

pub short_year : (e c q r : ℕ) → q < 25 → r < 3 → is_leap (year_at e c q r + 1) ≡ false
short_year e c q r hq hr = ground arith

pub century_year : (e c : ℕ) → c < 3 → is_leap (year_at e c 24 3 + 1) ≡ false
century_year e c hc = ground arith
