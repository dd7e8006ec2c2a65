-- ===== src/Time/Calendar.antt =====
-- The times of mails (src/time.rs) against the Gregorian calendar.
use kohaku.Base.{
  ◌||◌, ◌==◌, subst, ℕ, zero, suc, ◌+◌, ◌*◌, ◌/◌, ◌%◌, ◌<◌, ◌≡◌, ◌∙◌, refl, sym, ap, Bool, true,
  false, ltb, ◌⊎◌, inl, inr, Bool-cases, arith,
}
use kohaku.Time.{Date, minute_text, date_of, date_since, format_utc_minute}
use kohaku.Time.Days.{IsDay, of_era, era-Place}
use kohaku.Time.Gregorian.{is_leap, next_of, next_date, date_after}
use kohaku.Time.Year.{shift, inner_day, last_days}
use kohaku.Time.Turn.{
  year_at, day-shift, next_shifted, shift-shift, long_year, short_year, century_year,
}

-- The first day of a year that begins in March.
abbrev FirstDay : ℕ → ℕ → Type 0
FirstDay z k =
    (e : ℕ) × (c : ℕ) × (q : ℕ) × (r : ℕ) × IsDay c q r 0
    × (z ≡ 146097 * e + of_era c q r 0)
    × (k ≡ year_at e c q r)

first_day : (z k : ℕ) → FirstDay z k → date_since z ≡ shift k (date_of 0 0 0)
first_day z k (e, c, q, r, s, ez, ek) = rw (ez, ek) (day-shift e c q r 0 s)

is_first : (c q r : ℕ) → c < 4 → q < 25 → r < 4 → IsDay c q r 0
is_first c q r hc hq hr = record {
  centuries = hc;
  fours = hq;
  years = hr;
  days = inl (omega arith);
}

-- The day after the last of a year.
turn :
    (e c q r d : ℕ) (leap : Bool)
    → is_leap (year_at e c q r + 1) ≡ leap
    → (date_of 0 0 d).year ≡ 1
    → next_of leap (date_of 0 0 d) ≡ shift 1 (date_of 0 0 0)
    → FirstDay (146097 * e + of_era c q r d + 1) (year_at e c q r + 1)
    → date_since (146097 * e + of_era c q r d + 1)
      ≡ next_date (shift (year_at e c q r) (date_of 0 0 d))
turn e c q r d leap el ey en first =
    let year : is_leap (year_at e c q r + (date_of 0 0 d).year) ≡ leap = rw ey el in
    first_day _ _ first
    ∙ sym (
        next_shifted (year_at e c q r) (date_of 0 0 d) leap year
        ∙ ap (shift (year_at e c q r)) en
        ∙ shift-shift (year_at e c q r) (date_of 0 0 0))

last_year : (date_of 0 0 364).year ≡ 1
unfolding date_of
last_year = refl

leap_day : (date_of 0 0 365).year ≡ 1
unfolding date_of
leap_day = refl

leap_364 :
    (e c q : ℕ)
    → c < 4
    → q < 25
    → (q < 24) ⊎ (c ≡ 3)
    → date_since (146097 * e + of_era c q 3 364 + 1)
      ≡ next_date (shift (year_at e c q 3) (date_of 0 0 364))
leap_364 e c q hc hq long =
    let year : is_leap (year_at e c q 3 + (date_of 0 0 364).year) ≡ true =
      rw last_year (long_year e c q hc hq long) in
    let day : IsDay c q 3 365 = record {
      centuries = hc;
      fours = hq;
      years = omega arith;
      days = inr (refl, refl, long);
    } in
    let z : 146097 * e + of_era c q 3 364 + 1 ≡ 146097 * e + of_era c q 3 365 = omega arith in
    rw z (day-shift e c q 3 365 day)
    ∙ sym (
        next_shifted (year_at e c q 3) (date_of 0 0 364) true year
        ∙ ap (shift (year_at e c q 3)) last_days.1)

-- The day after the 365th, in a year that may end with a 29th of February, and in any year.
after_364_third :
    (e c q : ℕ)
    → c < 4
    → q < 25
    → date_since (146097 * e + of_era c q 3 364 + 1)
      ≡ next_date (shift (year_at e c q 3) (date_of 0 0 364))
after_364_third e c q hc hq = elim (Bool-cases (ltb q 24 || (c == 3))) [
  | inl t ↦ leap_364 e c q hc hq (ground (arith, t))
  | inr f ↦
      let eq : q ≡ 24 = ground (arith, f) in
      let c3 : c < 3 = ground (arith, f) in
      rw eq (
        turn e c 24 3 364 false (century_year e c c3) last_year last_days.0 (
          e,
          c + 1,
          0,
          0,
          is_first (c + 1) 0 0 (omega arith) (omega arith) (omega arith),
          omega arith,
          omega arith,
        ))
]

after_364 :
    (e c q r : ℕ)
    → c < 4
    → q < 25
    → r < 4
    → date_since (146097 * e + of_era c q r 364 + 1)
      ≡ next_date (shift (year_at e c q r) (date_of 0 0 364))
after_364 e c q r hc hq hr = elim (Bool-cases (ltb r 3)) [
  | inl t ↦
      turn e c q r 364 false (short_year e c q r hq (ground arith)) last_year last_days.0
        (e, c, q, r + 1, is_first c q (r + 1) hc hq (ground arith), omega arith, omega arith)
  | inr f ↦ let er : r ≡ 3 = ground arith in rw er (after_364_third e c q hc hq)
]

-- The day after a 29th of February.
after_365 :
    (e c q : ℕ)
    → c < 4
    → q < 25
    → (q < 24) ⊎ (c ≡ 3)
    → date_since (146097 * e + of_era c q 3 365 + 1)
      ≡ next_date (shift (year_at e c q 3) (date_of 0 0 365))
after_365 e c q hc hq long =
    turn e c q 3 365 true (long_year e c q hc hq long) leap_day last_days.2
      (elim (Bool-cases (ltb q 24)) [
        | inl t ↦ (
          e,
          c,
          q + 1,
          0,
          is_first c (q + 1) 0 hc (ground arith) (omega arith),
          omega arith,
          omega arith,
        )
        | inr f ↦ (
          e + 1,
          0,
          0,
          0,
          is_first 0 0 0 (omega arith) (omega arith) (omega arith),
          ground (arith, long),
          ground (arith, long),
        )
      ])

inner_next :
    (e c q r d : ℕ)
    → IsDay c q r d
    → d < 364
    → date_since (146097 * e + of_era c q r d + 1)
      ≡ next_date (shift (year_at e c q r) (date_of 0 0 d))
inner_next e c q r d s h =
    let day : IsDay c q r (d + 1) = record {
      centuries = s.centuries;
      fours = s.fours;
      years = s.years;
      days = inl (omega arith);
    } in
    let z : 146097 * e + of_era c q r d + 1 ≡ 146097 * e + of_era c q r (d + 1) = omega arith in
    rw z (day-shift e c q r (d + 1) day)
    ∙ sym (
        next_shifted (year_at e c q r) (date_of 0 0 d) _ refl
        ∙ ap (shift (year_at e c q r)) (sym (inner_day _ d h)))

next_day :
    (e c q r d : ℕ)
    → IsDay c q r d
    → date_since (146097 * e + of_era c q r d + 1)
      ≡ next_date (shift (year_at e c q r) (date_of 0 0 d))
next_day e c q r d s = elim (Bool-cases (ltb d 364)) [
  | inl t ↦ inner_next e c q r d s (ground arith)
  | inr f ↦ elim (s.days) [
    | inl short ↦
        let ed : d ≡ 364 = ground arith in rw ed (after_364 e c q r s.centuries s.fours s.years)
    | inr (ed, er, long) ↦ rw (ed, er) (after_365 e c q s.centuries s.fours long)
  ]
]

date_since-next : (z : ℕ) → date_since (z + 1) ≡ next_date (date_since z)
date_since-next z =
    let (c, q, r, d, s, em) = era-Place (z % 146097) (omega arith) in
    let ez : z ≡ 146097 * (z / 146097) + of_era c q r d = omega arith in
    subst (λ z. date_since (z + 1) ≡ next_date (date_since z)) (sym ez)
      (next_day (z / 146097) c q r d s ∙ ap next_date (sym (day-shift (z / 146097) c q r d s)))

since_epoch : (n : ℕ) → date_since (n + 719468) ≡ date_after n
unfolding date_since date_of kohaku.Time.year_of_era kohaku.Time.day_of_year
since_epoch zero = refl
since_epoch (suc n) =
    ap date_since (omega arith) ∙ date_since-next (n + 719468) ∙ ap next_date (since_epoch n)

-- At every second from the epoch on, the time is written with the date that the Gregorian calendar
-- reaches from the first of January 1970 in as many days as have passed, counted one by one with the
-- lengths of its months and its leap years, and with the seconds of that day.
pub format_utc_minute-calendar :
    (unix : ℕ) → format_utc_minute unix ≡ minute_text (date_after (unix / 86400)) (unix % 86400)
unfolding format_utc_minute
format_utc_minute-calendar unix =
    ap (λ d. minute_text d (unix % 86400)) (since_epoch (unix / 86400))
