-- ===== src/Time/Days.antt =====
-- The conversion of src/time.rs on the days of an era.
use kohaku.Base.{
  ℕ, ◌+◌, ◌*◌, ◌/◌, ◌%◌, ◌<◌, ◌≤◌, ◌≡◌, ◌⊎◌, inl, inr, refl, subst, sym, Bool-cases, ltb, arith,
}
use kohaku.Time.{date_of, year_of_era, day_of_year, date_since}

-- A day of an era of 400 years that begin in March: its century, four years and year, and the day of
-- that year, which is the 366th only of a year that ends with a 29th of February.
pub record IsDay (c q r d : ℕ) : Type 0 where
  pub centuries : c < 4
  pub fours : q < 25
  pub years : r < 4
  pub days : (d < 365) ⊎ ((d ≡ 365) × (r ≡ 3) × ((q < 24) ⊎ (c ≡ 3)))

abbrev pub of_era : ℕ → ℕ → ℕ → ℕ → ℕ
of_era c q r d = 36524 * c + 1461 * q + 365 * r + d

short-1460 :
    (c q r d : ℕ)
    → c < 4
    → q < 25
    → r < 4
    → d < 365
    → (of_era c q r d / 1460 ≡ 25 * c + q) ⊎ ((of_era c q r d / 1460 ≡ 25 * c + q + 1) × (1 ≤ d))
short-1460 c q r d hc hq hr hd = elim (Bool-cases (ltb (24 * c + q + 365 * r + d) 1460)) [
  | inl t ↦ inl (ground arith)
  | inr f ↦ inr (ground arith, ground arith)
]

short-year :
    (c q r d : ℕ)
    → c < 4
    → q < 25
    → r < 4
    → d < 365
    → year_of_era (of_era c q r d) ≡ 100 * c + 4 * q + r
unfolding year_of_era
short-year c q r d hc hq hr hd =
    let century : of_era c q r d / 36524 ≡ c = omega arith in
    let last : of_era c q r d / 146096 ≡ 0 = omega arith in
    elim (short-1460 c q r d hc hq hr hd) [
      | inl e ↦ rw (century, last, e) (omega arith)
      | inr (e, h) ↦ rw (century, last, e) (omega arith)
    ]

long-year : (c q : ℕ) → c < 4 → q < 24 → year_of_era (of_era c q 3 365) ≡ 100 * c + 4 * q + 3
unfolding year_of_era
long-year c q hc hq =
    let century : of_era c q 3 365 / 36524 ≡ c = omega arith in
    let last : of_era c q 3 365 / 146096 ≡ 0 = omega arith in
    let e : of_era c q 3 365 / 1460 ≡ 25 * c + q + 1 = omega arith in
    rw (century, last, e) (omega arith)

last-year : (q : ℕ) → q < 25 → year_of_era (of_era 3 q 3 365) ≡ 100 * 3 + 4 * q + 3
unfolding year_of_era
last-year q hq = elim (Bool-cases (ltb q 24)) [
  | inl t ↦ long-year 3 q (omega arith) (ground arith)
  | inr f ↦
      let e : 24 ≡ q = ground arith in
      subst (λ n. year_of_era (of_era 3 n 3 365) ≡ 100 * 3 + 4 * n + 3) e refl
]

day-year : (c q r d : ℕ) → IsDay c q r d → year_of_era (of_era c q r d) ≡ 100 * c + 4 * q + r
day-year c q r d s = elim (s.days) [
  | inl short ↦ short-year c q r d s.centuries s.fours s.years short
  | inr (ed, er, inl f) ↦ rw (ed, er) (long-year c q s.centuries f)
  | inr (ed, er, inr ec) ↦ rw (ed, er, ec) (last-year q s.fours)
]

day-day : (c q r d : ℕ) → IsDay c q r d → day_of_year (of_era c q r d) ≡ d
unfolding day_of_year
day-day c q r d s =
    let century : (100 * c + 4 * q + r) / 100 ≡ c = omega (arith, s.fours, s.years) in
    let four : (100 * c + 4 * q + r) / 4 ≡ 25 * c + q = omega (arith, s.years) in
    rw (day-year c q r d s, century, four) (omega arith)

era_bound : (c q r d : ℕ) → IsDay c q r d → of_era c q r d < 146097
era_bound c q r d s = elim (s.days) [
  | inl short ↦ omega (arith, s.centuries, s.fours, s.years)
  | inr (ed, er, inl f) ↦ omega (arith, s.centuries, s.fours, s.years)
  | inr (ed, er, inr ec) ↦ omega (arith, s.centuries, s.fours, s.years)
]

pub day-date :
    (e c q r d : ℕ)
    → IsDay c q r d
    → date_since (146097 * e + of_era c q r d) ≡ date_of e (100 * c + 4 * q + r) d
unfolding date_since
day-date e c q r d s =
    let b = era_bound c q r d s in
    let era : (146097 * e + of_era c q r d) / 146097 ≡ e = omega arith in
    let rest : (146097 * e + of_era c q r d) % 146097 ≡ of_era c q r d = omega arith in
    rw (era, rest, day-year c q r d s, day-day c q r d s) refl

-- Every day of an era has its place.
abbrev pub Place : ℕ → Type 0
Place m = (c : ℕ) × (q : ℕ) × (r : ℕ) × (d : ℕ) × IsDay c q r d × (m ≡ of_era c q r d)

last-IsDay : IsDay 3 24 3 365
last-IsDay = record {
  centuries = omega arith;
  fours = omega arith;
  years = omega arith;
  days = inr (refl, refl, inr refl);
}

Place-in_century : (c t : ℕ) → c < 4 → t < 36524 → Place (36524 * c + t)
Place-in_century c t hc ht =
    let q = t / 1461 in
    let u = t % 1461 in
    elim (Bool-cases (ltb u 1460)) [
      | inl short ↦ (
        c,
        q,
        u / 365,
        u % 365,
        record {
          centuries = hc;
          fours = ground arith;
          years = ground arith;
          days = inl ground arith;
        },
        ground arith,
      )
      | inr long ↦ (
        c,
        q,
        3,
        365,
        record {
          centuries = hc;
          fours = ground arith;
          years = omega arith;
          days = inr (refl, refl, inl ground arith);
        },
        ground arith,
      )
    ]

pub era-Place : (m : ℕ) → m < 146097 → Place m
era-Place m h = elim (Bool-cases (ltb m 146096)) [
  | inl t ↦
      let split : m ≡ 36524 * (m / 36524) + m % 36524 = omega arith in
      subst Place (sym split)
        (Place-in_century (m / 36524) (m % 36524) (ground arith) (omega arith))
  | inr f ↦ (3, 24, 3, 365, last-IsDay, ground arith)
]
