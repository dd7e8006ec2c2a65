-- ===== src/Time/Year.antt =====
-- The days of a year that begins in March (src/time.rs).
use kohaku.Base.{
  ℕ, zero, suc, ◌+◌, ◌*◌, ◌<◌, ◌≡◌, refl, ap, Bool, true, false, ◌&&◌, ◌==◌, ltb, inl, inr,
  Bool-cases, arith,
}
use kohaku.Time.{Date, date_of}
use kohaku.Time.Gregorian.{month_days, next_of}

abbrev pub shift : ℕ → Date → Date
shift years date = record date { year = years + date.year }

pub next_of-shift :
    (leap : Bool) (k : ℕ) (t : Date) → next_of leap (shift k t) ≡ shift k (next_of leap t)
next_of-shift leap k t = elim (Bool-cases (ltb t.day (month_days leap t.month))) [
  | inl e ↦ rw e refl
  | inr e ↦ elim (Bool-cases (ltb t.month 12)) [
    | inl m ↦ rw (e, m) refl
    | inr m ↦ rw (e, m) (ap (λ y. record { year = y; month = 1; day = 1 }) (omega arith))
  ]
]

plus_none :
    (k a m d : ℕ)
    → ◌≡◌ {A = Date}
        (record { year = k + a; month = m; day = d })
        (record { year = k + (0 + a); month = m; day = d })
plus_none k a m d = ap (λ n. record { year = n; month = m; day = d }) (omega arith)

pub date_of-shift : (e y d : ℕ) → date_of e y d ≡ shift (y + e * 400) (date_of 0 0 d)
unfolding date_of
date_of-shift e y d = plus_none (y + e * 400) _ _ _

same_date : Date → Date → Bool
same_date s t = (s.year == t.year) && ((s.month == t.month) && (s.day == t.day))

same_date_lem : (s t : Date) → same_date s t ≡ true → s ≡ t
unfolding same_date
same_date_lem s t h =
    let a : s.year ≡ t.year = ground (arith, h) in
    let b : s.month ≡ t.month = ground (arith, h) in let c : s.day ≡ t.day = ground (arith, h) in cc

all_below : ℕ → (ℕ → Bool) → Bool
all_below zero p = true
all_below (suc n) p = p n && all_below n p

all_below_lem : (n : ℕ) (p : ℕ → Bool) → all_below n p ≡ true → (d : ℕ) → d < n → p d ≡ true
unfolding all_below
all_below_lem zero p h d l = absurd (omega arith)
all_below_lem (suc n) p h d l = elim (Bool-cases (d == n)) [
  | inl e ↦
      let here : d ≡ n = ground arith in let last : p n ≡ true = ground (arith, h) in rw here last
  | inr f ↦ all_below_lem n p (ground (arith, h)) d (ground arith)
]

turns :
    (leap : Bool)
    → all_below 364 (λ d. same_date (date_of 0 0 (d + 1)) (next_of leap (date_of 0 0 d))) ≡ true
unfolding date_of all_below same_date
turns true = refl
turns false = refl

pub inner_day : (leap : Bool) (d : ℕ) → d < 364 → date_of 0 0 (d + 1) ≡ next_of leap (date_of 0 0 d)
inner_day leap d h = same_date_lem _ _ (
    all_below_lem 364 (λ d. same_date (date_of 0 0 (d + 1)) (next_of leap (date_of 0 0 d)))
      (turns leap) d h)

-- The last days of a year that begins in March.
pub last_days :
    (next_of false (date_of 0 0 364) ≡ shift 1 (date_of 0 0 0))
    × (next_of true (date_of 0 0 364) ≡ date_of 0 0 365)
    × (next_of true (date_of 0 0 365) ≡ shift 1 (date_of 0 0 0))
unfolding date_of
last_days = (refl, refl, refl)
