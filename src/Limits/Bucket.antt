-- ===== src/Limits/Bucket.antt =====
-- `Budget` and `Bucket` of src/limits/rate.rs: a bucket is kept as its theoretical arrival time.
pub mod Slot
pub mod Burst
use kohaku.Base.{ℕ, ◌+◌, ◌-◌, ◌*◌, ◌/◌, max, Bool, Option, none, some, leb, ◌≡◌, true, arith}

-- `capacity` tokens, one regained every `interval`.
pub record Budget : Type 0 where
  pub capacity : ℕ
  pub interval : ℕ

unfoldable pub per : ℕ → ℕ → Budget
per capacity window = record { capacity = capacity; interval = window / capacity }

unfoldable pub times : Budget → ℕ → Budget
times b factor = record { capacity = b.capacity * factor; interval = b.interval / factor }

pub record Bucket : Type 0 where
  pub budget : Budget
  pub tat : ℕ

unfoldable pub full : Budget → ℕ → Bucket
full budget now = record { budget = budget; tat = now }

unfoldable pub admits : Bucket → ℕ → Bool
admits b now =
    let tolerance = b.budget.interval * (b.budget.capacity - 1) in leb b.tat (now + tolerance)

unfoldable pub take : Bucket → ℕ → Bucket
take b now = record b { tat = max b.tat now + b.budget.interval }

unfoldable pub is_full : Bucket → ℕ → Bool
is_full b now = leb b.tat now

-- A bucket that is there, or else a full one.
abbrev pub or_full : Option Bucket → Budget → ℕ → Bucket
or_full (some bucket) budget now = bucket
or_full none budget now = full budget now

-- A full bucket admits, whatever its budget.
pub full-admits : (budget : Budget) (now : ℕ) → admits (full budget now) now ≡ true
unfolding admits full
full-admits budget now = ground arith
