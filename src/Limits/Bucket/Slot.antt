-- ===== src/Limits/Bucket/Slot.antt =====
-- One place of a bucket map of src/limits/rate.rs over time: empty, or a bucket that is charged,
-- left alone or swept.
use kohaku.Base.{
  ℕ, zero, suc, ◌+◌, ◌-◌, ◌*◌, ◌≤◌, ◌<◌, max, ◌≡◌, refl, ap, ◌∙◌, Bool, true, false, Option, none,
  some, arith, if◌then◌else◌,
}
use kohaku.Limits.Bucket.{Budget, Bucket, full, admits, take, or_full}

-- What one call does to a place, and whether it takes a token from it.
pub data Move (budget : Budget) (now : ℕ) (o o' : Option Bucket) (charged : Bool) : Type 0 where
  idle : o' ≡ o → charged ≡ false → Move budget now o o' charged
  spend :
      admits (or_full o budget now) now ≡ true
      → o' ≡ some (take (or_full o budget now) now)
      → charged ≡ true
      → Move budget now o o' charged
  drop :
      (b : Bucket)
      → o ≡ some b
      → b.tat ≤ now
      → o' ≡ none
      → charged ≡ false
      → Move budget now o o' charged

abbrev pub tat_of : Option Bucket → ℕ
tat_of none = 0
tat_of (some b) = b.tat

abbrev pub HasBudget : Budget → Option Bucket → Type 0
HasBudget budget none = Unit {0}
HasBudget budget (some b) = b.budget ≡ budget

-- The time at which the place is full again.
abbrev pub level : Option Bucket → ℕ → ℕ
level o now = max (tat_of o) now

-- The moves of a place up to `last`, of which `n` took a token.
pub data Chain (budget : Budget) (last : ℕ) : ℕ → Option Bucket → ℕ → Type 0 where
  done : {now : ℕ} {o : Option Bucket} → Chain budget last now o 0
  next :
      {now now' n m : ℕ} {o o' : Option Bucket} {charged : Bool}
      → now ≤ now'
      → now' ≤ last
      → Move budget now' o o' charged
      → Chain budget last now' o' n
      → m ≡ (if charged then suc n else n)
      → Chain budget last now o m

or_full-budget :
    (budget : Budget) (now : ℕ) (o : Option Bucket)
    → HasBudget budget o
    → (or_full o budget now).budget ≡ budget
unfolding full
or_full-budget budget now none h = refl
or_full-budget budget now (some b) h = h

tolerance_lem : (i c : ℕ) → 0 < c → i * (c - 1) + i ≡ c * i
tolerance_lem i zero h = elim h [ ]
tolerance_lem i (suc c) h = grind arith

take-tat-le :
    (budget : Budget) (now : ℕ) (b : Bucket)
    → b.budget ≡ budget
    → 0 < budget.capacity
    → admits b now ≡ true
    → (take b now).tat ≤ now + budget.capacity * budget.interval
unfolding admits take
take-tat-le budget now b e c a =
    rw (← e) (ground (arith, tolerance_lem b.budget.interval b.budget.capacity (rw e c)))

module _ (budget : Budget) (now : ℕ) where
  pub Move-HasBudget :
      {o o' : Option Bucket} {charged : Bool}
      → Move budget now o o' charged
      → HasBudget budget o
      → HasBudget budget o'
  unfolding take
  Move-HasBudget (idle e f) h = rw e h
  Move-HasBudget {o} (spend a e f) h = rw e (or_full-budget budget now o h)
  Move-HasBudget (drop b p q e f) h = rw e tt

  -- A spent token moves the level by one interval, and leaves it within the capacity.
  level-take :
      (o : Option Bucket)
      → HasBudget budget o
      → 0 < budget.capacity
      → admits (or_full o budget now) now ≡ true
      → let o' = some (take (or_full o budget now) now) in
        (level o' now ≡ level o now + budget.interval)
        × (level o' now ≤ now + budget.capacity * budget.interval)
  unfolding take full
  level-take none h c a =
      (omega arith, omega (arith, take-tat-le budget now (full budget now) refl c a))
  level-take (some b) h c a = (ground (arith, h), omega (arith, take-tat-le budget now b h c a))

-- Along any moves the tokens spent fill the interval from the level at the start to the end of the
-- window, plus one capacity.
pub Chain-bound :
    {budget : Budget} {last now n : ℕ} {o : Option Bucket}
    → HasBudget budget o
    → 0 < budget.capacity
    → Chain budget last now o n
    → n * budget.interval + level o now
      ≤ max (level o now) (last + budget.capacity * budget.interval)
Chain-bound h c done = omega arith
Chain-bound {budget} {last} h c (next {n} {m} le le' (idle e f) rest q) =
    let same : m ≡ n = q ∙ ap (λ b. if b then suc n else n) f in
    rw same (omega (arith, Chain-bound (rw e h) c rest, ap tat_of e))
Chain-bound {budget} {last} h c (next {now'} {n} {m} {o} le le' (spend a e f) rest q) =
    let more : m ≡ suc n = q ∙ ap (λ b. if b then suc n else n) f in
    let (up, bound) = level-take budget now' o h c a in
    let ih = Chain-bound (Move-HasBudget budget now' (spend a e f) h) c rest in
    rw more (omega (arith, ih, up, bound, ap tat_of e))
Chain-bound {budget} {last} h c (next {n} {m} le le' (drop b p old e f) rest q) =
    let same : m ≡ n = q ∙ ap (λ b. if b then suc n else n) f in
    rw same (omega (arith, Chain-bound (rw e tt) c rest, ap tat_of e, ap tat_of p))

-- A place spends at most its capacity plus one token for each interval of the window.
pub Chain-limit :
    {budget : Budget} {last now n : ℕ} {o : Option Bucket}
    → HasBudget budget o
    → 0 < budget.capacity
    → Chain budget last now o n
    → n * budget.interval ≤ last - now + budget.capacity * budget.interval
Chain-limit h c chain = omega (arith, Chain-bound h c chain)
