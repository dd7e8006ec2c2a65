-- ===== src/Limits/Bucket/Burst.antt =====
-- How one bucket of src/limits/rate.rs answers a burst, and how it refills.
use kohaku.Base.{
  ℕ, zero, suc, ◌+◌, ◌-◌, ◌*◌, ◌≤◌, ◌<◌, min, ◌≡◌, ap, ◌∙◌, dec_lt, ltb, true, false, List, [], ◌∷◌,
  arith, if◌then◌else◌, replicate,
}
use kohaku.Limits.Bucket.{Budget, Bucket, full, admits, take}

-- The bucket after requests at these times, and how many of them it admitted.
unfoldable pub serve : Bucket → List ℕ → Bucket × ℕ
serve b [] = (b, 0)
serve b (now ∷ times) =
    let (b', n) = serve (if admits b now then take b now else b) times in
    (b', if admits b now then suc n else n)

below_tolerance : (i c used : ℕ) → used < c → used * i ≤ i * (c - 1)
below_tolerance i (suc c) used h = grind arith
below_tolerance i zero used h = elim h [ ]

above_tolerance : (i c : ℕ) → 0 < i → 0 < c → i * (c - 1) < c * i
above_tolerance i (suc c) h k = grind arith
above_tolerance i zero h k = elim k [ ]

-- With `used` tokens gone a bucket admits exactly if that is below its capacity.
admits_used :
    (b : Bucket) (now used : ℕ)
    → 0 < b.budget.interval
    → b.tat ≡ now + used * b.budget.interval
    → used ≤ b.budget.capacity
    → 0 < b.budget.capacity
    → admits b now ≡ ltb used b.budget.capacity
unfolding admits
admits_used b now used i t u c = elim (dec_lt used b.budget.capacity) [
  | yes h ↦ ground (arith, below_tolerance b.budget.interval b.budget.capacity used h)
  | no h ↦
      let all_used : used ≡ b.budget.capacity = omega arith in
      let gone : used * b.budget.interval ≡ b.budget.capacity * b.budget.interval =
        ap (λ (k : ℕ). k * b.budget.interval) all_used in
      ground (arith, gone, above_tolerance b.budget.interval b.budget.capacity i c)
]

serve-replicate :
    (n used : ℕ) (b : Bucket) (now : ℕ)
    → 0 < b.budget.interval
    → b.tat ≡ now + used * b.budget.interval
    → used ≤ b.budget.capacity
    → 0 < b.budget.capacity
    → (serve b (replicate n now)).1 ≡ min n (b.budget.capacity - used)
unfolding serve take
serve-replicate zero used b now i t u c = omega arith
serve-replicate (suc n) used b now i t u c = elim (dec_lt used b.budget.capacity) [
  | yes h ↦
      let open_now : admits b now ≡ true = admits_used b now used i t u c ∙ ground arith in
      rw open_now (omega (arith, serve-replicate n (suc used) (take b now) now i (omega arith) h c))
  | no h ↦
      let shut : admits b now ≡ false = admits_used b now used i t u c ∙ ground arith in
      rw shut (omega (arith, serve-replicate n used b now i t u c))
]

-- Of any number of requests at one instant, a full bucket with a positive capacity and interval
-- admits as many as its capacity, or all when they are fewer.
pub serve-burst :
    (budget : Budget) (now n : ℕ)
    → 0 < budget.interval
    → 0 < budget.capacity
    → (serve (full budget now) (replicate n now)).1 ≡ min n budget.capacity
unfolding full
serve-burst budget now n i c =
    serve-replicate n 0 (full budget now) now i (omega arith) (omega arith) c ∙ omega arith
