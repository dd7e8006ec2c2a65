-- ===== src/Limits/Rate/Invariant.antt =====
-- The limiter of src/limits/rate.rs stays within its bound, with one bucket for each key.
use kohaku.Base.{
  ℕ, ◌+◌, ◌≤◌, ◌≡◌, refl, Bool, true, false, not, Option, none, some, List, [], ◌∷◌, arith,
  if◌then◌else◌, Bool-cases, inl, inr, length, count, length-keep-le,
}
use kohaku.Base.Assoc.{
  get, insert, contains_key, get-insert, length-insert_new, length-insert_old, Distinct,
}
use kohaku.Base.Assoc.Retain.{Distinct-insert, Distinct-retain}
use kohaku.Limits.Bucket.{Budget, Bucket, full, take}
use kohaku.Limits.Rate.{
  Key, Key-discrete, Overflow-discrete, Demand, Limiter, max_buckets, new, use_overflow, charge,
  charge_key, charge_overflow, settle, sweep,
}
use kohaku.Limits.Rate.Trace.{Call, requests, sweeps, step, run, request_cases}

pub record IsValid (l : Limiter) : Type 0 where
  pub bounded : length l.buckets ≤ max_buckets
  pub distinct : Distinct Key-discrete l.buckets
  pub distinct_overflow : Distinct Overflow-discrete l.overflow

-- The number of keys that the map lacks.
abbrev pub lacking : List (Key × Bucket) → List (Key × Budget) → ℕ
lacking m = count (λ e. not (contains_key Key-discrete e.0 m))

lacking-insert :
    (k : Key) (b : Bucket) (m : List (Key × Bucket)) (keys : List (Key × Budget))
    → lacking (insert Key-discrete k b m) keys ≤ lacking m keys
lacking-insert k b m [] = omega arith
lacking-insert k b m ((j, budget) ∷ rest) =
    ground (arith, lacking-insert k b m rest, get-insert Key-discrete k j b m)

-- One write: the map keeps distinct keys, grows by a missing key at most, and lacks no more.
record Grows (m m' : List (Key × Bucket)) (room : ℕ) : Type 0 where
  size : length m' ≤ length m + room
  distinct : Distinct Key-discrete m → Distinct Key-discrete m'
  lacks : (keys : List (Key × Budget)) → lacking m' keys ≤ lacking m keys

Grows-insert :
    (k : Key) (b : Bucket) (m : List (Key × Bucket))
    → Grows m (insert Key-discrete k b m) (if contains_key Key-discrete k m then 0 else 1)
Grows-insert k b m = record {
  size = ground (arith, length-insert_new Key-discrete k b m, length-insert_old Key-discrete k b m);
  distinct = Distinct-insert Key-discrete k b m;
  lacks = lacking-insert k b m;
}

Grows-charge_key :
    (over : Bool) (now : ℕ) (k : Key) (budget : Budget) (m : List (Key × Bucket))
    (o : Option Bucket)
    → get Key-discrete k m ≡ o
    → Grows m
        (charge_key o over k budget now m)
        (if over then 0 else if contains_key Key-discrete k m then 0 else 1)
unfolding charge_key
Grows-charge_key true now k budget m (some b) e =
    let g = Grows-insert k (take b now) m in
    record { size = ground (arith, g.size, e); distinct = g.distinct; lacks = g.lacks }
Grows-charge_key false now k budget m (some b) e = Grows-insert k (take b now) m
Grows-charge_key true now k budget m none e = record {
  size = omega arith;
  distinct = λ d. d;
  lacks = λ keys. omega arith;
}
Grows-charge_key false now k budget m none e = Grows-insert k (take (full budget now) now) m

-- All writes of a demand, outside the overflow path and on it.
Grows-charge :
    (over : Bool) (now : ℕ) (keys : List (Key × Budget)) (m : List (Key × Bucket))
    → Grows m (charge over now keys m) (if over then 0 else lacking m keys)
unfolding charge
Grows-charge over now [] m = record {
  size = omega arith;
  distinct = λ d. d;
  lacks = λ keys. omega arith;
}
Grows-charge over now ((k, budget) ∷ rest) m =
    let g = Grows-charge_key over now k budget m (get Key-discrete k m) refl in
    let m' = charge_key (get Key-discrete k m) over k budget now m in
    let h = Grows-charge over now rest m' in
    record {
      size = ground (arith, g.size, g.lacks rest, h.size);
      distinct = λ d. h.distinct (g.distinct d);
      lacks = λ keys. omega (arith, g.lacks keys, h.lacks keys);
    }

-- A new limiter is empty.
pub new-IsValid : (start : ℕ) → IsValid (new start)
unfolding new
new-IsValid start = record { bounded = omega arith; distinct = tt; distinct_overflow = tt }

charge_overflow-Distinct :
    (l : Limiter) (d : Demand) (now : ℕ)
    → Distinct Overflow-discrete l.overflow
    → Distinct Overflow-discrete (charge_overflow l d now)
unfolding charge_overflow
charge_overflow-Distinct l d now h = elim (Bool-cases (use_overflow l d)) [
  | inl e ↦ rw e (Distinct-insert Overflow-discrete d.overflow_key _ l.overflow h)
  | inr e ↦ rw e h
]

pub settle-IsValid : (l : Limiter) (d : Demand) (now : ℕ) → IsValid l → IsValid (settle l d now)
unfolding settle use_overflow
settle-IsValid l d now v =
    let g = Grows-charge (use_overflow l d) now d.keys l.buckets in
    record {
      bounded = ground (arith, g.size, v.bounded);
      distinct = g.distinct v.distinct;
      distinct_overflow = charge_overflow-Distinct l d now v.distinct_overflow;
    }

count-length : (p : Key × Budget → Bool) (keys : List (Key × Budget)) → count p keys ≤ length keys
count-length p [] = omega arith
count-length p (k ∷ keys) = ground (arith, count-length p keys)

-- A request adds a bucket for each of its keys at most.
pub length-settle :
    (l : Limiter) (d : Demand) (now : ℕ)
    → length (settle l d now).buckets ≤ length l.buckets + length d.keys
unfolding settle
length-settle l d now =
    let g = Grows-charge (use_overflow l d) now d.keys l.buckets in
    ground (arith, g.size, count-length (λ e. not (contains_key Key-discrete e.0 l.buckets)) d.keys)

-- A request whose keys have room in the map does not use an overflow bucket.
pub room-use_overflow :
    (l : Limiter) (d : Demand)
    → length l.buckets + length d.keys ≤ max_buckets
    → use_overflow l d ≡ false
unfolding use_overflow
room-use_overflow l d h =
    ground (arith, h, count-length (λ e. not (contains_key Key-discrete e.0 l.buckets)) d.keys)

pub length-sweep : (l : Limiter) (instant : ℕ) → length (sweep l instant).buckets ≤ length l.buckets
unfolding sweep
length-sweep l instant = length-keep-le {0} _ l.buckets

pub sweep-IsValid : (l : Limiter) (instant : ℕ) → IsValid l → IsValid (sweep l instant)
unfolding sweep
sweep-IsValid l instant v = record {
  bounded = omega (arith, v.bounded, length-keep-le {0} _ l.buckets);
  distinct = Distinct-retain Key-discrete _ l.buckets v.distinct;
  distinct_overflow = Distinct-retain Overflow-discrete _ l.overflow v.distinct_overflow;
}

pub step-IsValid : (l : Limiter) (c : Call) → IsValid l → IsValid (step l c)
unfolding step
step-IsValid l (requests d instant extra) v =
    request_cases (λ l' _. IsValid l') l d instant extra v (λ _. settle-IsValid l d _ v)
step-IsValid l (sweeps instant) v = sweep-IsValid l instant v

pub run-IsValid : (l : Limiter) (cs : List Call) → IsValid l → IsValid (run l cs)
unfolding run
run-IsValid l [] v = v
run-IsValid l (c ∷ cs) v = run-IsValid (step l c) cs (step-IsValid l c v)

-- Whatever requests and sweeps come, in any order and at any times, a new limiter never holds more
-- than `max_buckets` buckets, and never two buckets for one key.
pub run-new-IsValid : (start : ℕ) (cs : List Call) → IsValid (run (new start) cs)
run-new-IsValid start cs = run-IsValid (new start) cs (new-IsValid start)
