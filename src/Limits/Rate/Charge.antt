-- ===== src/Limits/Rate/Charge.antt =====
-- What `admit_with` of src/limits/rate.rs does to each key's place in the map.
use kohaku.Base.{ℕ, ◌≡◌, refl, Bool, true, false, Option, none, some, List, [], ◌∷◌, arith, ite}
use kohaku.Base.Assoc.{get, get-insert, Distinct}
use kohaku.Limits.Bucket.{Budget, Bucket, full, take}
use kohaku.Limits.Rate.{Key, Key-discrete, charge, charge_key}

-- The place of a key with the budget that the demand has for it, if any.
unfoldable pub after_charge : Option Budget → Option Bucket → Bool → ℕ → Option Bucket
after_charge none o over now = o
after_charge (some budget) (some b) over now = some (take b now)
after_charge (some budget) none true now = none
after_charge (some budget) none false now = some (take (full budget now) now)

get-charge_key :
    (k key : Key) (over : Bool) (budget : Budget) (now : ℕ) (o : Option Bucket)
    (m : List (Key × Bucket))
    → get Key-discrete key m ≡ o
    → get Key-discrete k (charge_key o over key budget now m)
      ≡ ite (Key-discrete key k) (after_charge (some budget) o over now) (get Key-discrete k m)
unfolding charge_key after_charge
get-charge_key k key over budget now (some b) m e = get-insert Key-discrete key k (take b now) m
get-charge_key k key true budget now none m e = ground (arith, e)
get-charge_key k key false budget now none m e =
    get-insert Key-discrete key k (take (full budget now) now) m

-- The writes of an admitted demand whose keys are distinct: a key of the demand has one token taken
-- from its bucket, or from a full bucket of its budget when it had none and the overflow bucket is
-- not in use; no other key changes.
pub get-charge :
    (k : Key) (over : Bool) (now : ℕ) (keys : List (Key × Budget)) (m : List (Key × Bucket))
    → Distinct Key-discrete keys
    → get Key-discrete k (charge over now keys m)
      ≡ after_charge (get Key-discrete k keys) (get Key-discrete k m) over now
unfolding charge after_charge get
get-charge k over now [] m d = refl
get-charge k over now ((key, budget) ∷ rest) m d =
    rw (get-charge k over now rest _ d.1, get-charge_key k key over budget now _ m refl)
      (ground (arith, d.0))
