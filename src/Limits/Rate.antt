-- ===== src/Limits/Rate.antt =====
-- src/limits/rate.rs: the classes, the demand of a request and the limiter. Durations are whole
-- nanoseconds; `Limiter` and its lock are one state that each call takes and returns.
pub mod Charge
pub mod Trace
pub mod Invariant
pub mod Moves
pub mod Window
pub mod Sweep
pub mod Answers
use kohaku.Base.{
  ℕ, ◌+◌, ◌-◌, ◌*◌, Bool, true, false, not, ◌&&◌, ◌||◌, Option, none, some, List, [], ◌∷◌,
  ℕ_discrete, ltb, if◌then◌else◌, length, count, all, is_none_or,
}
use kohaku.Base.Assoc.{get, insert, contains_key, retain}
use kohaku.Limits.Address.{IpAddr, Prefix, prefixes, mail_source}
use kohaku.Limits.Bucket.{Budget, per, times, Bucket, full, admits, take, is_full, or_full}

-- Buckets held at most.
abbrev pub max_buckets : ℕ
max_buckets = 100000

abbrev pub second : ℕ
second = 1000000000

pub data RateClass : Type 0 where
  read login reset : RateClass

-- The methods of `axum::http::Method` that the source tells apart.
pub data Method : Type 0 where
  method_get method_head method_post method_other : Method

abbrev pub is_get_or_head : Method → Bool
is_get_or_head method_get = true
is_get_or_head method_head = true
is_get_or_head method_post = false
is_get_or_head method_other = false

abbrev pub is_post : Method → Bool
is_post method_post = true
is_post method_get = false
is_post method_head = false
is_post method_other = false

unfoldable pub applies_to : RateClass → Method → Bool
applies_to read method = is_get_or_head method
applies_to login method = is_post method
applies_to reset method = is_post method

unfoldable pub class_budget : RateClass → Budget
unfolding per
class_budget read = per 300 (60 * second)
class_budget login = per 10 (15 * 60 * second)
class_budget reset = per 5 (60 * 60 * second)

abbrev pub aggregate_factor : ℕ
aggregate_factor = 8

-- A mail address bucket is keyed by the 32 bytes of the address's MAC.
pub data Key : Type 0 where
  class_key : RateClass → Prefix → Key
  mail_source_key : Prefix → Key
  mail_address_key : List ℕ → Key

pub data Overflow : Type 0 where
  class_overflow : RateClass → Overflow
  mail_source_overflow mail_address_overflow : Overflow

unfoldable pub Key-discrete : Discrete Key
Key-discrete = hlevel ℕ_discrete

unfoldable pub Overflow-discrete : Discrete Overflow
Overflow-discrete = hlevel

pub record Demand : Type 0 where
  pub keys : List (Key × Budget)
  pub overflow_key : Overflow
  pub overflow_budget : Budget

aggregate_keys : RateClass → Budget → Option Prefix → List (Key × Budget)
unfolding times
aggregate_keys class budget none = []
aggregate_keys class budget (some slash48) =
    (class_key class slash48, times budget aggregate_factor) ∷ []

unfoldable pub class_demand : RateClass → IpAddr → Demand
unfolding class_budget prefixes aggregate_keys
class_demand class address =
    let budget = class_budget class in
    let (own, aggregate) = prefixes address in
    record {
      keys = (class_key class own, budget) ∷ aggregate_keys class budget aggregate;
      overflow_key = class_overflow class;
      overflow_budget = budget;
    }

unfoldable pub mail_address_demand : List ℕ → Budget → Demand
mail_address_demand key budget = record {
  keys = (mail_address_key key, budget) ∷ [];
  overflow_key = mail_address_overflow;
  overflow_budget = budget;
}

unfoldable pub mail_source_demand : IpAddr → Budget → Demand
unfolding mail_source
mail_source_demand address budget = record {
  keys = (mail_source_key (mail_source address), budget) ∷ [];
  overflow_key = mail_source_overflow;
  overflow_budget = budget;
}

-- `Limiter`: its start, and the maps behind the lock.
pub record Limiter : Type 0 where
  pub start : ℕ
  pub buckets : List (Key × Bucket)
  pub overflow : List (Overflow × Bucket)

unfoldable pub new : ℕ → Limiter
new start = record { start = start; buckets = []; overflow = [] }

-- Saturating, as `saturating_duration_since`.
unfoldable pub elapsed : Limiter → ℕ → ℕ
elapsed l now = now - l.start

abbrev pub missing : Limiter → Demand → ℕ
missing l d = count (λ e. not (contains_key Key-discrete e.0 l.buckets)) d.keys

unfoldable pub use_overflow : Limiter → Demand → Bool
use_overflow l d = ltb 0 (missing l d) && ltb max_buckets (length l.buckets + missing l d)

-- The test of one key in `admit_with`.
pub key_admits : Option Bucket → Bool → Budget → ℕ → Bool
unfolding admits full
key_admits (some bucket) over budget now = admits bucket now
key_admits none true budget now = true
key_admits none false budget now = admits (full budget now) now

pub keys_admit : Limiter → Demand → ℕ → Bool
unfolding key_admits
keys_admit l d now =
    all (λ e. key_admits (get Key-discrete e.0 l.buckets) (use_overflow l d) e.1 now) d.keys

pub overflow_admits : Limiter → Demand → ℕ → Bool
unfolding admits
overflow_admits l d now =
    not (use_overflow l d)
    || is_none_or (get Overflow-discrete d.overflow_key l.overflow) (λ b. admits b now)

-- The write of one key in `admit_with`.
pub charge_key : Option Bucket → Bool → Key → Budget → ℕ → List (Key × Bucket) → List (Key × Bucket)
unfolding take full
charge_key (some bucket) over key budget now m = insert Key-discrete key (take bucket now) m
charge_key none true key budget now m = m
charge_key none false key budget now m = insert Key-discrete key (take (full budget now) now) m

pub charge : Bool → ℕ → List (Key × Budget) → List (Key × Bucket) → List (Key × Bucket)
unfolding charge_key
charge over now [] m = m
charge over now ((key, budget) ∷ rest) m =
    charge over now rest (charge_key (get Key-discrete key m) over key budget now m)

pub charge_overflow : Limiter → Demand → ℕ → List (Overflow × Bucket)
unfolding take full
charge_overflow l d now =
    if use_overflow l d
    then insert Overflow-discrete d.overflow_key
        (take (or_full (get Overflow-discrete d.overflow_key l.overflow) d.overflow_budget now) now)
        l.overflow
    else l.overflow

-- `admitted` in `admit_with`, but for the extra bucket.
pub admitted : Limiter → Demand → ℕ → Bool
admitted l d now = keys_admit l d now && overflow_admits l d now

-- The writes of an admitted request.
pub settle : Limiter → Demand → ℕ → Limiter
settle l d now = record l {
  buckets = charge (use_overflow l d) now d.keys l.buckets;
  overflow = charge_overflow l d now;
}

-- `admit_with`: the extra bucket's state is `S`, its test and its write are arguments.
unfoldable pub admit_with {ℓ} :
    {S : Type ℓ} → (ℕ → S → Bool) → (ℕ → S → S) → Limiter → S → Demand → ℕ → Limiter × S × Bool
admit_with extra_admits extra_take l s d instant =
    let now = elapsed l instant in
    if admitted l d now && extra_admits now s
    then (settle l d now, extra_take now s, true)
    else (l, s, false)

unfoldable pub admit : Limiter → Demand → ℕ → Limiter × Bool
unfolding admit_with
admit l d instant =
    let (l', _, admitted) = admit_with (λ _ _. true) (λ _ s. s) l (tt {0}) d instant in
    (l', admitted)

unfoldable pub sweep : Limiter → ℕ → Limiter
unfolding elapsed is_full
sweep l instant =
    let now = elapsed l instant in
    record l {
      buckets = retain Key-discrete (λ b. not (is_full b now)) l.buckets;
      overflow = retain Overflow-discrete (λ b. not (is_full b now)) l.overflow;
    }

pub len : Limiter → ℕ
len l = length l.buckets
