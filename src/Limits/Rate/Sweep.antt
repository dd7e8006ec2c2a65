-- ===== src/Limits/Rate/Sweep.antt =====
-- One call of src/limits/rate.rs in two limiters, of which the second has dropped full buckets.
use kohaku.Base.{
  ℕ, ite, some_inj, ◌-◌, ◌≤◌, ◌≡◌, refl, ap, ap₂, sym, ◌⊎◌, ◌∙◌, true, false, not, ◌&&◌, Option,
  none, some, List, [], ◌∷◌, arith, Bool-cases, inl, inr, all, All, is_some_and,
}
use kohaku.Base.Assoc.{get, Distinct}
use kohaku.Base.Assoc.Retain.{get-retain, keep_some}
use kohaku.Limits.Bucket.{Budget, Bucket, admits, is_full, take, full, full-admits}
use kohaku.Limits.Rate.{
  Key, Key-discrete, Demand, Limiter, use_overflow, key_admits, keys_admit, overflow_admits,
  admitted, settle, elapsed, sweep,
}
use kohaku.Limits.Rate.Charge.{after_charge, get-charge}
use kohaku.Limits.Rate.Invariant.{IsValid, settle-IsValid, sweep-IsValid}
use kohaku.Limits.Rate.Trace.{Call, requests, sweeps}

-- A key's place holds no bucket of another budget.
abbrev pub Fits : Budget → Option Bucket → Type 0
Fits own none = Unit
Fits own (some b) = b.budget ≡ own

-- The places of a key without and with sweeps: the same, or emptied once its bucket was full.
abbrev pub Alike : Budget → ℕ → Option Bucket → Option Bucket → Type 0
Alike own now o o' =
    Fits own o × ((o' ≡ o) ⊎ ((o' ≡ none) × (is_some_and o (λ b. is_full b now) ≡ true)))

Alike-later :
    (own : Budget) (now later : ℕ) (o o' : Option Bucket)
    → now ≤ later
    → Alike own now o o'
    → Alike own later o o'
unfolding is_full
Alike-later own now later none o' h (f, inl e) = (f, inl e)
Alike-later own now later none o' h (f, inr e) = (f, inl e.0)
Alike-later own now later (some b) o' h (f, inl e) = (f, inl e)
Alike-later own now later (some b) o' h (f, inr e) = (f, inr (e.0, ground (arith, h, e.1)))

Alike-sweep :
    (own : Budget) (now : ℕ) (o o' : Option Bucket)
    → Alike own now o o'
    → Alike own now o (keep_some (λ b. not (is_full b now)) o')
Alike-sweep own now o none (f, e) = (f, e)
Alike-sweep own now o (some b) (f, inr e) = absurd (ground (arith, e.0))
Alike-sweep own now o (some b) (f, inl e) = elim (Bool-cases (is_full b now)) [
  | inl t ↦ (f, inr (rw t refl, rw (← e) t))
  | inr n ↦ (f, inl (rw n e))
]

Alike-admits :
    (own : Budget) (now : ℕ) (o o' : Option Bucket)
    → Alike own now o o'
    → key_admits o false own now ≡ key_admits o' false own now
unfolding key_admits is_full admits
Alike-admits own now o o' (f, inl e) = rw e refl
Alike-admits own now none o' (f, inr e) = rw e.0 refl
Alike-admits own now (some b) o' (f, inr e) = rw e.0 (ground (arith, e.1, full-admits own now))

-- A token taken from a full bucket leaves what one taken from a new bucket leaves.
full-take :
    (own : Budget) (now : ℕ) (b : Bucket)
    → b.budget ≡ own
    → is_full b now ≡ true
    → take b now ≡ take (full own now) now
unfolding take full is_full
full-take own now b f e = ground (arith, f, e)

Alike-charge :
    (own : Budget) (now : ℕ) (offer : Option Budget) (o o' : Option Bucket)
    → ((b : Budget) → offer ≡ some b → b ≡ own)
    → Alike own now o o'
    → Alike own now (after_charge offer o false now) (after_charge offer o' false now)
unfolding after_charge take full
Alike-charge own now none o o' offered a = a
Alike-charge own now (some b) none o' offered (f, inl e) = rw e (offered b refl, inl refl)
Alike-charge own now (some b) none o' offered (f, inr e) = rw e.0 (offered b refl, inl refl)
Alike-charge own now (some b) (some c) o' offered (f, inl e) = rw e (f, inl refl)
Alike-charge own now (some b) (some c) o' offered (f, inr e) =
    rw e.0 (f, inl (ap some (sym (full-take b now c (f ∙ sym (offered b refl)) e.1))))

module _ (own : Key → Budget) where
  -- The demand offers each key its own budget.
  abbrev pub Owned : Demand → Type 0
  Owned d = All (λ e. e.1 ≡ own e.0) d.keys

  abbrev pub IsOwned : Call → Type 0
  IsOwned (requests d instant extra) = Owned d × Distinct Key-discrete d.keys
  IsOwned (sweeps instant) = Unit

  -- Two limiters whose places agree but for full buckets that the second has dropped.
  pub record Follows (l l' : Limiter) (now : ℕ) : Type 0 where
    pub clock : l'.start ≡ l.start
    pub valid : IsValid l
    pub valid' : IsValid l'
    pub places :
        (k : Key) → Alike (own k) now (get Key-discrete k l.buckets) (get Key-discrete k l'.buckets)

  pub get-Owned :
      (keys : List (Key × Budget)) (k : Key) (b : Budget)
      → All (λ e. e.1 ≡ own e.0) keys
      → get Key-discrete k keys ≡ some b
      → b ≡ own k
  unfolding get
  get-Owned [] k b a e = absurd (ground (arith, e))
  get-Owned ((j, c) ∷ keys) k b a e =
      elim (Key-discrete j k)
          as (λ t. ite t (some c) (get Key-discrete k keys) ≡ some b → b ≡ own k) [
            | yes same ↦ λ e. sym (some_inj e) ∙ a.0 ∙ ap own same
            | no other ↦ λ e. get-Owned keys k b a.1 e
          ]
        e

  all-Alike :
      (now : ℕ) (m m' : List (Key × Bucket)) (keys : List (Key × Budget))
      → ((k : Key) → Alike (own k) now (get Key-discrete k m) (get Key-discrete k m'))
      → All (λ e. e.1 ≡ own e.0) keys
      → all (λ e. key_admits (get Key-discrete e.0 m) false e.1 now) keys
        ≡ all (λ e. key_admits (get Key-discrete e.0 m') false e.1 now) keys
  all-Alike now m m' [] h a = refl
  all-Alike now m m' ((k, b) ∷ keys) h a =
      ap₂ ◌&&◌
        (rw a.0 (Alike-admits (own k) now (get Key-discrete k m) (get Key-discrete k m') (h k)))
        (all-Alike now m m' keys h a.1)

  -- Both answer a request that has room in both the same.
  pub Follows-admitted :
      (l l' : Limiter) (now : ℕ) (d : Demand)
      → Follows l l' now
      → Owned d
      → use_overflow l d ≡ false
      → use_overflow l' d ≡ false
      → admitted l d now ≡ admitted l' d now
  unfolding admitted keys_admit overflow_admits
  Follows-admitted l l' now d f a o o' =
      rw (o, o') (ap (λ b. b && true) (all-Alike now l.buckets l'.buckets d.keys f.places a))

  pub Follows-settle :
      (l l' : Limiter) (now : ℕ) (d : Demand)
      → Follows l l' now
      → Owned d
      → Distinct Key-discrete d.keys
      → use_overflow l d ≡ false
      → use_overflow l' d ≡ false
      → Follows (settle l d now) (settle l' d now) now
  unfolding settle
  Follows-settle l l' now d f a distinct o o' = record {
    clock = f.clock;
    valid = settle-IsValid l d now f.valid;
    valid' = settle-IsValid l' d now f.valid';
    places = λ k.
        rw
          (
            o,
            o',
            get-charge k false now d.keys l.buckets distinct,
            get-charge k false now d.keys l'.buckets distinct,
          )
          (Alike-charge (own k) now (get Key-discrete k d.keys) (get Key-discrete k l.buckets)
            (get Key-discrete k l'.buckets) (λ b e. get-Owned d.keys k b a e) (f.places k));
  }

  -- A bucket that was full stays full.
  pub Follows-later :
      (l l' : Limiter) (now later : ℕ) → now ≤ later → Follows l l' now → Follows l l' later
  Follows-later l l' now later h f = record {
    clock = f.clock;
    valid = f.valid;
    valid' = f.valid';
    places = λ k. Alike-later (own k) now later _ _ h (f.places k);
  }

  pub Follows-sweep :
      (l l' : Limiter) (instant : ℕ)
      → Follows l l' (elapsed l instant)
      → Follows l (sweep l' instant) (elapsed l instant)
  unfolding sweep elapsed
  Follows-sweep l l' instant f = record {
    clock = f.clock;
    valid = f.valid;
    valid' = sweep-IsValid l' instant f.valid';
    places = λ k.
        rw
          (
            f.clock,
            get-retain Key-discrete (λ b. not (is_full b (instant - l.start))) k l'.buckets
                f.valid'.distinct,
          )
          (Alike-sweep (own k) (instant - l.start) (get Key-discrete k l.buckets)
            (get Key-discrete k l'.buckets) (f.places k));
  }
