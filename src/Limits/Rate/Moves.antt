-- ===== src/Limits/Rate/Moves.antt =====
-- What a call of the limiter of src/limits/rate.rs does to one place of its two maps.
use kohaku.Base.{
  ℕ, ◌≤◌, ◌≡◌, refl, subst, if_pos, Bool, true, false, not, ◌&&◌, ◌||◌, Option, none, some, List,
  [], ◌∷◌, arith, is_some, Bool-cases, inl, inr, all, leb→le, is_none_or,
}
use kohaku.Base.Assoc.{get, contains_key, Distinct, get-insert}
use kohaku.Base.Assoc.Retain.{get-retain, keep_some}
use kohaku.Limits.Bucket.{full-admits, Budget, Bucket, admits, take, is_full, or_full}
use kohaku.Limits.Bucket.Slot.{Move, idle, spend, drop}
use kohaku.Limits.Rate.{
  Key, Key-discrete, Overflow, Overflow-discrete, Demand, Limiter, use_overflow, key_admits,
  keys_admit, overflow_admits, admitted, settle, charge_overflow, elapsed, sweep,
}
use kohaku.Limits.Rate.Charge.{after_charge, get-charge}
use kohaku.Limits.Rate.Invariant.{IsValid}
use kohaku.Limits.Rate.Trace.{
  Call, requests, sweeps, time, request_cases, step, IsProper, charges_key, charges_overflow,
  is_kind, Ordered,
}

keys_admit-get :
    (k : Key) (budget : Budget) (over : Bool) (now : ℕ) (m : List (Key × Bucket))
    (keys : List (Key × Budget))
    → all (λ e. key_admits (get Key-discrete e.0 m) over e.1 now) keys ≡ true
    → get Key-discrete k keys ≡ some budget
    → key_admits (get Key-discrete k m) over budget now ≡ true
unfolding get
keys_admit-get k budget over now m [] a e = cc
keys_admit-get k budget over now m ((j, b) ∷ rest) a e =
    ground (arith, keys_admit-get k budget over now m rest)

place-Move :
    (budget : Budget) (now : ℕ) (offer : Option Budget) (o : Option Bucket) (over : Bool)
    → ((b : Budget) → offer ≡ some b → b ≡ budget)
    → ((b : Budget) → offer ≡ some b → key_admits o over b now ≡ true)
    → Move budget now o (after_charge offer o over now) (is_some offer && (is_some o || not over))
unfolding after_charge key_admits
place-Move budget now none o over fits ok = idle refl refl
place-Move budget now (some b) (some c) over fits ok = spend (ok b refl) refl refl
place-Move budget now (some b) none true fits ok = idle refl refl
place-Move budget now (some b) none false fits ok =
    spend (rw (← fits b refl) (ok b refl)) (rw (← fits b refl)) refl

-- A swept place is empty only if its bucket was full.
sweep-Move :
    (budget : Budget) (now : ℕ) (o : Option Bucket)
    → Move budget now o (keep_some (λ b. not (is_full b now)) o) false
unfolding is_full
sweep-Move budget now none = idle refl refl
sweep-Move budget now (some b) = elim (Bool-cases (is_full b now)) [
  | inl e ↦ drop b refl (leb→le _ _ e) (rw e) refl
  | inr e ↦ idle (rw e) refl
]

-- A demand that names the key offers it this budget.
abbrev pub Offers : Key → Budget → Call → Type 0
Offers k budget (requests d instant extra) =
    (b : Budget) → get Key-discrete k d.keys ≡ some b → b ≡ budget
Offers k budget (sweeps instant) = Unit

settle-Move :
    (k : Key) (budget : Budget) (l : Limiter) (d : Demand) (now : ℕ)
    → Distinct Key-discrete d.keys
    → ((b : Budget) → get Key-discrete k d.keys ≡ some b → b ≡ budget)
    → admitted l d now ≡ true
    → Move budget now (get Key-discrete k l.buckets) (get Key-discrete k (settle l d now).buckets) (
        contains_key Key-discrete k d.keys
        && (contains_key Key-discrete k l.buckets || not (use_overflow l d)))
unfolding settle admitted keys_admit
settle-Move k budget l d now distinct fits ok =
    let over = use_overflow l d in
    let all_admit : keys_admit l d now ≡ true = ground (arith, ok) in
    rw (get-charge k over now d.keys l.buckets distinct) (
      place-Move budget now (get Key-discrete k d.keys) (get Key-discrete k l.buckets) over fits
        (λ b e. keys_admit-get k b over now l.buckets d.keys all_admit e))

overflow_open :
    (budget : Budget) (now : ℕ) (o : Option Bucket)
    → is_none_or o (λ b. admits b now) ≡ true
    → admits (or_full o budget now) now ≡ true
overflow_open budget now none ok = full-admits budget now
overflow_open budget now (some b) ok = ok

-- Where the overflow path is taken, its bucket is charged like any other.
overflow_self-Move :
    (l : Limiter) (d : Demand) (now : ℕ)
    → admitted l d now ≡ true
    → use_overflow l d ≡ true
    → Move d.overflow_budget now
        (get Overflow-discrete d.overflow_key l.overflow)
        (get Overflow-discrete d.overflow_key (charge_overflow l d now))
        true
unfolding admitted overflow_admits charge_overflow
overflow_self-Move l d now ok e =
    rw
      (
        e,
        get-insert Overflow-discrete d.overflow_key d.overflow_key _ l.overflow,
        if_pos (Overflow-discrete d.overflow_key d.overflow_key) refl,
      )
      (spend
        (overflow_open d.overflow_budget now (get Overflow-discrete d.overflow_key l.overflow)
          (ground (arith, ok, e)))
        refl refl)

overflow_same-Move :
    (o : Overflow) (budget : Budget) (l : Limiter) (d : Demand) (now : ℕ)
    → d.overflow_key ≡ o
    → d.overflow_budget ≡ budget
    → admitted l d now ≡ true
    → use_overflow l d ≡ true
    → Move budget now
        (get Overflow-discrete o l.overflow)
        (get Overflow-discrete o (charge_overflow l d now))
        true
overflow_same-Move o budget l d now p q ok e =
    subst
      (λ k.
        Move budget now (get Overflow-discrete k l.overflow)
          (get Overflow-discrete k (charge_overflow l d now)) true)
      p
      (subst
        (λ b.
          Move b now (get Overflow-discrete d.overflow_key l.overflow)
            (get Overflow-discrete d.overflow_key (charge_overflow l d now)) true)
        q (overflow_self-Move l d now ok e))

overflow-Move :
    (o : Overflow) (budget : Budget) (l : Limiter) (d : Demand) (now : ℕ)
    → (d.overflow_key ≡ o → d.overflow_budget ≡ budget)
    → admitted l d now ≡ true
    → Move budget now
        (get Overflow-discrete o l.overflow)
        (get Overflow-discrete o (charge_overflow l d now))
        (use_overflow l d && is_kind d.overflow_key o)
unfolding charge_overflow is_kind
overflow-Move o budget l d now fits ok = elim (Bool-cases (use_overflow l d)) [
  | inr e ↦ idle (ground arith) (ground arith)
  | inl e ↦ elim (Overflow-discrete d.overflow_key o) [
    | yes p ↦
        let flag : true ≡ (use_overflow l d && is_kind d.overflow_key o) = ground arith in
        subst
          (Move budget now (get Overflow-discrete o l.overflow)
            (get Overflow-discrete o (charge_overflow l d now)))
          flag (overflow_same-Move o budget l d now p (fits p) ok e)
    | no p ↦
        idle
          (ground (
            arith,
            get-insert Overflow-discrete d.overflow_key o
                (take
                  (or_full (get Overflow-discrete d.overflow_key l.overflow) d.overflow_budget now)
                  now)
                l.overflow,
          ))
          (ground arith)
  ]
]

pub step-Move :
    (k : Key) (budget : Budget) (l : Limiter) (c : Call)
    → IsValid l
    → IsProper c
    → Offers k budget c
    → Move budget
        (elapsed l (time c))
        (get Key-discrete k l.buckets)
        (get Key-discrete k (step l c).buckets)
        (charges_key k l c)
unfolding step charges_key sweep
step-Move k budget l (requests d instant extra) v p fits =
    request_cases
      (λ l' b.
        Move budget (elapsed l instant) (get Key-discrete k l.buckets)
          (get Key-discrete k l'.buckets)
          (b
            && (contains_key Key-discrete k d.keys
                && (contains_key Key-discrete k l.buckets || not (use_overflow l d)))))
      l d instant extra (idle refl refl) (settle-Move k budget l d (elapsed l instant) p fits)
step-Move k budget l (sweeps instant) v p fits =
    rw (get-retain Key-discrete _ k l.buckets v.distinct)
      (sweep-Move budget (elapsed l instant) (get Key-discrete k l.buckets))

-- A demand of this overflow kind has this budget for it.
abbrev pub OffersOverflow : Overflow → Budget → Call → Type 0
OffersOverflow o budget (requests d instant extra) = d.overflow_key ≡ o → d.overflow_budget ≡ budget
OffersOverflow o budget (sweeps instant) = Unit

pub step_overflow-Move :
    (o : Overflow) (budget : Budget) (l : Limiter) (c : Call)
    → IsValid l
    → OffersOverflow o budget c
    → Move budget
        (elapsed l (time c))
        (get Overflow-discrete o l.overflow)
        (get Overflow-discrete o (step l c).overflow)
        (charges_overflow o l c)
unfolding step charges_overflow sweep settle
step_overflow-Move o budget l (requests d instant extra) v fits =
    request_cases
      (λ l' b.
        Move budget (elapsed l instant) (get Overflow-discrete o l.overflow)
          (get Overflow-discrete o l'.overflow)
          (b && (use_overflow l d && is_kind d.overflow_key o)))
      l d instant extra (idle refl refl) (overflow-Move o budget l d (elapsed l instant) fits)
step_overflow-Move o budget l (sweeps instant) v fits =
    rw (get-retain Overflow-discrete _ o l.overflow v.distinct_overflow)
      (sweep-Move budget (elapsed l instant) (get Overflow-discrete o l.overflow))

pub step-start : (l : Limiter) (c : Call) → (step l c).start ≡ l.start
unfolding step sweep settle
step-start l (requests d instant extra) =
    request_cases (λ l' _. l'.start ≡ l.start) l d instant extra refl (λ _. refl)
step-start l (sweeps instant) = refl

pub Ordered-le : (first last : ℕ) (cs : List Call) → Ordered first last cs → first ≤ last
Ordered-le first last [] o = o
Ordered-le first last (c ∷ cs) o = omega (arith, o.0, Ordered-le (time c) last cs o.1)
