-- ===== src/Limits/Rate/Window.antt =====
-- How many requests the limiter of src/limits/rate.rs can admit on one bucket in a window of time.
use kohaku.Base.{ℕ, ◌+◌, ◌-◌, ◌*◌, ◌≤◌, ◌<◌, subst, refl, List, [], ◌∷◌, arith, All}
use kohaku.Base.Assoc.{get}
use kohaku.Limits.Bucket.{Budget}
use kohaku.Limits.Bucket.Slot.{Chain, done, next, Chain-limit}
use kohaku.Limits.Rate.{Key, Key-discrete, Overflow, Overflow-discrete, Limiter, new, elapsed}
use kohaku.Limits.Rate.Invariant.{IsValid, step-IsValid, new-IsValid}
use kohaku.Limits.Rate.Moves.{
  Offers, OffersOverflow, step-Move, step_overflow-Move, step-start, Ordered-le,
}
use kohaku.Limits.Rate.Trace.{
  Call, time, step, IsProper, charges_key, charges_overflow, tally, Ordered,
}

run-Chain :
    (k : Key) (budget : Budget) (l : Limiter) (cs : List Call) (first last : ℕ)
    → IsValid l
    → All IsProper cs
    → All (Offers k budget) cs
    → Ordered first last cs
    → Chain budget
        (last - l.start)
        (first - l.start)
        (get Key-discrete k l.buckets)
        (tally (charges_key k) l cs)
unfolding tally elapsed
run-Chain k budget l [] first last v p f o = done
run-Chain k budget l (c ∷ cs) first last v p f o =
    let rest = run-Chain k budget (step l c) cs (time c) last (step-IsValid l c v) p.1 f.1 o.1 in
    next (omega (arith, o.0)) (omega (arith, Ordered-le (time c) last cs o.1))
      (step-Move k budget l c v p.0 f.0)
      (subst
        (λ s.
          Chain budget (last - s) (time c - s) (get Key-discrete k (step l c).buckets)
            (tally (charges_key k) (step l c) cs))
        (step-start l c) rest)
      refl

run_overflow-Chain :
    (o : Overflow) (budget : Budget) (l : Limiter) (cs : List Call) (first last : ℕ)
    → IsValid l
    → All (OffersOverflow o budget) cs
    → Ordered first last cs
    → Chain budget
        (last - l.start)
        (first - l.start)
        (get Overflow-discrete o l.overflow)
        (tally (charges_overflow o) l cs)
unfolding tally elapsed
run_overflow-Chain o budget l [] first last v f h = done
run_overflow-Chain o budget l (c ∷ cs) first last v f h =
    let rest =
      run_overflow-Chain o budget (step l c) cs (time c) last (step-IsValid l c v) f.1 h.1 in
    next (omega (arith, h.0)) (omega (arith, Ordered-le (time c) last cs h.1))
      (step_overflow-Move o budget l c v f.0)
      (subst
        (λ s.
          Chain budget (last - s) (time c - s) (get Overflow-discrete o (step l c).overflow)
            (tally (charges_overflow o) (step l c) cs))
        (step-start l c) rest)
      refl

module _ (start first last : ℕ) (cs : List Call) (o : Ordered first last cs) (budget : Budget)
    (positive : 0 < budget.capacity) where
  -- In any run of a new limiter, whatever other requests and sweeps come between, the bucket of one
  -- key gives at most its capacity plus one token for each interval of the window. The run is in
  -- order, no demand names a key twice, and every demand that names this key has this budget for it.
  pub tally-key-limit :
      (k : Key)
      → All IsProper cs
      → All (Offers k budget) cs
      → tally (charges_key k) (new start) cs * budget.interval
        ≤ last - first + budget.capacity * budget.interval
  unfolding new get
  tally-key-limit k p f =
      let limit =
        Chain-limit tt positive
          (run-Chain k budget (new start) cs first last (new-IsValid start) p f o) in
      omega (arith, limit)

  pub tally-overflow-limit :
      (k : Overflow)
      → All (OffersOverflow k budget) cs
      → tally (charges_overflow k) (new start) cs * budget.interval
        ≤ last - first + budget.capacity * budget.interval
  unfolding new get
  tally-overflow-limit k f =
      let limit =
        Chain-limit tt positive
          (run_overflow-Chain k budget (new start) cs first last (new-IsValid start) f o) in
      omega (arith, limit)
