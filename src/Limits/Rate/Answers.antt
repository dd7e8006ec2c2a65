-- ===== src/Limits/Rate/Answers.antt =====
-- Runs of src/limits/rate.rs with and without their sweeps.
use kohaku.Base.{
  ℕ, ◌-◌, ◌+◌, ◌≤◌, ◌≡◌, refl, ap, ap₂, sym, subst, ◌∙◌, Bool, true, false, not, ◌&&◌, Option, none,
  some, List, [], ◌∷◌, arith, Bool-cases, inl, inr, length, All,
}
use kohaku.Base.Assoc.{get, Distinct}
use kohaku.Base.Assoc.Retain.{get-retain, keep_some}
use kohaku.Limits.Bucket.{Budget, Bucket, is_full, take, full}
use kohaku.Limits.Rate.{
  Key, Key-discrete, new, Demand, Limiter, max_buckets, use_overflow, admitted, settle, admit_with,
  elapsed, sweep,
}
use kohaku.Limits.Rate.Charge.{after_charge, get-charge}
use kohaku.Limits.Rate.Invariant.{
  IsValid, step-IsValid, new-IsValid, run-new-IsValid, length-settle, room-use_overflow,
  length-sweep,
}
use kohaku.Limits.Rate.Sweep.{
  Fits, IsOwned, Owned, Follows, get-Owned, Follows-admitted, Follows-settle, Follows-later,
  Follows-sweep,
}
use kohaku.Limits.Rate.Trace.{Call, requests, sweeps, request, request_cases, step, run, Ordered}

-- The answers that the requests of a run get.
unfoldable pub answers : Limiter → List Call → List Bool
answers l [] = []
answers l (requests d instant extra ∷ cs) =
    let (l', _, answer) = request l d instant extra in answer ∷ answers l' cs
answers l (sweeps instant ∷ cs) = answers (sweep l instant) cs

-- How many keys the requests of a run name.
abbrev pub named : List Call → ℕ
named [] = 0
named (requests d instant extra ∷ cs) = length d.keys + named cs
named (sweeps instant ∷ cs) = named cs

abbrev pub unswept : List Call → List Call
unswept [] = []
unswept (requests d instant extra ∷ cs) = requests d instant extra ∷ unswept cs
unswept (sweeps instant ∷ cs) = unswept cs

module _ (own : Key → Budget) where
  -- What one request leaves in both limiters, and its answer.
  record Answered (l l' : Limiter) (d : Demand) (instant : ℕ) (p p' : Limiter × Unit {0} × Bool)
      : Type 0 where
    same : p'.2 ≡ p.2
    follows : Follows own p.0 p'.0 (elapsed p.0 instant)
    size : length p.0.buckets ≤ length l.buckets + length d.keys
    size' : length p'.0.buckets ≤ length l'.buckets + length d.keys

  outcome : Demand → ℕ → Limiter → Bool → Limiter × Unit {0} × Bool
  outcome d now l true = (settle l d now, tt, true)
  outcome d now l false = (l, tt, false)

  request-outcome :
      (l : Limiter) (d : Demand) (instant : ℕ) (extra : Bool)
      → request l d instant extra
        ≡ outcome d (elapsed l instant) l (admitted l d (elapsed l instant) && extra)
  unfolding admit_with outcome
  request-outcome l d instant extra =
      elim (Bool-cases (admitted l d (elapsed l instant) && extra)) [
        | inl e ↦ rw e refl
        | inr e ↦ rw e refl
      ]

  outcome-Answered :
      (l l' : Limiter) (d : Demand) (instant : ℕ) (answer : Bool)
      → Follows own l l' (elapsed l instant)
      → Owned own d
      → Distinct Key-discrete d.keys
      → use_overflow l d ≡ false
      → use_overflow l' d ≡ false
      → Answered l l' d instant
          (outcome d (elapsed l instant) l answer)
          (outcome d (elapsed l instant) l' answer)
  unfolding outcome elapsed settle
  outcome-Answered l l' d instant true f owned distinct over over' = record {
    same = refl;
    follows = Follows-settle own l l' (instant - l.start) d f owned distinct over over';
    size = length-settle l d (instant - l.start);
    size' = length-settle l' d (instant - l.start);
  }
  outcome-Answered l l' d instant false f owned distinct over over' = record {
    same = refl;
    follows = f;
    size = omega arith;
    size' = omega arith;
  }

  request-Answered :
      (l l' : Limiter) (d : Demand) (instant : ℕ) (extra : Bool)
      → Follows own l l' (elapsed l instant)
      → Owned own d
      → Distinct Key-discrete d.keys
      → length l.buckets + length d.keys ≤ max_buckets
      → length l'.buckets + length d.keys ≤ max_buckets
      → Answered l l' d instant (request l d instant extra) (request l' d instant extra)
  unfolding elapsed
  request-Answered l l' d instant extra f owned distinct room room' =
      let over = room-use_overflow l d room in
      let over' = room-use_overflow l' d room' in
      let now = instant - l.start in
      let clock : instant - l'.start ≡ now = ap (λ s. instant - s) f.clock in
      let same = Follows-admitted own l l' now d f owned over over' in
      subst (λ p. Answered l l' d instant p (request l' d instant extra))
        (sym (request-outcome l d instant extra))
        (subst (Answered l l' d instant (outcome d now l (admitted l d now && extra)))
          (ap (λ a. outcome d now l' (a && extra)) same
            ∙ ap (λ n. outcome d n l' (admitted l' d n && extra)) (sym clock)
            ∙ sym (request-outcome l' d instant extra))
          (outcome-Answered l l' d instant (admitted l d now && extra) f owned distinct over over'))

  -- While the map has room for all keys of a run, its sweeps change none of the answers.
  pub answers-unswept :
      (cs : List Call) (l l' : Limiter) (first last : ℕ)
      → Ordered first last cs
      → All (IsOwned own) cs
      → length l.buckets + named cs ≤ max_buckets
      → length l'.buckets + named cs ≤ max_buckets
      → Follows own l l' (elapsed l first)
      → answers l' cs ≡ answers l (unswept cs)
  unfolding answers elapsed
  answers-unswept [] l l' first last o owned room room' f = refl
  answers-unswept (sweeps instant ∷ cs) l l' first last o owned room room' f =
      let f' =
        Follows-later own l l' (first - l.start) (instant - l.start) (omega (arith, o.0)) f in
      answers-unswept cs l (sweep l' instant) instant last o.1 owned.1 room
        (omega (arith, room', length-sweep l' instant)) (Follows-sweep own l l' instant f')
  answers-unswept (requests d instant extra ∷ cs) l l' first last o owned room room' f =
      let f' =
        Follows-later own l l' (first - l.start) (instant - l.start) (omega (arith, o.0)) f in
      let a =
        request-Answered l l' d instant extra f' owned.0.0 owned.0.1 (omega (arith, room))
          (omega (arith, room')) in
      ap₂ (λ (b : Bool) (bs : List Bool). b ∷ bs) a.same
        (answers-unswept cs _ _ instant last o.1 owned.1 (omega (arith, room, a.size))
          (omega (arith, room', a.size')) a.follows)

  AllFit : Limiter → Type 0
  AllFit l = (k : Key) → Fits (own k) (get Key-discrete k l.buckets)

  after_charge-Fits :
      (b : Budget) (offer : Option Budget) (o : Option Bucket) (over : Bool) (now : ℕ)
      → ((c : Budget) → offer ≡ some c → c ≡ b)
      → Fits b o
      → Fits b (after_charge offer o over now)
  unfolding after_charge take full
  after_charge-Fits b none o over now h f = f
  after_charge-Fits b (some c) (some k) over now h f = f
  after_charge-Fits b (some c) none true now h f = tt
  after_charge-Fits b (some c) none false now h f = h c refl

  keep_some-Fits :
      (b : Budget) (p : Bucket → Bool) (o : Option Bucket) → Fits b o → Fits b (keep_some p o)
  keep_some-Fits b p none f = tt
  keep_some-Fits b p (some k) f = elim (Bool-cases (p k)) [ inl e ↦ rw e f | inr e ↦ rw e tt ]

  step-AllFit : (l : Limiter) (c : Call) → IsValid l → IsOwned own c → AllFit l → AllFit (step l c)
  unfolding step sweep settle AllFit
  step-AllFit l (requests d instant extra) v owned f =
      request_cases (λ l' _. AllFit l') l d instant extra f
        (λ _ k. rw (get-charge k (use_overflow l d) (elapsed l instant) d.keys l.buckets owned.1) (
          after_charge-Fits (own k) (get Key-discrete k d.keys) (get Key-discrete k l.buckets)
            (use_overflow l d) (elapsed l instant) (λ b e. get-Owned own d.keys k b owned.0 e)
            (f k)))
  step-AllFit l (sweeps instant) v owned f = λ k.
      rw (get-retain Key-discrete (λ b. not (is_full b (elapsed l instant))) k l.buckets v.distinct)
        (keep_some-Fits (own k) (λ b. not (is_full b (elapsed l instant)))
          (get Key-discrete k l.buckets) (f k))

  run-AllFit :
      (l : Limiter) (cs : List Call)
      → IsValid l
      → All (IsOwned own) cs
      → AllFit l
      → AllFit (run l cs)
  unfolding run
  run-AllFit l [] v owned f = f
  run-AllFit l (c ∷ cs) v owned f =
      run-AllFit (step l c) cs (step-IsValid l c v) owned.1 (step-AllFit l c v owned.0 f)

  -- A limiter follows itself after any run from the start.
  pub run-Follows :
      (start now : ℕ) (cs : List Call)
      → All (IsOwned own) cs
      → Follows own (run (new start) cs) (run (new start) cs) now
  unfolding AllFit new get
  run-Follows start now cs owned =
      let v = run-new-IsValid start cs in
      record {
        clock = refl;
        valid = v;
        valid' = v;
        places = λ k. (run-AllFit (new start) cs (new-IsValid start) owned (λ _. tt) k, inl refl);
      }

-- A run holds a bucket for each key that it names at most.
pub length-run :
    (l : Limiter) (cs : List Call) → length (run l cs).buckets ≤ length l.buckets + named cs
unfolding run step
length-run l [] = omega arith
length-run l (requests d instant extra ∷ cs) =
    let size =
      request_cases (λ l' _. length l'.buckets ≤ length l.buckets + length d.keys) l d instant extra
        (omega arith) (λ _. length-settle l d (elapsed l instant)) in
    omega (arith, size, length-run (request l d instant extra).0 cs)
length-run l (sweeps instant ∷ cs) =
    omega (arith, length-sweep l instant, length-run (sweep l instant) cs)
