-- ===== src/Limits/Rate/Trace.antt =====
-- The calls that reach the limiter of src/limits/rate.rs, one after another under its lock.
use kohaku.Base.{
  ℕ, suc, ◌≤◌, ◌≡◌, ite, Bool, true, false, not, ◌&&◌, ◌||◌, List, [], ◌∷◌, if◌then◌else◌,
  Bool-cases, inl, inr,
}
use kohaku.Base.Assoc.{contains_key, Distinct}
use kohaku.Limits.Rate.{
  Key, Key-discrete, Overflow, Overflow-discrete, Demand, Limiter, use_overflow, admit_with, sweep,
  admitted, settle, elapsed,
}

-- A request carries the answer of the extra bucket, whatever that bucket is.
pub data Call : Type 0 where
  requests : Demand → ℕ → Bool → Call
  sweeps : ℕ → Call

abbrev pub time : Call → ℕ
time (requests d instant extra) = instant
time (sweeps instant) = instant

abbrev pub request : Limiter → Demand → ℕ → Bool → Limiter × Unit {0} × Bool
request l d instant extra = admit_with (λ _ _. extra) (λ _ s. s) l tt d instant

-- A request is rejected and changes nothing, or is admitted and makes its writes.
pub request_cases {ℓ} :
    (P : Limiter → Bool → Type ℓ) (l : Limiter) (d : Demand) (instant : ℕ) (extra : Bool)
    → P l false
    → (admitted l d (elapsed l instant) ≡ true → P (settle l d (elapsed l instant)) true)
    → P (request l d instant extra).0 (request l d instant extra).2
unfolding admit_with
request_cases P l d instant extra out admits =
    elim (Bool-cases (admitted l d (elapsed l instant))) [
      | inl e ↦ elim (Bool-cases extra) [ inl e' ↦ rw (e, e') (admits e) | inr e' ↦ rw (e, e') out ]
      | inr e ↦ rw e out
    ]

-- Whatever the extra bucket is, the limiter moves as for a request with that bucket's answer.
pub admit_with-request {ℓ} :
    {S : Type ℓ} (test : ℕ → S → Bool) (write : ℕ → S → S) (l : Limiter) (s : S) (d : Demand)
    (instant : ℕ)
    → (admit_with test write l s d instant).0 ≡ (request l d instant (test (elapsed l instant) s)).0
unfolding admit_with
admit_with-request test write l s d instant =
    elim (Bool-cases (admitted l d (elapsed l instant) && test (elapsed l instant) s)) [
      | inl e ↦ rw e
      | inr e ↦ rw e
    ]

unfoldable pub step : Limiter → Call → Limiter
step l (requests d instant extra) = (request l d instant extra).0
step l (sweeps instant) = sweep l instant

unfoldable pub run : Limiter → List Call → Limiter
run l [] = l
run l (c ∷ cs) = run (step l c) cs

-- The demand of a call names no key twice.
abbrev pub IsProper : Call → Type 0
IsProper (requests d instant extra) = Distinct Key-discrete d.keys
IsProper (sweeps instant) = Unit

-- Whether the call is admitted and takes a token from the key's own bucket.
unfoldable pub charges_key : Key → Limiter → Call → Bool
charges_key k l (requests d instant extra) =
    (request l d instant extra).2
    && (contains_key Key-discrete k d.keys
        && (contains_key Key-discrete k l.buckets || not (use_overflow l d)))
charges_key k l (sweeps instant) = false

unfoldable pub is_kind : Overflow → Overflow → Bool
is_kind o o' = ite (Overflow-discrete o o') true false

-- Whether the call is admitted on the overflow bucket of this kind.
unfoldable pub charges_overflow : Overflow → Limiter → Call → Bool
charges_overflow o l (requests d instant extra) =
    (request l d instant extra).2 && (use_overflow l d && is_kind d.overflow_key o)
charges_overflow o l (sweeps instant) = false

-- How many calls of a trace satisfy a test in the state they meet.
unfoldable pub tally : (Limiter → Call → Bool) → Limiter → List Call → ℕ
tally test l [] = 0
tally test l (c ∷ cs) = let rest = tally test (step l c) cs in if test l c then suc rest else rest

-- The calls come in order, between two instants.
abbrev pub Ordered : ℕ → ℕ → List Call → Type 0
Ordered first last [] = first ≤ last
Ordered first last (c ∷ cs) = (first ≤ time c) × Ordered (time c) last cs
