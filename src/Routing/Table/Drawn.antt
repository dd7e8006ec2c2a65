-- ===== src/Routing/Table/Drawn.antt =====
-- A public form takes a token (src/routing/table.rs, src/routing/build.rs).
use kohaku.Base.{
  All, keep, length, ◌==◌, ℕ, ◌≡◌, refl, ap, ◌∙◌, subst, inl, inr, Bool, true, false, not, ◌&&◌,
  ◌||◌, some, List, [], ◌∷◌, all, any, arith, Bool-cases,
}
use mathlib.Core.List.{Mem, mem-cons, not-mem-nil}
use mathlib.Core.Logic.Or
use mathlib.Core.Bool.{Bool-set}
use kohaku.Limits.Address.{IpAddr}
use kohaku.Limits.Rate.{
  RateClass, Method, method_post, is_post, applies_to, class_demand, Limiter, admit,
}
use kohaku.Routing.RateLayer.{Passage, passed, limited, draw, rate_layer}
use kohaku.Routing.Table.{Access, public, session, admin, Route, table}

abbrev is_public : Access → Bool
is_public public = true
is_public session = false
is_public admin = false

-- A route that anyone can post a form to.
abbrev pub is_public_form : Route → Bool
is_public_form r = is_public r.access && any is_post r.methods.handled

abbrev pub covering : Method → List RateClass → List RateClass
covering method = keep (λ c. applies_to c method)

is_drawn : Route → Bool
is_drawn r = not (is_public_form r) || (length (covering method_post r.rate) == 1)

table_drawn : all is_drawn table ≡ true
unfolding is_drawn applies_to
table_drawn = refl

all-Mem {ℓ} :
    {A : Type ℓ} (p : A → Bool) (xs : List A) (x : A) → all p xs ≡ true → Mem x xs → p x ≡ true
all-Mem p [] y h m = absurd (not-mem-nil m)
all-Mem p (x ∷ xs) y h m =
    let first : p x ≡ true = ground (arith, h) in
    let others : all p xs ≡ true = ground (arith, h) in
    Or.elim (Bool-set (p y) true) (mem-cons.0 m) (λ e. ap p e ∙ first)
      (λ m. all-Mem p xs y others m)

keep-All {ℓ} : {A : Type ℓ} (q : A → Bool) (xs : List A) → All (λ x. q x ≡ true) (keep q xs)
keep-All q [] = tt
keep-All q (x ∷ xs) = elim (Bool-cases (q x)) [
  | inl t ↦ rw t (t, keep-All q xs)
  | inr f ↦ rw f (keep-All q xs)
]

draw-covering :
    (classes : List RateClass) (method : Method) (client : IpAddr) (now : ℕ) (l : Limiter)
    → draw classes method client now l ≡ draw (covering method classes) method client now l
unfolding draw
draw-covering [] method client now l = refl
draw-covering (c ∷ classes) method client now l = elim (Bool-cases (applies_to c method)) [
  | inr f ↦ rw (draw, f) (draw-covering classes method client now l)
  | inl a ↦ elim (Bool-cases (admit l (class_demand c client) now).1) [
    | inl t ↦
        rw (a, draw, a, t)
          (draw-covering classes method client now (admit l (class_demand c client) now).0)
    | inr n ↦ rw (a, draw, a, n) refl
  ]
]

abbrev pub answer : RateClass → Limiter × Bool → Limiter × Passage
answer c (l, true) = (l, passed)
answer c (l, false) = (l, limited c)

draw-one :
    (c : RateClass) (method : Method) (client : IpAddr) (now : ℕ) (l : Limiter)
    → applies_to c method ≡ true
    → draw (c ∷ []) method client now l ≡ answer c (admit l (class_demand c client) now)
unfolding draw
draw-one c method client now l a = elim (Bool-cases (admit l (class_demand c client) now).1) [
  | inl t ↦ rw (draw, a, t) refl
  | inr n ↦ rw (draw, a, n) refl
]

only_one : (cs : List RateClass) → (length cs == 1) ≡ true → (c : RateClass) × (cs ≡ c ∷ [])
only_one [] h = absurd (ground (arith, h))
only_one (c ∷ []) h = (c, refl)
only_one (c ∷ d ∷ cs) h = absurd (ground (arith, h))

-- Every route of the table that anyone can post a form to is limited by exactly one class: whatever the
-- limiter holds, the rate layer asks it once, for the client in that class, which covers posts; the
-- limiter is left as that request leaves it, and the post is let through exactly if it was admitted,
-- and refused with the class otherwise.
pub rate_layer-table :
    (r : Route) (client : IpAddr) (now : ℕ) (l : Limiter)
    → Mem r table
    → is_public_form r ≡ true
    → (c : RateClass) × (covering method_post r.rate ≡ c ∷ [])
      × (rate_layer r.rate method_post (some client) now l
          ≡ answer c (admit l (class_demand c client) now))
unfolding rate_layer is_drawn
rate_layer-table r client now l m form =
    let drawn : is_drawn r ≡ true = all-Mem is_drawn table r table_drawn m in
    let (c, e) = only_one (covering method_post r.rate) (ground (arith, drawn, form)) in
    let covers : All (λ d. applies_to d method_post ≡ true) (c ∷ []) =
      subst (All (λ d. applies_to d method_post ≡ true)) e
        (keep-All (λ d. applies_to d method_post) r.rate) in
    (
      c,
      e,
      draw-covering r.rate method_post client now l
          ∙ (ap (λ cs. draw cs method_post client now l) e
              ∙ draw-one c method_post client now l covers.0),
    )
