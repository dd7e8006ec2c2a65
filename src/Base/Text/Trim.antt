-- ===== src/Base/Text/Trim.antt =====
-- Trimming takes off the ends only, and once is enough.
use mathlib.Core.Path.{◌≡◌, refl, sym, ap, ◌∙◌}
use mathlib.Core.Logic.{inl, inr}
use mathlib.Core.Bool.{Bool, false}
use mathlib.Core.List.{[], ◌∷◌, ◌++◌, reverse, reverse-append, reverse-reverse}
use native.Mathlib.Omega.{arith}
use Prim.Native.Nat.{ℕ, ◌≤◌}
use kohaku.Base.Tests.{Bool-cases}
use kohaku.Base.Lists.{length, All, All-reverse}
use kohaku.Base.Text.{Text, trim_start, trim_matches}

module _ (p : ℕ → Bool) where
  trim_start-suffix : (s : Text) → (front : Text) × (s ≡ front ++ trim_start p s)
  unfolding trim_start
  trim_start-suffix [] = ([], refl)
  trim_start-suffix (c ∷ s) = elim (Bool-cases (p c)) [
    | inl t ↦ let (front, e) = trim_start-suffix s in (c ∷ front, rw t (ap (λ l. c ∷ l) e))
    | inr f ↦ ([], rw f refl)
  ]

  length-trim_start : (s : Text) → length (trim_start p s) ≤ length s
  unfolding trim_start
  length-trim_start [] = omega arith
  length-trim_start (c ∷ s) = ground (arith, length-trim_start s)

  trim_start_twice : (s : Text) → trim_start p (trim_start p s) ≡ trim_start p s
  unfolding trim_start
  trim_start_twice [] = refl
  trim_start_twice (c ∷ s) = elim (Bool-cases (p c)) [
    | inl t ↦ rw t (trim_start_twice s)
    | inr f ↦ rw (f, f) refl
  ]

  trim_start_front :
      (front back : Text)
      → trim_start p (front ++ back) ≡ front ++ back
      → trim_start p front ≡ front
  unfolding trim_start
  trim_start_front [] back e = refl
  trim_start_front (c ∷ front) back e = elim (Bool-cases (p c)) [
    | inl t ↦
        let longer : trim_start p (front ++ back) ≡ c ∷ (front ++ back) = rw t at e in
        absurd (omega (arith, ap length longer, length-trim_start (front ++ back)))
    | inr f ↦ rw f refl
  ]

  pub trim_matches_twice : (s : Text) → trim_matches p (trim_matches p s) ≡ trim_matches p s
  unfolding trim_matches
  trim_matches_twice s =
      let u = trim_start p s in
      let v = trim_start p (reverse u) in
      let (front, split) = trim_start-suffix (reverse u) in
      let whole : u ≡ reverse v ++ reverse front =
        sym (reverse-reverse u) ∙ (ap reverse split ∙ reverse-append front v) in
      let start : trim_start p (reverse v) ≡ reverse v =
        trim_start_front (reverse v) (reverse front) (rw (← whole) (trim_start_twice s)) in
      ap (λ t. reverse (trim_start p (reverse t))) start
      ∙ ap reverse (ap (trim_start p) (reverse-reverse v) ∙ trim_start_twice (reverse u))

  trim_start_none : (s : Text) → All (λ c. p c ≡ false) s → trim_start p s ≡ s
  unfolding trim_start
  trim_start_none [] a = refl
  trim_start_none (c ∷ s) a = rw a.0 refl

  pub trim_matches_none : (s : Text) → All (λ c. p c ≡ false) s → trim_matches p s ≡ s
  unfolding trim_matches
  trim_matches_none s a =
      ap (λ t. reverse (trim_start p (reverse t))) (trim_start_none s a)
      ∙ (ap reverse (trim_start_none (reverse s) (All-reverse (λ c. p c ≡ false) s a))
          ∙ reverse-reverse s)

module _ (p : ℕ → Bool) (P : ℕ → Type 0) where
  trim_start-All : (s : Text) → All P s → All P (trim_start p s)
  unfolding trim_start
  trim_start-All [] a = tt
  trim_start-All (c ∷ s) a = elim (Bool-cases (p c)) [
    | inl t ↦ rw t (trim_start-All s a.1)
    | inr f ↦ rw f a
  ]

  pub trim_matches-All : (s : Text) → All P s → All P (trim_matches p s)
  unfolding trim_matches
  trim_matches-All s a = All-reverse P _ (trim_start-All _ (All-reverse P _ (trim_start-All s a)))
