-- ===== src/Mail/Order.antt =====
-- The order in which src/mail/outbox.rs selects a row, and the earliest next attempt.
use kohaku.Base.{
  All-imp, ℕ, ◌≤◌, ◌≡◌, refl, sym, ap, subst, ◌∙◌, Bool, true, false, ◌&&◌, Option, none, some,
  List, [], ◌∷◌, arith, ltb, if◌then◌else◌, Bool-cases, inl, inr, ◌⊎◌, All, keep,
}
use kohaku.Db.{OutboxRow}
use kohaku.Mail.GiveUp.{is_unsent}
use kohaku.Mail.Pick.{goes_before, first_row, earlier, next_wake}

goes_before-negtrans :
    (a b c : OutboxRow)
    → goes_before a b ≡ false
    → goes_before b c ≡ false
    → goes_before a c ≡ false
unfolding goes_before
goes_before-negtrans a b c p q = ground arith

goes_before-asym : (a b : OutboxRow) → goes_before a b ≡ true → goes_before b a ≡ false
unfolding goes_before
goes_before-asym a b p = ground arith

goes_before_irrefl : (a : OutboxRow) → goes_before a a ≡ false
unfolding goes_before
goes_before_irrefl a = ground arith

pub All-imp2 :
    {P Q R : OutboxRow → Type 0} (rs : List OutboxRow)
    → ((r : OutboxRow) → P r → Q r → R r)
    → All P rs
    → All Q rs
    → All R rs
All-imp2 [] h a b = tt
All-imp2 (r ∷ rs) h a b = (h r a.0 b.0, All-imp2 rs h a.1 b.1)

abbrev pub In : OutboxRow → List OutboxRow → Type 0
In r [] = ⊥
In r (x ∷ xs) = (r ≡ x) ⊎ In r xs

-- The first row is one of the list, and none of the list goes before it.
abbrev pub IsFirst : List OutboxRow → OutboxRow → Type 0
IsFirst rs r = In r rs × All (λ s. goes_before s r ≡ false) rs

pub first_row-cases :
    (rs : List OutboxRow)
    → ((first_row rs ≡ none) × (rs ≡ []))
      ⊎ ((r : OutboxRow) × (first_row rs ≡ some r) × IsFirst rs r)
unfolding first_row
first_row-cases [] = inl (refl, refl)
first_row-cases (x ∷ xs) = elim (first_row-cases xs) [
  | inl h ↦
      inr (x, ground (arith, h.0), (inl refl, (goes_before_irrefl x, subst (All _) (sym h.1) tt)))
  | inr h ↦ elim (Bool-cases (goes_before h.0 x)) [
    | inl t ↦ inr (h.0, ground (arith, h.1, t), (inr h.2.0, (goes_before-asym h.0 x t, h.2.1)))
    | inr f ↦ inr (
      x,
      ground (arith, h.1, f),
      (
        inl refl,
        (goes_before_irrefl x, All-imp xs (λ s k. goes_before-negtrans s h.0 x k f) h.2.1),
      ),
    )
  ]
]

-- The wake time is the earliest next attempt of an unsent row.
abbrev pub IsWake : List OutboxRow → Option ℕ → Type 0
IsWake rs none = All (λ r. is_unsent r ≡ false) rs
IsWake rs (some at) =
    All (λ r. is_unsent r ≡ true → at ≤ r.next_attempt_at) rs
    × ((r : OutboxRow) × In r rs × (is_unsent r ≡ true) × (r.next_attempt_at ≡ at))

earlier-IsWake :
    (r : OutboxRow) (rs : List OutboxRow) (o : Option ℕ)
    → IsWake rs o
    → IsWake (r ∷ rs) (earlier r o)
unfolding earlier
earlier-IsWake r rs none h = elim (Bool-cases (is_unsent r)) [
  | inl t ↦ rw t (
    (λ u. omega arith, All-imp rs (λ s k u. absurd (ground (arith, k, u))) h),
    (r, inl refl, t, refl),
  )
  | inr f ↦ rw f (f, h)
]
earlier-IsWake r rs (some at) h = elim (Bool-cases (is_unsent r && ltb r.next_attempt_at at)) [
  | inl t ↦ rw t (
    (λ u. omega arith, All-imp rs (λ s k u. ground (arith, k u)) h.0),
    (r, inl refl, ground (arith, t), refl),
  )
  | inr f ↦ rw f (
    (λ u. ground (arith, f, u), All-imp rs (λ s k u. ground (arith, f, k u)) h.0),
    (h.1.0, inr h.1.1, h.1.2, ground (arith, f, h.1.3)),
  )
]

pub next_wake-IsWake : (rs : List OutboxRow) → IsWake rs (next_wake rs)
unfolding next_wake
next_wake-IsWake [] = tt
next_wake-IsWake (r ∷ rs) = earlier-IsWake r rs (next_wake rs) (next_wake-IsWake rs)

pub In-All :
    (P : OutboxRow → Type 0) (r : OutboxRow) (rs : List OutboxRow) → In r rs → All P rs → P r
In-All P r [] i a = absurd i
In-All P r (x ∷ xs) (inl e) a = subst P (sym e) a.0
In-All P r (x ∷ xs) (inr i) a = In-All P r xs i a.1

pub In-keep :
    (p : OutboxRow → Bool) (r : OutboxRow) (rs : List OutboxRow)
    → In r (keep p rs)
    → In r rs × (p r ≡ true)
In-keep p r [] i = absurd i
In-keep p r (x ∷ xs) i = elim (Bool-cases (p x)) [
  | inl t ↦ elim (subst (λ b. In r (if b then x ∷ keep p xs else keep p xs)) t i) [
    | inl e ↦ (inl e, ap p e ∙ t)
    | inr j ↦ let rest = In-keep p r xs j in (inr rest.0, rest.1)
  ]
  | inr f ↦
      let rest = In-keep p r xs (subst (λ b. In r (if b then x ∷ keep p xs else keep p xs)) f i) in
      (inr rest.0, rest.1)
]

pub All-keep :
    (P : OutboxRow → Type 0) (p : OutboxRow → Bool) (rs : List OutboxRow)
    → All P (keep p rs)
    → All (λ r. p r ≡ true → P r) rs
All-keep P p [] a = tt
All-keep P p (x ∷ xs) a = elim (Bool-cases (p x)) [
  | inl t ↦
      let b = subst (λ b. All P (if b then x ∷ keep p xs else keep p xs)) t a in
      (λ h. b.0, All-keep P p xs b.1)
  | inr f ↦ (
    λ h. absurd (ground (arith, h, f)),
    All-keep P p xs (subst (λ b. All P (if b then x ∷ keep p xs else keep p xs)) f a),
  )
]

-- What is kept has the test, and what held of the list holds of what is kept.
pub keep-All :
    (P : OutboxRow → Type 0) (p : OutboxRow → Bool) (rs : List OutboxRow)
    → All P rs
    → All (λ r. P r × (p r ≡ true)) (keep p rs)
keep-All P p [] a = tt
keep-All P p (x ∷ xs) a = elim (Bool-cases (p x)) [
  | inl t ↦ rw t ((a.0, t), keep-All P p xs a.1)
  | inr f ↦ rw f (keep-All P p xs a.1)
]
