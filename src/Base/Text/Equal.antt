-- ===== src/Base/Text/Equal.antt =====
-- `==` on texts decides equality.
use mathlib.Core.Path.{◌≡◌, refl, ap₂, sym}
use mathlib.Core.Logic.{◌↔◌, inl, inr}
use mathlib.Core.Bool.{true}
use mathlib.Core.List.{[], ◌∷◌}
use native.Mathlib.Omega.{arith}
use kohaku.Base.Tests.{◌==◌, ==_iff, Bool-cases}
use kohaku.Base.Text.{Text, text_eq}

pub text_eq_sound : (x y : Text) → text_eq x y ≡ true → x ≡ y
text_eq_sound [] [] e = refl
text_eq_sound [] (y ∷ ys) e = absurd (ground (arith, e))
text_eq_sound (x ∷ xs) [] e = absurd (ground (arith, e))
text_eq_sound (x ∷ xs) (y ∷ ys) e = elim (Bool-cases (x == y)) [
  | inl t ↦ elim (Bool-cases (text_eq xs ys)) [
    | inl u ↦ ap₂ (λ (a : _) (b : _). a ∷ b) ((==_iff x y).0 t) (text_eq_sound xs ys u)
    | inr u ↦ absurd (ground (arith, e, u))
  ]
  | inr f ↦ absurd (ground (arith, e, f))
]

pub text_eq_same : (x : Text) → text_eq x x ≡ true
text_eq_same [] = refl
text_eq_same (x ∷ xs) = ground (arith, text_eq_same xs)

pub text_eq_iff : (x y : Text) → (text_eq x y ≡ true) ↔ (x ≡ y)
text_eq_iff x y = (text_eq_sound x y, λ e. rw (← e) (text_eq_same x))

pub text_eq_sym : (x y : Text) → text_eq x y ≡ text_eq y x
text_eq_sym x y = elim (Bool-cases (text_eq x y)) [
  | inl t ↦ elim (Bool-cases (text_eq y x)) [
    | inl u ↦ rw (t, u) refl
    | inr u ↦ absurd (
        ground (arith, u, (text_eq_iff x y).0 t, (text_eq_iff y x).1 (sym ((text_eq_iff x y).0 t))))
  ]
  | inr t ↦ elim (Bool-cases (text_eq y x)) [
    | inl u ↦ absurd (ground (arith, t, (text_eq_iff x y).1 (sym ((text_eq_iff y x).0 u))))
    | inr u ↦ rw (t, u) refl
  ]
]
