-- ===== src/Base/Text/Prefix.antt =====
-- A prefix that is taken off, and a text split at a byte, put together again.
use mathlib.Core.Path.{◌≡◌, refl, ap}
use mathlib.Core.Logic.{inl, inr}
use mathlib.Core.Option.{Option, some}
use mathlib.Core.List.{[], ◌∷◌, ◌++◌}
use native.Mathlib.Omega.{arith}
use Prim.Native.Nat.{ℕ}
use kohaku.Base.Tests.{◌==◌, ==_iff, Bool-cases, Option-cases}
use kohaku.Base.Text.{Text, strip_prefix, split_once}

pub strip_prefix-append : (p text rest : Text) → strip_prefix p text ≡ some rest → text ≡ p ++ rest
unfolding strip_prefix
strip_prefix-append [] text rest e = ground (arith, e)
strip_prefix-append (c ∷ p) [] rest e = absurd (ground (arith, e))
strip_prefix-append (c ∷ p) (x ∷ text) rest e =
    ground (arith, ==_iff x c, strip_prefix-append p text rest)

pub some_pair :
    {A B : Type 0} {a c : A} {b d : B}
    → ◌≡◌ {A = Option (A × B)} (some (a, b)) (some (c, d))
    → (a ≡ c) × (b ≡ d)
some_pair e = (cc, cc)

pub split_once-append :
    (c : ℕ) (text a b : Text) → split_once c text ≡ some (a, b) → text ≡ a ++ (c ∷ b)
unfolding split_once
split_once-append c [] a b e = absurd (ground (arith, e))
split_once-append c (x ∷ text) a b e = elim (Bool-cases (x == c)) [
  | inl t ↦ let (empty, rest) = some_pair (rw t at e) in rw (← empty, ← rest, (==_iff x c).0 t) refl
  | inr f ↦ elim (Option-cases (split_once c text)) [
    | inl n ↦ absurd (ground (arith, e, f, n))
    | inr ((before, after), s) ↦
        let (front, rest) = some_pair (rw (f, s) at e) in
        rw (← front, ← rest) (ap (λ l. x ∷ l) (split_once-append c text before after s))
  ]
]

pub strip_prefix_self : (p text : Text) → strip_prefix p (p ++ text) ≡ some text
unfolding strip_prefix
strip_prefix_self [] text = refl
strip_prefix_self (c ∷ p) text = rw ((==_iff c c).1 refl) (strip_prefix_self p text)
