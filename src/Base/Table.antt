-- ===== src/Base/Table.antt =====
-- A table as its list of rows, with the statements of SQL that the program uses.
use Prim.Native.Nat.{ℕ, max}
use mathlib.Core.Bool.{Bool, true, false, not}
use mathlib.Core.List.{List, [], ◌∷◌, map}
use mathlib.Core.Option.{Option, none, some}
use mathlib.Core.Path.{◌≡◌, refl, subst}
use native.Mathlib.Omega.{arith}
use kohaku.Base.Lists.{keep, any, All}
use kohaku.Base.Tests.{if◌then◌else◌, Bool-cases, some_inj}
use mathlib.Core.Logic.{inl, inr}

module _ {ℓ} {R : Type ℓ} where
  -- `UPDATE .. SET f WHERE p`.
  abbrev pub update : (R → Bool) → (R → R) → List R → List R
  update p f = map (λ r. if p r then f r else r)

  -- `DELETE .. WHERE p`.
  abbrev pub delete : (R → Bool) → List R → List R
  delete p = keep (λ r. not (p r))

  -- The row of a `SELECT .. WHERE p` that matches one row at most.
  unfoldable pub find : (R → Bool) → List R → Option R
  find p [] = none
  find p (r ∷ rs) = if p r then some r else find p rs

  -- The greatest id, for `INTEGER PRIMARY KEY`.
  unfoldable pub max_id : (R → ℕ) → List R → ℕ
  max_id id [] = 0
  max_id id (r ∷ rs) = max (id r) (max_id id rs)

  pub find-holds : (p : R → Bool) (rs : List R) (r : R) → find p rs ≡ some r → p r ≡ true
  unfolding find
  find-holds p [] r e = ground arith
  find-holds p (x ∷ rs) r e = ground (arith, find-holds p rs r)

  pub find-none : (p : R → Bool) (rs : List R) → any p rs ≡ false → find p rs ≡ none
  unfolding find
  find-none p [] e = refl
  find-none p (r ∷ rs) e = ground (arith, e, find-none p rs)

  pub find-any : (p : R → Bool) (rs : List R) (r : R) → find p rs ≡ some r → any p rs ≡ true
  unfolding find
  find-any p [] r e = absurd (ground (arith, e))
  find-any p (x ∷ rs) r e = ground (arith, e, find-any p rs r)

  pub find-All {κ} :
      (P : R → Type κ) (p : R → Bool) (rs : List R) (r : R) → find p rs ≡ some r → All P rs → P r
  unfolding find
  find-All P p [] r e a = absurd (ground (arith, e))
  find-All P p (x ∷ rs) r e a = elim (Bool-cases (p x)) [
    | inl t ↦ subst P (some_inj (rw t at e)) a.0
    | inr f ↦ find-All P p rs r (rw f at e) a.1
  ]
