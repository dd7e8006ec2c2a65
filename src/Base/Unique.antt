-- ===== src/Base/Unique.antt =====
-- A column with a UNIQUE constraint: an optional text that no two rows of a table share.
use mathlib.Core.Path.{◌≡◌, refl, ap, sym, ◌∙◌}
use mathlib.Core.Logic.{inl, inr}
use mathlib.Core.Bool.{Bool, true, false, not, ◌&&◌, ◌||◌}
use mathlib.Core.List.{List, [], ◌∷◌, ◌++◌}
use mathlib.Core.Option.{Option, none, some}
use native.Mathlib.Omega.{arith}
use kohaku.Base.Tests.{Bool-cases, is_some_and}
use kohaku.Base.Lists.{any, keep}
use kohaku.Base.Table.{update}
use kohaku.Base.Text.{Text, text_eq}
use kohaku.Base.Text.Equal.{text_eq_sym}

module _ {R : Type 0} (column : R → Option Text) where
  abbrev pub has : Option Text → R → Bool
  has none r = false
  has (some value) r = is_some_and (column r) (λ v. text_eq v value)

  -- Whether a row has a value; NULL is never taken.
  abbrev pub taken : Option Text → List R → Bool
  taken value = any (has value)

  abbrev pub IsUnique : List R → Type 0
  IsUnique [] = Unit
  IsUnique (r ∷ rs) = (taken (column r) rs ≡ false) × IsUnique rs

  has_value : Option Text → Option Text → Bool
  has_value none v = false
  has_value (some value) v = is_some_and v (λ w. text_eq w value)

  has-has_value : (value : Option Text) (r : R) → has value r ≡ has_value value (column r)
  unfolding has_value
  has-has_value none r = refl
  has-has_value (some v) r = refl

  has_value_sym : (a b : Option Text) → has_value a b ≡ has_value b a
  unfolding has_value
  has_value_sym none none = refl
  has_value_sym none (some y) = refl
  has_value_sym (some x) none = refl
  has_value_sym (some x) (some y) = text_eq_sym y x

  has_sym : (r s : R) → has (column r) s ≡ has (column s) r
  has_sym r s =
      has-has_value (column r) s
      ∙ (has_value_sym (column r) (column s) ∙ sym (has-has_value (column s) r))

  taken-append :
      (value : Option Text) (rs : List R) (r : R)
      → taken value (rs ++ (r ∷ [])) ≡ (taken value rs || has value r)
  taken-append value [] r = ground arith
  taken-append value (s ∷ rs) r = ground (arith, taken-append value rs r)

  pub IsUnique-append :
      (rs : List R) (r : R) → IsUnique rs → taken (column r) rs ≡ false → IsUnique (rs ++ (r ∷ []))
  IsUnique-append [] r u t = (refl, tt)
  IsUnique-append (s ∷ rs) r u t = (
    ground (arith, taken-append (column s) rs r, has_sym s r, u.0),
    IsUnique-append rs r u.1 (ground (arith, t)),
  )

  taken-keep :
      (p : R → Bool) (value : Option Text) (rs : List R)
      → taken value rs ≡ false
      → taken value (keep p rs) ≡ false
  taken-keep p value [] t = refl
  taken-keep p value (r ∷ rs) t = ground (arith, taken-keep p value rs)

  pub IsUnique-keep : (p : R → Bool) (rs : List R) → IsUnique rs → IsUnique (keep p rs)
  IsUnique-keep p [] u = tt
  IsUnique-keep p (r ∷ rs) u = elim (Bool-cases (p r)) [
    | inl t ↦ rw t (taken-keep p (column r) rs u.0, IsUnique-keep p rs u.1)
    | inr f ↦ rw f (IsUnique-keep p rs u.1)
  ]

-- At most one row is picked.
abbrev pub Once : {R : Type 0} → (R → Bool) → List R → Type 0
Once q [] = Unit
Once q (r ∷ rs) = (q r ≡ true → any q rs ≡ false) × Once q rs

module _ {R : Type 0} (column : R → Option Text) (q : R → Bool) (f : R → R) where
  pub update_none : (rs : List R) → any q rs ≡ false → update q f rs ≡ rs
  update_none [] n = refl
  update_none (r ∷ rs) n =
      let first : q r ≡ false = ground (arith, n) in
      rw first (ap (λ l. r ∷ l) (update_none rs (ground (arith, n))))

  module _ (new : Option Text) (set : (r : R) → column (f r) ≡ new) where
    taken_others :
        (rs : List R)
        → any q rs ≡ false
        → any (λ r. not (q r) && has column new r) rs ≡ false
        → taken column new rs ≡ false
    taken_others [] n t = refl
    taken_others (r ∷ rs) n t = ground (arith, taken_others rs)

    taken-update :
        (s : R) (rs : List R)
        → taken column (column s) rs ≡ false
        → has column new s ≡ false
        → taken column (column s) (update q f rs) ≡ false
    taken-update s [] t h = refl
    taken-update s (r ∷ rs) t h = elim (Bool-cases (q r)) [
      | inl y ↦ rw y (ground (arith, has_sym column s (f r), set r, t, h, taken-update s rs))
      | inr n ↦ rw n (ground (arith, t, taken-update s rs))
    ]

    -- A row is given a value that no other row has.
    pub IsUnique-update :
        (rs : List R)
        → IsUnique column rs
        → Once q rs
        → any (λ r. not (q r) && has column new r) rs ≡ false
        → IsUnique column (update q f rs)
    IsUnique-update [] u o t = tt
    IsUnique-update (r ∷ rs) u o t = elim (Bool-cases (q r)) [
      | inl y ↦
          let others : any (λ r. not (q r) && has column new r) rs ≡ false = ground (arith, t) in
          rw (y, update_none rs (o.0 y), set r) (taken_others rs (o.0 y) others, u.1)
      | inr n ↦ rw n (
        taken-update r rs u.0 (ground (arith, t, n)),
        IsUnique-update rs u.1 o.1 (ground (arith, t)),
      )
    ]
