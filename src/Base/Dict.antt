-- ===== src/Base/Dict.antt =====
-- `HashMap<String, V>` as an association list. Only `get` reads it.
use mathlib.Core.Path.{◌≡◌, refl}
use mathlib.Core.Option.{Option, none, some}
use mathlib.Core.List.{List, [], ◌∷◌}
use native.Mathlib.Omega.{arith}
use kohaku.Base.Tests.{if◌then◌else◌}
use kohaku.Base.Text.{Text, text_eq}
use kohaku.Base.Text.Equal.{text_eq_iff}

module _ {ℓ} {V : Type ℓ} where
  unfoldable pub get : Text → List (Text × V) → Option V
  get key [] = none
  get key ((k, v) ∷ m) = if text_eq k key then some v else get key m

  unfoldable pub insert : Text → V → List (Text × V) → List (Text × V)
  insert key v [] = (key, v) ∷ []
  insert key v ((k, w) ∷ m) = if text_eq k key then (k, v) ∷ m else (k, w) ∷ insert key v m

  pub get-insert :
      (key other : Text) (v : V) (m : List (Text × V))
      → get other (insert key v m) ≡ (if text_eq key other then some v else get other m)
  unfolding get insert
  get-insert key other v [] = refl
  get-insert key other v ((k, w) ∷ m) = ground (
    arith,
    get-insert key other v m,
    text_eq_iff k key,
    text_eq_iff k other,
    text_eq_iff key other,
  )
