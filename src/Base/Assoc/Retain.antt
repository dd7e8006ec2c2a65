-- ===== src/Base/Assoc/Retain.antt =====
-- Distinct keys under the writes of a map, and reading after `retain`.
use kohaku.Base.Assoc.{get, insert, retain, get-insert, Distinct}
use kohaku.Base.Tests.{if◌then◌else◌}
use mathlib.Core.Bool.{Bool}
use mathlib.Core.List.{List, [], ◌∷◌}
use mathlib.Core.Option.{Option, none, some}
use mathlib.Core.Path.{◌≡◌, refl}
use native.Mathlib.Omega.{arith}

-- `Option::filter`.
abbrev pub keep_some {ℓ} : {A : Type ℓ} → (A → Bool) → Option A → Option A
keep_some p none = none
keep_some p (some a) = if p a then some a else none

module _ {ℓ} {K V : Type ℓ} (dec : Discrete K) where
  pub Distinct-insert :
      (k : K) (v : V) (m : List (K × V)) → Distinct dec m → Distinct dec (insert dec k v m)
  unfolding insert get
  Distinct-insert k v [] d = (refl, tt)
  Distinct-insert k v ((j, w) ∷ m) d = elim (dec j k) [
    | yes e ↦ ground arith
    | no e ↦ ground (arith, Distinct-insert k v m d.1, get-insert dec k j v m)
  ]

  get-retain-none :
      (p : V → Bool) (k : K) (m : List (K × V))
      → get dec k m ≡ none
      → get dec k (retain dec p m) ≡ none
  unfolding get
  get-retain-none p k [] h = refl
  get-retain-none p k ((j, v) ∷ m) h = ground (arith, get-retain-none p k m)

  pub get-retain :
      (p : V → Bool) (k : K) (m : List (K × V))
      → Distinct dec m
      → get dec k (retain dec p m) ≡ keep_some p (get dec k m)
  unfolding get
  get-retain p k [] d = refl
  get-retain p k ((j, v) ∷ m) d = ground (arith, d.0, get-retain p k m d.1, get-retain-none p k m)

  pub Distinct-retain :
      (p : V → Bool) (m : List (K × V)) → Distinct dec m → Distinct dec (retain dec p m)
  Distinct-retain p [] d = tt
  Distinct-retain p ((j, v) ∷ m) d =
      ground (arith, d.0, Distinct-retain p m d.1, get-retain-none p j m)
