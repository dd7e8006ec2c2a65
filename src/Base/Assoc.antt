-- ===== src/Base/Assoc.antt =====
-- `HashMap` as an association list over keys with a decidable equality. The order of the entries
-- is not observable: a client reads `get`, `contains_key` and the length only.
pub mod Retain
use mathlib.Core.Path.{◌≡◌, refl}
use mathlib.Core.Logic.{ite, ◌≢◌}
use mathlib.Core.Bool.{Bool}
use mathlib.Core.Option.{Option, none, some}
use mathlib.Core.List.{List, [], ◌∷◌}
use native.Mathlib.Omega.{arith}
use Prim.Native.Nat.{suc}
use kohaku.Base.Lists.{length, keep}
use kohaku.Base.Tests.{is_some}

module _ {ℓ} {K V : Type ℓ} (dec : Discrete K) where
  unfoldable pub get : K → List (K × V) → Option V
  get k [] = none
  get k ((j, v) ∷ m) = ite (dec j k) (some v) (get k m)

  -- Replaces the value of a key that is there, and adds one that is not.
  unfoldable pub insert : K → V → List (K × V) → List (K × V)
  insert k v [] = (k, v) ∷ []
  insert k v ((j, w) ∷ m) = ite (dec j k) ((j, v) ∷ m) ((j, w) ∷ insert k v m)

  abbrev pub contains_key : K → List (K × V) → Bool
  contains_key k m = is_some (get k m)

  -- `HashMap::retain` by the value.
  abbrev pub retain : (V → Bool) → List (K × V) → List (K × V)
  retain p = keep (λ e. p e.1)

  pub get-insert :
      (k j : K) (v : V) (m : List (K × V)) → get j (insert k v m) ≡ ite (dec k j) (some v) (get j m)
  unfolding get insert
  get-insert k j v [] = refl
  get-insert k j v ((i, w) ∷ m) = ground (arith, get-insert k j v m)

  pub length-insert_new :
      (k : K) (v : V) (m : List (K × V)) → get k m ≡ none → length (insert k v m) ≡ suc (length m)
  unfolding get insert
  length-insert_new k v [] h = refl
  length-insert_new k v ((j, w) ∷ m) h = ground (arith, length-insert_new k v m)

  pub length-insert_old :
      (k : K) (v : V) (m : List (K × V)) → get k m ≢ none → length (insert k v m) ≡ length m
  unfolding get insert
  length-insert_old k v [] h = absurd (h refl)
  length-insert_old k v ((j, w) ∷ m) h = ground (arith, length-insert_old k v m)

  -- No key stands twice.
  abbrev pub Distinct : List (K × V) → Type ℓ
  Distinct [] = Unit
  Distinct ((k, v) ∷ m) = (get k m ≡ none) × Distinct m

  pub get_here : (k j : K) (v : V) (m : List (K × V)) → k ≡ j → get j ((k, v) ∷ m) ≡ some v
  unfolding get
  get_here k j v m e = ground arith

  pub get_there : (k j : K) (v : V) (m : List (K × V)) → k ≢ j → get j ((k, v) ∷ m) ≡ get j m
  unfolding get
  get_there k j v m e = ground arith
