-- ===== src/Routing/RateLayer.antt =====
-- `rate_layer` of src/routing/build.rs: one token from every class that covers the method.
use kohaku.Base.{ℕ, true, false, Option, none, some, List, [], ◌∷◌}
use kohaku.Limits.Address.{IpAddr}
use kohaku.Limits.Rate.{RateClass, Method, applies_to, class_demand, Limiter, admit}

-- The next layer answers, or 429 with the class, or 500 without a client's address.
pub data Passage : Type 0 where
  passed no_client : Passage
  limited : RateClass → Passage

unfoldable pub draw : List RateClass → Method → IpAddr → ℕ → Limiter → Limiter × Passage
draw [] method client now l = (l, passed)
draw (class ∷ classes) method client now l = elim (applies_to class method) [
  | false ↦ draw classes method client now l
  | true ↦ elim (admit l (class_demand class client) now).1 [
    | true ↦ draw classes method client now (admit l (class_demand class client) now).0
    | false ↦ ((admit l (class_demand class client) now).0, limited class)
  ]
]

unfoldable pub rate_layer :
    List RateClass → Method → Option IpAddr → ℕ → Limiter → Limiter × Passage
rate_layer classes method none now l = (l, no_client)
rate_layer classes method (some client) now l = draw classes method client now l
