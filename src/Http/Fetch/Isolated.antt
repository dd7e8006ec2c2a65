-- ===== src/Http/Fetch/Isolated.antt =====
-- Which reads of the admin pages pass the isolation (src/http/fetch.rs).
use kohaku.Base.{
  ◌≡◌, refl, ◌↔◌, ◌⊎◌, inl, inr, Bool, true, false, ◌||◌, List, [], ◌∷◌, arith, Bool-cases,
}
use kohaku.Base.Text.{Text, codes, text_eq}
use kohaku.Http.Fetch.{
  Headers, sec_fetch_site, sec_fetch_mode, only, single, is_read, is_admin, is_once,
  isolation_rules, admin_isolation_allows,
}
use kohaku.Http.Fetch.SameOrigin.{one}

-- What the two headers say of a read that no other site can make, except by navigation.
abbrev pub IsIsolated : List Text → List Text → Type 0
IsIsolated sites modes =
    (sites ≡ [])
    ⊎ ((sites ≡ (codes "same-origin" ∷ [])) ⊎ (sites ≡ (codes "none" ∷ [])))
    ⊎ (((sites ≡ (codes "same-site" ∷ [])) ⊎ (sites ≡ (codes "cross-site" ∷ [])))
        × (modes ≡ (codes "navigate" ∷ [])))

either : (a b : Bool) → (a || b) ≡ true → (a ≡ true) ⊎ (b ≡ true)
either true b e = inl refl
either false b e = inr e

is_once_sound : (values : List Text) (v : Text) → is_once (only values) v ≡ true → values ≡ (v ∷ [])
unfolding only
is_once_sound [] v e = absurd (ground (arith, e))
is_once_sound (x ∷ []) v e = one e
is_once_sound (x ∷ y ∷ z) v e = absurd (ground (arith, e))

named :
    (site a b : Text)
    → (text_eq site a || text_eq site b) ≡ true
    → ((site ∷ []) ≡ (a ∷ [])) ⊎ ((site ∷ []) ≡ (b ∷ []))
named site a b e = elim (either (text_eq site a) (text_eq site b) e) [
  | inl t ↦ inl (one t)
  | inr t ↦ inr (one t)
]

rules-IsIsolated :
    (sites modes : List Text)
    → isolation_rules (only sites) (only modes) ≡ true
    → IsIsolated sites modes
unfolding isolation_rules only
rules-IsIsolated [] modes e = inl refl
rules-IsIsolated (s ∷ t ∷ u) modes e = absurd (ground (arith, e))
rules-IsIsolated (s ∷ []) modes e =
    elim (Bool-cases (text_eq s (codes "same-origin") || text_eq s (codes "none"))) [
      | inl t ↦ inr (inl (named s (codes "same-origin") (codes "none") t))
      | inr f ↦
          elim (Bool-cases (text_eq s (codes "same-site") || text_eq s (codes "cross-site"))) [
            | inl t ↦ inr (
                inr (
                  named s (codes "same-site") (codes "cross-site") t,
                  is_once_sound modes (codes "navigate") (rw (f, t) at e),
                ))
            | inr g ↦ absurd (ground (arith, e, f, g))
          ]
    ]

IsIsolated-rules :
    (sites modes : List Text)
    → IsIsolated sites modes
    → isolation_rules (only sites) (only modes) ≡ true
unfolding isolation_rules only
IsIsolated-rules sites modes (inl s) = rw s refl
IsIsolated-rules sites modes (inr (inl (inl s))) = rw s refl
IsIsolated-rules sites modes (inr (inl (inr s))) = rw s refl
IsIsolated-rules sites modes (inr (inr (inl s, m))) = rw (s, m) refl
IsIsolated-rules sites modes (inr (inr (inr s, m))) = rw (s, m) refl

-- A GET or a HEAD of `/admin` or below passes exactly if `Sec-Fetch-Site` is missing, or once
-- `same-origin` or `none`, or is once `same-site` or `cross-site` while `Sec-Fetch-Mode` is once
-- `navigate`.
pub admin_isolation_allows_iff :
    (method path : Text) (headers : Headers)
    → is_read method ≡ true
    → is_admin path ≡ true
    → (admin_isolation_allows method path headers ≡ true)
      ↔ IsIsolated (headers sec_fetch_site) (headers sec_fetch_mode)
unfolding admin_isolation_allows single
admin_isolation_allows_iff method path headers r a =
    let sites = headers sec_fetch_site in
    let modes = headers sec_fetch_mode in
    rw (a, r) (rules-IsIsolated sites modes, IsIsolated-rules sites modes)
