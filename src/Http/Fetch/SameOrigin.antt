-- ===== src/Http/Fetch/SameOrigin.antt =====
-- Which state-changing requests reach their route (src/http/fetch.rs).
use kohaku.Base.{
  ◌≡◌, refl, ◌↔◌, ◌⊎◌, inl, inr, Bool, true, false, ◌&&◌, Option, none, some, List, [], ◌∷◌, arith,
  Bool-cases, ap,
}
use kohaku.Base.Text.{Text, codes, text_eq}
use kohaku.Base.Text.Equal.{text_eq_sound, text_eq_same}
use kohaku.Http.Fetch.{
  Headers, Headerless, not_exempt, exempt, reached, sec_fetch_site, origin_header, only, single,
  rules, origin_allowed, is_read, origin_layer,
}

-- What the two headers say of a request that comes from the site itself.
abbrev pub IsSameOrigin : Headerless → Text → List Text → List Text → Type 0
IsSameOrigin headerless expected sites origins =
    ((sites ≡ (codes "same-origin" ∷ [])) × ((origins ≡ []) ⊎ (origins ≡ (expected ∷ []))))
    ⊎ ((sites ≡ []) × ((origins ≡ (expected ∷ [])) ⊎ ((origins ≡ []) × (headerless ≡ exempt))))

pub one : {x y : Text} → text_eq x y ≡ true → (x ∷ []) ≡ (y ∷ [])
one {x} {y} e = ap (λ t. t ∷ []) (text_eq_sound x y e)

both : (a b : Bool) → (a && b) ≡ true → (a ≡ true) × (b ≡ true)
both true b e = (refl, e)
both false b e = absurd (ground (arith, e))

rules-IsSameOrigin :
    (headerless : Headerless) (expected : Text) (sites origins : List Text)
    → rules (only sites) (only origins) expected headerless ≡ true
    → IsSameOrigin headerless expected sites origins
unfolding rules only
rules-IsSameOrigin h x (s ∷ t ∷ u) o e = absurd (ground (arith, e))
rules-IsSameOrigin h x (s ∷ []) (o ∷ p ∷ q) e = absurd (ground (arith, e))
rules-IsSameOrigin h x (s ∷ []) (o ∷ []) e =
    let p = both (text_eq s (codes "same-origin")) (text_eq o x) e in inl (one p.0, inr (one p.1))
rules-IsSameOrigin h x (s ∷ []) [] e =
    let p = both (text_eq s (codes "same-origin")) true e in inl (one p.0, inl refl)
rules-IsSameOrigin h x [] (o ∷ p ∷ q) e = absurd (ground (arith, e))
rules-IsSameOrigin h x [] (o ∷ []) e = inr (refl, inl (one e))
rules-IsSameOrigin not_exempt x [] [] e = absurd (ground (arith, e))
rules-IsSameOrigin exempt x [] [] e = inr (refl, inr (refl, refl))

IsSameOrigin-rules :
    (headerless : Headerless) (expected : Text) (sites origins : List Text)
    → IsSameOrigin headerless expected sites origins
    → rules (only sites) (only origins) expected headerless ≡ true
unfolding rules only
IsSameOrigin-rules h x sites origins (inl (s, inl o)) = rw (s, o) refl
IsSameOrigin-rules h x sites origins (inl (s, inr o)) = rw (s, o) (text_eq_same x)
IsSameOrigin-rules h x sites origins (inr (s, inl o)) = rw (s, o) (text_eq_same x)
IsSameOrigin-rules h x sites origins (inr (s, inr (o, e))) = rw (s, o, e) refl

-- The host of a request has an origin with a property.
abbrev pub On : (Text → Type 0) → Option Text → Type 0
On P none = true ≡ false
On P (some expected) = P expected

-- A request reaches its route exactly if it is a GET or a HEAD, or its host is routed and either
-- `Sec-Fetch-Site` is once `same-origin` and `Origin` is missing or once the host's origin, or
-- `Sec-Fetch-Site` is missing and `Origin` is once the host's origin or, on an exempt route,
-- missing.
pub origin_layer_iff :
    (headerless : Headerless) (method : Text) (host : Option Text) (headers : Headers)
    → (origin_layer headerless method host headers ≡ reached) ↔ (
        (is_read method ≡ true)
        ⊎ On
            (λ expected.
              IsSameOrigin headerless expected (headers sec_fetch_site) (headers origin_header))
            host)
unfolding origin_layer origin_allowed single
origin_layer_iff headerless method none headers = elim (Bool-cases (is_read method)) [
  | inl t ↦ rw t ((λ e. inl refl), (λ h. refl))
  | inr f ↦ rw f (
    (λ e. absurd (ground (arith, e))),
    (λ h. elim h [ inl t ↦ absurd (ground (arith, t, f)) | inr n ↦ absurd (ground (arith, n)) ]),
  )
]
origin_layer_iff headerless method (some expected) headers =
    let sites = headers sec_fetch_site in
    let origins = headers origin_header in
    elim (Bool-cases (is_read method)) [
      | inl t ↦ rw t ((λ e. inl refl), (λ h. refl))
      | inr f ↦ elim (Bool-cases (rules (only sites) (only origins) expected headerless)) [
        | inl t ↦
            rw (f, t)
              ((λ e. inr (rules-IsSameOrigin headerless expected sites origins t)), (λ h. refl))
        | inr g ↦
            rw (f, g)
              (
                (λ e. absurd (ground (arith, e))),
                (λ h. elim h [
                  | inl t ↦ absurd (ground (arith, t, f))
                  | inr same ↦
                      absurd (
                        ground
                          (arith, g, IsSameOrigin-rules headerless expected sites origins same))
                ]),
              )
      ]
    ]
