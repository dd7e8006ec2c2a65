-- ===== src/Routing/Redirect/Canonical.antt =====
-- Which addresses are redirected, and where to (src/projects/redirect.rs).
use kohaku.Base.{
  ◌↔◌, ℕ, ◌≡◌, refl, sym, ap, ◌∙◌, subst, ◌⊎◌, inl, inr, Bool, true, false, Option, none, some, [],
  ◌∷◌, ◌++◌, arith, Bool-cases, Option-cases, any, ◌==◌,
}
use kohaku.Base.Text.{Text, codes, text_eq, starts_with, strip_prefix, starts_with_byte}
use kohaku.Base.Text.Prefix.{strip_prefix-append, strip_prefix_self}
use kohaku.Base.Unique.{IsUnique}
use kohaku.Config.BaseUrl.{BaseUrl}
use kohaku.Db.{Db}
use kohaku.Projects.Admin.Events.{IsStored}
use kohaku.Projects.{slug_column, find_slug}
use kohaku.Routing.Hosts.{HostMap, load, domain}
use kohaku.Routing.Redirect.{
  permanent_redirect, split_at_slash, is_api, location, to_domain, canonical,
}
use kohaku.Routing.Redirect.Domains.{domain_of, redirect_inj, domain-load}

abbrev is_slash : ℕ → Bool
is_slash c = c == b'/'

-- What follows the slug: nothing, or a path.
abbrev pub IsRest : Text → Type 0
IsRest rest = (rest ≡ []) ⊎ (starts_with_byte b'/' rest ≡ true)

split_at_slash-parts :
    (after : Text)
    → let parts = split_at_slash after in
      (after ≡ parts.0 ++ parts.1) × (any is_slash parts.0 ≡ false) × IsRest parts.1
unfolding split_at_slash
split_at_slash-parts [] = (refl, refl, inl refl)
split_at_slash-parts (c ∷ cs) =
    let (whole, clean, rest) = split_at_slash-parts cs in
    elim (Bool-cases (c == b'/')) [
      | inl t ↦ rw t (refl, refl, inr t)
      | inr f ↦ rw f (ap (λ l. c ∷ l) whole, rw f clean, rest)
    ]

split_at_slash-append :
    (slug rest : Text)
    → any is_slash slug ≡ false
    → IsRest rest
    → split_at_slash (slug ++ rest) ≡ (slug, rest)
unfolding split_at_slash
split_at_slash-append [] [] n r = refl
split_at_slash-append [] (c ∷ rest) n (inl e) = absurd (ground (arith, e))
split_at_slash-append [] (c ∷ rest) n (inr t) = rw t refl
split_at_slash-append (c ∷ slug) rest n r =
    let other : (c == b'/') ≡ false = ground (arith, n) in
    rw (other, split_at_slash-append slug rest (ground (arith, n)) r) refl

-- The address on a host of a path and a query, where the empty path is the root.
abbrev pub path_of : Text → Text
path_of [] = b'/' ∷ []
path_of (c ∷ rest) = c ∷ rest

abbrev pub query_of : Option Text → Text
query_of none = []
query_of (some query) = b'?' ∷ query

abbrev pub address_on : Text → Text → Option Text → Text
address_on host rest query = codes "https://" ++ (host ++ (path_of rest ++ query_of query))

location-address :
    (host rest : Text) (query : Option Text) → location host rest query ≡ address_on host rest query
unfolding location kohaku.Routing.Urls.project_origin
location-address host [] none = refl
location-address host (c ∷ rest) none = refl
location-address host [] (some q) = refl
location-address host (c ∷ rest) (some q) = refl

-- `/api` and everything below it.
abbrev pub IsOpen : Text → Type 0
IsOpen rest = (text_eq rest (codes "/api") ≡ false) × (starts_with rest (codes "/api/") ≡ false)

IsOpen-rest : (rest : Text) → is_api rest ≡ false → IsOpen rest
IsOpen-rest rest h = (ground (arith, h), ground (arith, h))

IsOpen-is_api : (rest : Text) → IsOpen rest → is_api rest ≡ false
IsOpen-is_api rest (a, b) = ground (arith, a, b)

to_domain-sent :
    (is_value : Text → Bool) (map : HostMap) (query : Option Text) (slug rest host : Text)
    → is_api rest ≡ false
    → domain map slug ≡ some host
    → is_value (location host rest query) ≡ true
    → to_domain is_value map query (slug, rest) ≡ permanent_redirect (location host rest query)
unfolding to_domain
to_domain-sent is_value map query slug rest host a d s = rw (a, d, s) refl

module _ (is_value : Text → Bool) (db : Db) (base_url : BaseUrl) (path : Text) (query : Option Text)
    (target : Text) where
  -- The path names a slug of the table and is not under `api`, and the target is the same path on
  -- the domain of that slug's project.
  abbrev pub IsRedirect : Type 0
  IsRedirect =
      (slug : Text) × (rest : Text) × (host : Text) × (path ≡ codes "/p/" ++ (slug ++ rest))
      × (any is_slash slug ≡ false)
      × IsRest rest
      × IsOpen rest
      × (domain_of (find_slug db slug) none ≡ some host)
      × (target ≡ address_on host rest query)
      × (is_value target ≡ true)

  to_domain-IsRedirect :
      (parts : Text × Text)
      → IsUnique slug_column db.projects
      → to_domain is_value (load db base_url) query parts ≡ permanent_redirect target
      → (host : Text) × (is_api parts.1 ≡ false)
        × (domain_of (find_slug db parts.0) none ≡ some host)
        × (target ≡ location host parts.1 query)
        × (is_value target ≡ true)
  unfolding to_domain
  to_domain-IsRedirect (slug, rest) u e = elim (Bool-cases (is_api rest)) [
    | inl t ↦ absurd (ground (arith, rw (to_domain, t) at e))
    | inr f ↦ elim (Option-cases (domain (load db base_url) slug)) [
      | inl n ↦ absurd (ground (arith, rw (to_domain, f, n) at e))
      | inr (host, d) ↦ elim (Bool-cases (is_value (location host rest query))) [
        | inr g ↦ absurd (ground (arith, rw (to_domain, f, d, g) at e))
        | inl t ↦
            let same : location host rest query ≡ target =
              redirect_inj (rw (to_domain, f, d, t) at e) in
            (
              host,
              f,
              sym (domain-load db base_url slug u) ∙ d,
              sym same,
              subst (λ l. is_value l ≡ true) same t,
            )
      ]
    ]
  ]

-- With the map of a valid table, `/p/{slug}/…` is redirected exactly if the slug's project has a
-- custom domain, the rest is neither `/api` nor below it and the address can be sent; that address is
-- `https://`, the domain, the rest of the path, or `/` if there is none, and the query if there is one.
pub canonical_iff :
    (is_value : Text → Bool) (db : Db) (base_url : BaseUrl) (path : Text) (query : Option Text)
    (target : Text)
    → IsStored base_url db
    → (canonical is_value (load db base_url) path query ≡ permanent_redirect target)
      ↔ IsRedirect is_value db base_url path query target
unfolding canonical
canonical_iff is_value db base_url path query target v = (there, back)
  where
    there :
        canonical is_value (load db base_url) path query ≡ permanent_redirect target
        → IsRedirect is_value db base_url path query target
    there e = elim (Option-cases (strip_prefix (codes "/p/") path)) [
      | inl n ↦ absurd (ground (arith, rw (canonical, n) at e))
      | inr (after, s) ↦
          let parts = split_at_slash after in
          let (whole, clean, rest) = split_at_slash-parts after in
          let (host, api, found, same, sent) =
            to_domain-IsRedirect is_value db base_url path query target parts v.slugs
              (rw (canonical, s) at e) in
          (
            parts.0,
            parts.1,
            host,
            strip_prefix-append (codes "/p/") path after s ∙ ap (λ t. codes "/p/" ++ t) whole,
            clean,
            rest,
            IsOpen-rest parts.1 api,
            found,
            same ∙ location-address host parts.1 query,
            sent,
          )
    ]

    back :
        IsRedirect is_value db base_url path query target
        → canonical is_value (load db base_url) path query ≡ permanent_redirect target
    back (slug, rest, host, whole, clean, r, allowed, found, address, sent) =
        let api = IsOpen-is_api rest allowed in
        let same : target ≡ location host rest query =
          address ∙ sym (location-address host rest query) in
        let sent_as : is_value (location host rest query) ≡ true =
          subst (λ l. is_value l ≡ true) same sent in
        ap (λ p. canonical is_value (load db base_url) p query) whole
        ∙ rw
            (
              canonical,
              strip_prefix_self (codes "/p/") (slug ++ rest),
              split_at_slash-append slug rest clean r,
            )
            (to_domain-sent is_value (load db base_url) query slug rest host api
                (domain-load db base_url slug v.slugs ∙ found) sent_as
              ∙ ap permanent_redirect (sym same))
