-- ===== src/Routing/Internal/Asked.antt =====
-- Which domains may get a certificate (src/routing/internal.rs).
use kohaku.Base.{
  ℕ, ◌≡◌, refl, sym, ap, ◌∙◌, subst, inl, inr, ◌↔◌, Bool, true, false, Option, none, some, List, [],
  ◌∷◌, any, arith, Bool-cases, Option-cases, if◌then◌else◌, some_inj,
}
use kohaku.Base.Table.{find}
use kohaku.Base.Text.{Text, text_eq, is_empty, split}
use kohaku.Base.Unique.{taken, IsUnique}
use kohaku.Config.BaseUrl.{BaseUrl}
use kohaku.Db.{Db, ProjectRow}
use kohaku.Projects.{host_column}
use kohaku.Projects.Admin.{App, tick}
use kohaku.Projects.Admin.Published.{run-IsPublished, tick-hosts}
use kohaku.Projects.Admin.Events.{Event, run, IsPublished}
use kohaku.Routing.Hosts.{HostEntry, main, load, normalize}
use kohaku.Routing.Hosts.Loaded.{entry_of, get-load}
use kohaku.Routing.Internal.{
  name_value, is_domain, find_domain, is_project, is_known, percent_decode, decoded, single_domain,
  tls_ask,
}

-- The values of all parameters named `domain`.
abbrev pub domain_values : List Text → List Text
domain_values [] = []
domain_values (pair ∷ pairs) =
    let rest = domain_values pairs in if is_domain pair then (name_value pair).1 ∷ rest else rest

-- The one element of a list of one.
abbrev pub only : List Text → Option Text
only [] = none
only (value ∷ []) = some value
only (value ∷ other ∷ more) = none

find_domain-again :
    (value : Text) (pairs : List Text)
    → find_domain (some value) pairs ≡ only (value ∷ domain_values pairs)
unfolding find_domain
find_domain-again value [] = refl
find_domain-again value (pair ∷ pairs) = elim (Bool-cases (is_domain pair)) [
  | inl t ↦ rw (find_domain, t) refl
  | inr f ↦ rw (find_domain, f) (find_domain-again value pairs)
]

find_domain-only : (pairs : List Text) → find_domain none pairs ≡ only (domain_values pairs)
unfolding find_domain
find_domain-only [] = refl
find_domain-only (pair ∷ pairs) = elim (Bool-cases (is_domain pair)) [
  | inl t ↦ rw (find_domain, t) (find_domain-again (name_value pair).1 pairs)
  | inr f ↦ rw (find_domain, f) (find_domain-only pairs)
]

found-any :
    (p : ProjectRow → Bool) (rows : List ProjectRow) (before : Option HostEntry)
    → is_project before ≡ false
    → is_project (entry_of (find p rows) before) ≡ any p rows
unfolding find
found-any p [] before b = b
found-any p (row ∷ rows) before b = elim (Bool-cases (p row)) [
  | inl t ↦ rw t refl
  | inr f ↦ rw f (found-any p rows before b)
]

main_or_none : (b : Bool) → is_project (if b then some main else none) ≡ false
main_or_none true = refl
main_or_none false = refl

only-eq-some : (values : List Text) (value : Text) → only values ≡ some value → values ≡ value ∷ []
only-eq-some [] value e = absurd (ground (arith, e))
only-eq-some (v ∷ []) value e = ap (λ w. w ∷ []) (some_inj e)
only-eq-some (v ∷ w ∷ more) value e = absurd (ground (arith, e))

module _ (from_utf8 : List ℕ → Option Text) (db : Db) (query : Text) where
  -- The query has one `domain`, whose decoded value is the host of a project in any case, with a
  -- port or without one.
  abbrev pub IsAsked : Type 0
  IsAsked =
      (value : Text) × (domain : Text) × (domain_values (split b'&' query) ≡ value ∷ [])
      × (percent_decode from_utf8 value ≡ some domain)
      × (is_empty domain ≡ false)
      × (taken host_column (some (normalize domain)) db.projects ≡ true)

  load-known :
      (base_url : BaseUrl) (domain : Text)
      → IsUnique host_column db.projects
      → is_known (load db base_url) (some domain)
        ≡ taken host_column (some (normalize domain)) db.projects
  load-known base_url domain u =
      rw (get-load db base_url (normalize domain) u)
        (found-any _ db.projects _ (main_or_none (text_eq base_url.host (normalize domain))))

  single_domain-only :
      single_domain from_utf8 query ≡ decoded from_utf8 (only (domain_values (split b'&' query)))
  unfolding single_domain
  single_domain-only = ap (decoded from_utf8) (find_domain-only (split b'&' query))

  asked :
      (base_url : BaseUrl)
      → IsUnique host_column db.projects
      → is_known (load db base_url) (decoded from_utf8 (only (domain_values (split b'&' query))))
        ≡ true
      → IsAsked
  asked base_url u k = elim (Option-cases (only (domain_values (split b'&' query)))) [
    | inl n ↦ absurd (ground (arith, rw n at k))
    | inr (value, v) ↦ elim (Option-cases (percent_decode from_utf8 value)) [
      | inl n ↦ absurd (ground (arith, rw (v, n) at k))
      | inr (domain, d) ↦ elim (Bool-cases (is_empty domain)) [
        | inl t ↦ absurd (ground (arith, rw (v, d, t) at k))
        | inr f ↦ (
          value,
          domain,
          only-eq-some _ value v,
          d,
          f,
          sym (load-known base_url domain u) ∙ (rw (v, d, f) at k),
        )
      ]
    ]
  ]

  tls_ask-load :
      (base_url : BaseUrl)
      → IsUnique host_column db.projects
      → (tls_ask from_utf8 (load db base_url) (some query) ≡ true) ↔ IsAsked
  unfolding tls_ask
  tls_ask-load base_url u = (
    λ a. asked base_url u (ap (is_known (load db base_url)) (sym single_domain-only) ∙ a),
    λ (value, domain, one, d, f, t).
        rw (single_domain-only, one, d, f) (load-known base_url domain u ∙ t),
  )

-- After any sequence of project forms, commands, other commits and ticks of the watcher, one tick
-- that succeeds makes the TLS ask answer 200 exactly if its query has one parameter `domain`, the
-- value decodes to a text that is not empty, and the table has a project with that text as its custom
-- domain, whatever the case of its letters, with a port or without one.
pub tls_ask-run_iff :
    (from_utf8 : List ℕ → Option Text) (base_url : BaseUrl) (app : App) (events : List Event)
    (query : Text)
    → IsPublished base_url app
    → let after = tick base_url true (run base_url app events) in
      (tls_ask from_utf8 after.hosts (some query) ≡ true) ↔ IsAsked from_utf8 after.db query
unfolding tick
tls_ask-run_iff from_utf8 base_url app events query p =
    let ran = run-IsPublished base_url app events p in
    subst
      (λ map.
        (tls_ask from_utf8 map (some query) ≡ true)
        ↔ IsAsked from_utf8 (run base_url app events).db query)
      (sym (tick-hosts base_url (run base_url app events) ran))
      (tls_ask-load from_utf8 (run base_url app events).db query base_url ran.stored.hosts)
