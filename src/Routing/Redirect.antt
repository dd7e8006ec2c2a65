-- ===== src/Routing/Redirect.antt =====
-- src/projects/redirect.rs: `/p/{slug}/…` on the main host, to the project's custom domain. Whether
-- a text can be a header's value is an argument.
pub mod Domains
pub mod Canonical
use kohaku.Base.{
  ℕ, Bool, true, false, Option, none, some, List, [], ◌∷◌, ◌++◌, ◌||◌, ◌==◌, if◌then◌else◌,
}
use kohaku.Base.Text.{Text, codes, text_eq, starts_with, strip_prefix}
use kohaku.Routing.Hosts.{HostMap, domain}
use kohaku.Routing.Urls.{project_origin}

pub data Answer : Type 0 where
  not_found bad_request : Answer
  permanent_redirect : Text → Answer

-- `split_at` of the first `/`, or the end.
unfoldable pub split_at_slash : Text → Text × Text
split_at_slash [] = ([], [])
split_at_slash (c ∷ cs) =
    let rest = split_at_slash cs in if c == b'/' then ([], c ∷ cs) else (c ∷ rest.0, rest.1)

abbrev pub is_api : Text → Bool
is_api rest = text_eq rest (codes "/api") || starts_with rest (codes "/api/")

abbrev pub or_slash : Text → Text
or_slash [] = codes "/"
or_slash (c ∷ cs) = c ∷ cs

abbrev pub with_query : Option Text → Text
with_query none = []
with_query (some query) = b'?' ∷ query

unfoldable pub location : Text → Text → Option Text → Text
location host rest query = project_origin host ++ (or_slash rest ++ with_query query)

unfoldable pub to_domain : (Text → Bool) → HostMap → Option Text → Text × Text → Answer
to_domain is_value map query (slug, rest) =
    if is_api rest then not_found else elim (domain map slug) [
      | none ↦ not_found
      | some host ↦
          if is_value (location host rest query)
          then permanent_redirect (location host rest query)
          else bad_request
    ]

-- A request's path and query.
unfoldable pub canonical : (Text → Bool) → HostMap → Text → Option Text → Answer
canonical is_value map path query = elim (strip_prefix (codes "/p/") path) [
  | none ↦ not_found
  | some after ↦ to_domain is_value map query (split_at_slash after)
]
