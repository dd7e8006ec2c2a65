-- ===== src/Routing/Hosts.antt =====
-- src/routing/hosts.rs: the name a request asks for, and the map from names to routers. The
-- conversion of a header's value to text, which refuses bytes that are not visible, is an argument.
pub mod Loaded
use kohaku.Base.{
  ℕ, Bool, true, false, not, ◌&&◌, Option, none, some, List, [], ◌∷◌, all, if◌then◌else◌,
}
use kohaku.Base.Dict
use kohaku.Base.Text.{Text, is_empty, is_ascii_digit, rsplit_once, to_ascii_lowercase}
use kohaku.Config.BaseUrl.{BaseUrl}
use kohaku.Db.{Db, ProjectRow}

pub data HostEntry : Type 0 where
  main : HostEntry
  project : ℕ → HostEntry

unfoldable pub without_port : Text → Text
without_port host = elim (rsplit_once b':' host) [
  | none ↦ host
  | some (name, port) ↦ if not (is_empty port) && all is_ascii_digit port then name else host
]

unfoldable pub normalize : Text → Text
normalize host = to_ascii_lowercase (without_port host)

abbrev non_empty_host : Text → Option Text
non_empty_host text = if is_empty text then none else some (normalize text)

-- From the values of the `Host` header.
unfoldable pub request_host : (Text → Option Text) → List Text → Option Text
request_host to_str [] = none
request_host to_str (value ∷ []) = elim (to_str value) [
  | none ↦ none
  | some text ↦ non_empty_host text
]
request_host to_str (value ∷ other ∷ more) = none

pub record HostMap : Type 0 where
  pub entries : List (Text × HostEntry)
  pub domains : List (Text × Text)

abbrev pub new_map : BaseUrl → HostMap
new_map base_url = record { entries = Dict.insert base_url.host main []; domains = [] }

abbrev pub with_project : HostMap → Text → ℕ → HostMap
with_project map host id = record map { entries = Dict.insert host (project id) map.entries }

abbrev pub with_domain : HostMap → Text → Text → HostMap
with_domain map slug host = record map { domains = Dict.insert slug host map.domains }

abbrev pub get : HostMap → Text → Option HostEntry
get map host = Dict.get host map.entries

abbrev pub domain : HostMap → Text → Option Text
domain map slug = Dict.get slug map.domains

abbrev pub add_row : HostMap → Option Text → ProjectRow → HostMap
add_row map none p = map
add_row map (some host) p = with_domain (with_project map host p.id) p.slug host

-- The loop of `load` over the rows; those without a host are not selected.
unfoldable pub load_rows : HostMap → List ProjectRow → HostMap
load_rows map [] = map
load_rows map (p ∷ rows) = load_rows (add_row map p.settings.public_host p) rows

unfoldable pub load : Db → BaseUrl → HostMap
load db base_url = load_rows (new_map base_url) db.projects
