-- ===== src/Routing/Dispatch.antt =====
-- `Dispatcher::call` of src/routing/build.rs: which router a request reaches, from the internal
-- paths and the map of hosts alone.
pub mod Routed
use kohaku.Base.{ℕ, Bool, true, false, Option, none, some, List, [], ◌∷◌, any, if◌then◌else◌}
use kohaku.Base.Text.{Text, codes, text_eq}
use kohaku.Config.BaseUrl.{BaseUrl}
use kohaku.Http.Fetch.{Headers, admin_isolation_allows}
use kohaku.Routing.Hosts.{HostEntry, main, project, HostMap, get, request_host}
use kohaku.Routing.Urls.{main_origin, project_origin}

pub record Request : Type 0 where
  pub method : Text
  pub path : Text
  pub headers : Headers

-- A router with the origin that its requests are to come from, 421 for a host that is not known,
-- or 403 for a read of the admin pages by another site.
pub data Outcome : Type 0 where
  internal misdirected isolated : Outcome
  main_router : Text → Outcome
  project_router : ℕ → Text → Outcome

abbrev pub host_header : Text
host_header = codes "host"

unfoldable pub is_internal : List Text → Text → Bool
is_internal internal_paths path = any (λ p. text_eq p path) internal_paths

-- The router of a host that the map knows.
unfoldable pub to_router : BaseUrl → Request → Text → HostEntry → Outcome
to_router base_url request host main =
    if admin_isolation_allows request.method request.path request.headers
    then main_router (main_origin base_url)
    else isolated
to_router base_url request host (project id) = project_router id (project_origin host)

abbrev pub by_entry : BaseUrl → Request → Text → Option HostEntry → Outcome
by_entry base_url request host none = misdirected
by_entry base_url request host (some entry) = to_router base_url request host entry

abbrev pub by_host : BaseUrl → HostMap → Request → Option Text → Outcome
by_host base_url map request none = misdirected
by_host base_url map request (some host) = by_entry base_url request host (get map host)

unfoldable pub dispatch : (Text → Option Text) → List Text → BaseUrl → HostMap → Request → Outcome
dispatch to_str internal_paths base_url map request =
    if is_internal internal_paths request.path
    then internal
    else by_host base_url map request (request_host to_str (request.headers host_header))
