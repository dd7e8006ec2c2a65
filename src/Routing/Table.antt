-- ===== src/Routing/Table.antt =====
-- src/routing/table.rs: every route with its declarations, in a build without `dev`. A handler is
-- left out of its method router; what is kept is which methods have one.
pub mod Drawn
use kohaku.Base.{Bool, true, false, List, [], ◌∷◌, ◌++◌, map}
use kohaku.Base.Text.{Text, codes}
use kohaku.Limits.Rate.{
  RateClass, read, login, reset, Method, method_get, method_head, method_post, method_other,
}

pub data HostKind : Type 0 where
  internal_host main_host project_host both_hosts : HostKind

pub data RoutePath : Type 0 where
  pattern_path : Text → RoutePath
  fallback : RoutePath

pub data Access : Type 0 where
  public session admin : Access

pub data CacheClass : Type 0 where
  no_store no_cache static_asset canonical_redirect : CacheClass

pub data Csp : Type 0 where
  release : Csp

pub data BodyClass : Type 0 where
  default_body : BodyClass

pub data Multipart : Type 0 where
  rejected : Multipart

pub data Headerless : Type 0 where
  not_exempt exempt : Headerless

pub data ErrorFormat : Type 0 where
  html json : ErrorFormat

-- The methods that have a handler, and whether the others have a fallback of the route.
pub record MethodRouter : Type 0 where
  pub handled : List Method
  pub falls_back : Bool

-- `get` answers `HEAD` as well.
abbrev get : MethodRouter
get = record { handled = method_get ∷ method_head ∷ []; falls_back = false }

abbrev post : MethodRouter
post = record { handled = method_post ∷ []; falls_back = false }

abbrev get_post : MethodRouter
get_post = record { handled = method_get ∷ method_head ∷ method_post ∷ []; falls_back = false }

abbrev any_method : MethodRouter
any_method = record {
  handled = method_get ∷ method_head ∷ method_post ∷ method_other ∷ [];
  falls_back = false;
}

abbrev get_or_fallback : MethodRouter
get_or_fallback = record get { falls_back = true }

pub record Route : Type 0 where
  pub host : HostKind
  pub path : RoutePath
  pub methods : MethodRouter
  pub access : Access
  pub cache : CacheClass
  pub csp : Csp
  pub body : BodyClass
  pub multipart : Multipart
  pub headerless : Headerless
  pub rate : List RateClass
  pub errors : ErrorFormat

-- What every route of the table declares alike is written once.
abbrev route :
    HostKind → RoutePath → MethodRouter → Access → CacheClass → List RateClass → ErrorFormat → Route
route host path methods access cache rate errors = record {
  host = host;
  path = path;
  methods = methods;
  access = access;
  cache = cache;
  csp = release;
  body = default_body;
  multipart = rejected;
  headerless = not_exempt;
  rate = rate;
  errors = errors;
}

abbrev admin_route : Text → MethodRouter → Access → List RateClass → Route
admin_route path methods access rate =
    route main_host (pattern_path path) methods access no_store rate html

abbrev pub login_route : Route
login_route = admin_route (codes "/admin/login") get_post public (read ∷ login ∷ [])

abbrev admin_routes : List Route
admin_routes =
    admin_route (codes "/admin") get session (read ∷ [])
    ∷ login_route
    ∷ admin_route (codes "/admin/logout") post session []
    ∷ admin_route (codes "/admin/account") get session (read ∷ [])
    ∷ admin_route (codes "/admin/account/password") post session (login ∷ [])
    ∷ admin_route (codes "/admin/account/totp") post session (login ∷ [])
    ∷ admin_route (codes "/admin/account/totp/confirm") post session (login ∷ [])
    ∷ admin_route (codes "/admin/account/totp/disable") post session (login ∷ [])
    ∷ admin_route (codes "/admin/account/recovery-codes") post session (login ∷ [])
    ∷ admin_route (codes "/admin/account/sessions/end-others") post session []
    ∷ admin_route (codes "/admin/reset") get_post public (read ∷ reset ∷ [])
    ∷ admin_route (codes "/admin/reset/{token}") get_post public (read ∷ login ∷ [])
    ∷ admin_route (codes "/admin/projects") get_post admin (read ∷ [])
    ∷ admin_route (codes "/admin/p/{slug}/settings") get_post admin (read ∷ [])
    ∷ admin_route (codes "/admin/p/{slug}/delete") post admin []
    ∷ admin_route (codes "/admin/") any_method session (read ∷ [])
    ∷ admin_route (codes "/admin/{*rest}") any_method session (read ∷ [])
    ∷ []

abbrev project_route : Text → Route
project_route pattern =
    route main_host (pattern_path pattern) get_or_fallback public canonical_redirect (read ∷ [])
      html

abbrev project_routes : List Route
project_routes =
    map project_route (codes "/p/{slug}" ∷ codes "/p/{slug}/" ∷ codes "/p/{slug}/{*rest}" ∷ [])

abbrev own_routes : List Route
own_routes =
    route internal_host (pattern_path (codes "/healthz")) get public no_store [] json
    ∷ route internal_host (pattern_path (codes "/.well-known/kohaku/tls-ask")) get public no_store
        [] json
    ∷ route main_host (pattern_path (codes "/")) get public no_cache (read ∷ []) html
    ∷ route both_hosts (pattern_path (codes "/static/{name}")) get public static_asset [] html
    ∷ route main_host fallback get_or_fallback public no_store (read ∷ []) html
    ∷ route project_host fallback get_or_fallback public no_store (read ∷ []) html
    ∷ []

-- Without `dev` there are no routes of src/dev.rs.
abbrev pub table : List Route
table = own_routes ++ (admin_routes ++ project_routes)
