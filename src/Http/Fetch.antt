-- ===== src/Http/Fetch.antt =====
-- The origin check and the isolation of the admin host, src/http/fetch.rs. The header map is the
-- function that lists all values of a name.
pub mod SameOrigin
pub mod Isolated
pub mod Tests
use kohaku.Base.{
  Bool, true, false, not, ◌&&◌, ◌||◌, Option, none, some, List, [], ◌∷◌, if◌then◌else◌, is_none_or,
  ◌==◌,
}
use kohaku.Base.Text.{Text, codes, text_eq, starts_with}

abbrev pub Headers : Type 0
Headers = Text → List Text

pub data Headerless : Type 0 where
  not_exempt : Headerless
  exempt : Headerless

-- What becomes of a request: it reaches its route, or is a 403 with a reason for the log.
pub data Outcome : Type 0 where
  reached : Outcome
  cross_site : Outcome

abbrev pub sec_fetch_site : Text
sec_fetch_site = codes "sec-fetch-site"

abbrev pub sec_fetch_mode : Text
sec_fetch_mode = codes "sec-fetch-mode"

abbrev pub origin_header : Text
origin_header = codes "origin"

-- The one value of a header, `none` when it is repeated.
unfoldable pub only : List Text → Option (Option Text)
only [] = some none
only (first ∷ []) = some (some first)
only (first ∷ second ∷ more) = none

unfoldable pub single : Headers → Text → Option (Option Text)
single headers name = only (headers name)

-- The rules on the values of `Sec-Fetch-Site` and `Origin`.
unfoldable pub rules : Option (Option Text) → Option (Option Text) → Text → Headerless → Bool
rules none origin expected headerless = false
rules (some site) none expected headerless = false
rules (some (some site)) (some origin) expected headerless =
    text_eq site (codes "same-origin") && is_none_or origin (λ o. text_eq o expected)
rules (some none) (some (some origin)) expected headerless = text_eq origin expected
rules (some none) (some none) expected not_exempt = false
rules (some none) (some none) expected exempt = true

unfoldable pub origin_allowed : Headers → Text → Headerless → Bool
origin_allowed headers expected headerless =
    rules (single headers sec_fetch_site) (single headers origin_header) expected headerless

abbrev pub is_read : Text → Bool
is_read method = text_eq method (codes "GET") || text_eq method (codes "HEAD")

-- From the origin of the host that the request was routed to.
unfoldable pub origin_layer : Headerless → Text → Option Text → Headers → Outcome
origin_layer headerless method none headers = if is_read method then reached else cross_site
origin_layer headerless method (some expected) headers =
    if is_read method
    then reached
    else if origin_allowed headers expected headerless
    then reached
    else cross_site

abbrev pub is_admin : Text → Bool
is_admin path = text_eq path (codes "/admin") || starts_with path (codes "/admin/")

-- Whether a header is there once with a value.
abbrev pub is_once : Option (Option Text) → Text → Bool
is_once none value = false
is_once (some none) value = false
is_once (some (some v)) value = text_eq v value

-- The rules on the values of `Sec-Fetch-Site` and `Sec-Fetch-Mode`.
unfoldable pub isolation_rules : Option (Option Text) → Option (Option Text) → Bool
isolation_rules none mode = false
isolation_rules (some none) mode = true
isolation_rules (some (some site)) mode =
    if text_eq site (codes "same-origin") || text_eq site (codes "none")
    then true
    else if text_eq site (codes "same-site") || text_eq site (codes "cross-site")
    then is_once mode (codes "navigate")
    else false

unfoldable pub admin_isolation_allows : Text → Text → Headers → Bool
admin_isolation_allows method path headers =
    if not (is_admin path) || not (is_read method)
    then true
    else isolation_rules (single headers sec_fetch_site) (single headers sec_fetch_mode)
