-- ===== src/Http/Fetch/Tests.antt =====
-- A form of the site itself, sent by a browser.
use kohaku.Base.{◌≡◌, refl, ◌↔◌, ◌⊎◌, true, some, [], ◌∷◌, if◌then◌else◌}
use kohaku.Base.Text.{codes, text_eq}
use kohaku.Http.Fetch.{
  Headers, not_exempt, reached, sec_fetch_site, origin_header, is_read, origin_layer,
  sec_fetch_mode, admin_isolation_allows,
}
use kohaku.Http.Fetch.SameOrigin.{IsSameOrigin, On, origin_layer_iff}
use kohaku.Http.Fetch.Isolated.{IsIsolated, admin_isolation_allows_iff}

abbrev from_site : Headers
from_site name =
    if text_eq name sec_fetch_site
    then codes "same-origin" ∷ []
    else if text_eq name origin_header
    then codes "https://a.org" ∷ []
    else []

origin_layer_iff_example :
    (origin_layer not_exempt (codes "POST") (some (codes "https://a.org")) from_site ≡ reached) ↔ (
      (is_read (codes "POST") ≡ true)
      ⊎ On
          (λ expected.
            IsSameOrigin not_exempt expected (from_site sec_fetch_site) (from_site origin_header))
          (some (codes "https://a.org")))
origin_layer_iff_example =
    origin_layer_iff not_exempt (codes "POST") (some (codes "https://a.org")) from_site

admin_isolation_allows_iff_example :
    (admin_isolation_allows (codes "GET") (codes "/admin/a") from_site ≡ true)
    ↔ IsIsolated (from_site sec_fetch_site) (from_site sec_fetch_mode)
admin_isolation_allows_iff_example =
    admin_isolation_allows_iff (codes "GET") (codes "/admin/a") from_site refl refl
