-- ===== src/Routing/Tests.antt =====
-- Requests to a main host and to a project's domain.
use kohaku.Limits.Address.{IpAddr, v4}
use kohaku.Limits.Rate.{RateClass, method_post, class_demand, admit, new}
use mathlib.Core.List.{mem-cons_self, mem-cons_of_mem}
use kohaku.Routing.RateLayer.{rate_layer}
use kohaku.Routing.Table.{login_route}
use kohaku.Routing.Table.Drawn.{covering, answer, rate_layer-table}
use kohaku.Base.{Option, refl, ◌≡◌, true, none, some, [], ◌∷◌, ◌↔◌, if◌then◌else◌}
use kohaku.Base.Text.{Text, split, split_once, codes, text_eq}
use kohaku.Config.Tests.{bugs}
use kohaku.Http.Fetch.{Headers}
use kohaku.Projects.Admin.{tick}
use kohaku.Projects.Admin.Events.{run}
use kohaku.Projects.Tests.{demo_db, demo_app, demo_db-IsStored, demo_app-IsPublished, busy}
use kohaku.Routing.Dispatch.{Request, dispatch, host_header}
use kohaku.Routing.Dispatch.Routed.{IsRouted, dispatch-run-IsRouted}
use kohaku.Routing.Hosts.{load}
use kohaku.Routing.Internal.{find_domain, percent_bytes, percent_decode, single_domain, tls_ask}
use kohaku.Routing.Internal.Asked.{IsAsked, tls_ask-run_iff}
use kohaku.Routing.Redirect.{canonical, permanent_redirect}
use kohaku.Routing.Redirect.Canonical.{IsRedirect, canonical_iff}

abbrev to_bugs : Headers
to_bugs name = if text_eq name host_header then codes "Bugs.Example.NET:443" ∷ [] else []

abbrev request : Request
request = record { method = codes "GET"; path = codes "/"; headers = to_bugs }

dispatch-run-IsRouted_example :
    let after = tick bugs true (run bugs demo_app busy) in
    IsRouted
      (λ v. some v)
      (codes "/healthz" ∷ [])
      bugs
      after.db
      request
      (dispatch (λ v. some v) (codes "/healthz" ∷ []) bugs after.hosts request)
dispatch-run-IsRouted_example =
    dispatch-run-IsRouted (λ v. some v) (codes "/healthz" ∷ []) bugs demo_app busy request
      demo_app-IsPublished

canonical_iff_example :
    (canonical (λ v. true) (load demo_db bugs) (codes "/p/demo/3") none
      ≡ permanent_redirect (codes "https://bugs.example.net/3"))
    ↔ IsRedirect
        (λ v. true)
        demo_db
        bugs
        (codes "/p/demo/3")
        none
        (codes "https://bugs.example.net/3")
canonical_iff_example =
    canonical_iff (λ v. true) demo_db bugs (codes "/p/demo/3") none
      (codes "https://bugs.example.net/3") demo_db-IsStored

abbrev one_domain : Text → Option Text
one_domain = single_domain (λ bytes. some bytes)

-- `%+5` is read as the byte 5.
domain_parameter :
    (one_domain (codes "domain=Bugs.Example.NET:443") ≡ some (codes "Bugs.Example.NET:443"))
    × (one_domain (codes "x=1&domain=a%2Eb") ≡ some (codes "a.b"))
    × (one_domain (codes "domain=") ≡ none)
    × (one_domain (codes "domain") ≡ none)
    × (one_domain (codes "domain=a&domain=b") ≡ none)
    × (one_domain (codes "domain=%zz") ≡ none)
    × (one_domain (codes "domain=%e") ≡ none)
    × (one_domain (codes "other=a") ≡ none)
    × (one_domain (codes "domain=%+5") ≡ some (5 ∷ []))
unfolding single_domain find_domain percent_decode percent_bytes split split_once
domain_parameter = (refl, refl, refl, refl, refl, refl, refl, refl, refl)

tls_ask-run_iff_example :
    let after = tick bugs true (run bugs demo_app busy) in
    (tls_ask (λ bytes. some bytes) after.hosts (some (codes "domain=bugs%2Eexample.net")) ≡ true)
    ↔ IsAsked (λ bytes. some bytes) after.db (codes "domain=bugs%2Eexample.net")
tls_ask-run_iff_example =
    tls_ask-run_iff (λ bytes. some bytes) bugs demo_app busy (codes "domain=bugs%2Eexample.net")
      demo_app-IsPublished

abbrev visitor : IpAddr
visitor = v4 3221225994

rate_layer-table_example :
    (c : RateClass) × (covering method_post login_route.rate ≡ c ∷ [])
    × (rate_layer login_route.rate method_post (some visitor) 5 (new 0)
        ≡ answer c (admit (new 0) (class_demand c visitor) 5))
rate_layer-table_example =
    rate_layer-table login_route visitor 5 (new 0)
      (mem-cons_of_mem _ (
        mem-cons_of_mem _ (
          mem-cons_of_mem _ (
            mem-cons_of_mem _
              (mem-cons_of_mem _ (mem-cons_of_mem _ (mem-cons_of_mem _ mem-cons_self)))))))
      refl
