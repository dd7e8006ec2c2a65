-- ===== src/Routing/Dispatch/Routed.antt =====
-- Requests go where the table of projects says (src/routing/build.rs).
use kohaku.Base.{
  ◌≢◌, All, All-imp, ◌≡◌, refl, sym, ap, ◌∙◌, subst, ◌⊎◌, inl, inr, true, false, Option, none, some,
  List, arith, Bool-cases, Option-cases, if◌then◌else◌,
}
use kohaku.Base.Table.{find, find-holds, find-All}
use kohaku.Base.Text.{Text, text_eq}
use kohaku.Base.Text.Equal.{text_eq_sound}
use kohaku.Base.Unique.{has}
use kohaku.Config.BaseUrl.{BaseUrl}
use kohaku.Db.{Db, ProjectRow}
use kohaku.Http.Fetch.{admin_isolation_allows}
use kohaku.Projects.{host_column}
use kohaku.Projects.Admin.{App, tick}
use kohaku.Projects.Admin.Published.{run-IsPublished, tick-hosts}
use kohaku.Projects.Admin.Events.{Event, run, IsPublished, IsStored}
use kohaku.Projects.Admin.Unchanged.{IsOther}
use kohaku.Routing.Hosts.{load, request_host, main}
use kohaku.Routing.Hosts.Loaded.{entry_of, get-load}
use kohaku.Routing.Dispatch.{
  Request, Outcome, internal, misdirected, isolated, main_router, project_router, host_header,
  is_internal, to_router, by_entry, dispatch,
}
use kohaku.Routing.Urls.{main_origin, project_origin}

module _ (to_str : Text → Option Text) (internal_paths : List Text) (base_url : BaseUrl) (db : Db)
    (request : Request) where
  abbrev host_asked : Option Text
  host_asked = request_host to_str (request.headers host_header)

  abbrev row_of : Text → Option ProjectRow
  row_of host = find (has host_column (some host)) db.projects

  -- What is true of a request by where it goes.
  abbrev pub IsRouted : Outcome → Type 0
  IsRouted internal = is_internal internal_paths request.path ≡ true
  IsRouted (project_router id origin) =
      (host : Text) × (p : ProjectRow) × (is_internal internal_paths request.path ≡ false)
      × (host_asked ≡ some host)
      × (row_of host ≡ some p)
      × (id ≡ p.id)
      × (origin ≡ project_origin host)
      × (host ≢ base_url.host)
  IsRouted (main_router origin) =
      (is_internal internal_paths request.path ≡ false)
      × (host_asked ≡ some base_url.host)
      × (row_of base_url.host ≡ none)
      × (origin ≡ main_origin base_url)
      × (admin_isolation_allows request.method request.path request.headers ≡ true)
  IsRouted isolated =
      (is_internal internal_paths request.path ≡ false)
      × (host_asked ≡ some base_url.host)
      × (row_of base_url.host ≡ none)
      × (admin_isolation_allows request.method request.path request.headers ≡ false)
  IsRouted misdirected =
      (is_internal internal_paths request.path ≡ false)
      × ((host_asked ≡ none)
          ⊎ ((host : Text) × (host_asked ≡ some host)
              × (row_of host ≡ none)
              × (text_eq base_url.host host ≡ false)))

  row_of-other :
      (host : Text) (p : ProjectRow)
      → All (λ (q : ProjectRow). IsOther base_url.host q.settings.public_host) db.projects
      → row_of host ≡ some p
      → host ≢ base_url.host
  row_of-other host p others r same = elim (Option-cases p.settings.public_host) [
    | inl n ↦
        absurd (ground (arith, rw n at (find-holds (has host_column (some host)) db.projects p r)))
    | inr (value, v) ↦
        let held : text_eq value host ≡ true =
          rw v at (find-holds (has host_column (some host)) db.projects p r) in
        let other : text_eq value base_url.host ≡ false = subst (IsOther base_url.host) v (
          find-All (λ q. IsOther base_url.host q.settings.public_host) (has host_column (some host))
            db.projects p r others) in
        absurd (ground (arith, other, subst (λ h. text_eq value h ≡ true) same held))
  ]

  by_entry-IsRouted :
      (host : Text)
      → All (λ (q : ProjectRow). IsOther base_url.host q.settings.public_host) db.projects
      → is_internal internal_paths request.path ≡ false
      → host_asked ≡ some host
      → IsRouted (
          by_entry base_url request host
            (entry_of (row_of host) (if text_eq base_url.host host then some main else none)))
  unfolding to_router
  by_entry-IsRouted host others i h = elim (Option-cases (row_of host)) [
    | inr (p, r) ↦ rw r (host, p, i, h, r, refl, refl, row_of-other host p others r)
    | inl n ↦ elim (Bool-cases (text_eq base_url.host host)) [
      | inr f ↦ rw (n, f) (i, inr (host, h, n, f))
      | inl t ↦
          let same = text_eq_sound base_url.host host t in
          let asked : host_asked ≡ some base_url.host = h ∙ ap (λ x. some x) (sym same) in
          let free : row_of base_url.host ≡ none = ap row_of same ∙ n in
          elim (Bool-cases (admin_isolation_allows request.method request.path request.headers)) [
            | inl a ↦ rw (n, t, a) (i, asked, free, refl, a)
            | inr a ↦ rw (n, t, a) (i, asked, free, a)
          ]
    ]
  ]

  -- With the map of a valid table, a request goes where the table says.
  dispatch-IsRouted :
      IsStored base_url db
      → IsRouted (dispatch to_str internal_paths base_url (load db base_url) request)
  unfolding dispatch
  dispatch-IsRouted v =
      let others = All-imp db.projects (λ p r. r.1.1) v.rows in
      elim (Bool-cases (is_internal internal_paths request.path)) [
        | inl t ↦ rw t t
        | inr f ↦ elim (Option-cases host_asked) [
          | inl n ↦ rw (f, n) (f, inl n)
          | inr (host, h) ↦
              rw (f, h, get-load db base_url host v.hosts) (by_entry-IsRouted host others f h)
        ]
      ]

-- After any sequence of project forms, commands, other commits and ticks of the watcher, one tick
-- that succeeds makes every request go where the table of projects says: to the router of the
-- project whose custom domain its only `Host` value names, bound to that project's id and to the
-- origin of that domain, which is never the main host; to the main router, with the configured
-- origin, only if `Host` names the main host and the isolation of the admin pages allows it; and
-- nowhere (421) if the value is missing, repeated, not text or no such name.
pub dispatch-run-IsRouted :
    (to_str : Text → Option Text) (internal_paths : List Text) (base_url : BaseUrl) (app : App)
    (events : List Event) (request : Request)
    → IsPublished base_url app
    → let after = tick base_url true (run base_url app events) in
      IsRouted to_str internal_paths base_url after.db request
        (dispatch to_str internal_paths base_url after.hosts request)
unfolding tick
dispatch-run-IsRouted to_str internal_paths base_url app events request p =
    let ran = run-IsPublished base_url app events p in
    subst
      (λ map.
        IsRouted to_str internal_paths base_url (run base_url app events).db request
          (dispatch to_str internal_paths base_url map request))
      (sym (tick-hosts base_url (run base_url app events) ran))
      (dispatch-IsRouted to_str internal_paths base_url (run base_url app events).db request
        ran.stored)
