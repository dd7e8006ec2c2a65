-- ===== src/Projects/Admin/Published.antt =====
-- What is published is what is stored, whatever is asked for (src/admin/projects.rs,
-- src/projects/commands.rs, src/routing/hosts.rs).
use kohaku.Base.{
  some_inj, ==_iff, ℕ, ◌+◌, ◌≡◌, refl, ap, ◌∙◌, inl, inr, Bool, true, false, Option, none, some,
  List, [], ◌∷◌, arith, Bool-cases, Option-cases, ◌==◌,
}
use kohaku.Base.Result.{ok, err_ok, Result-cases}
use kohaku.Base.Text.{Text, text_eq, trim_matches, trim_start}
use kohaku.Characters.{trim}
use kohaku.Config.BaseUrl.{BaseUrl}
use kohaku.Db.{Db, Actor, cli}
use kohaku.Projects.{create, change, remove, new_settings}
use kohaku.Projects.Invariant.{create-IsValid, change-IsValid, remove-IsValid}
use kohaku.Projects.Fields.{parse_slug, parse_name, parse_host}
use kohaku.Projects.Fields.Checked.{parse_slug-check}
use kohaku.Projects.Admin.{
  CreateForm, SettingsForm, CreateArgs, App, commit, refresh, parse_form, parse_create,
  find_project, create_project, save, delete_project, create_command, tick, has_seen, deleted, utf8,
  host_argument,
}
use kohaku.Projects.Admin.Unchanged.{
  IsGood, parse_form-IsGood, parse_create-IsGood, new_settings-IsGood,
}
use kohaku.Routing.Hosts.{load}
use kohaku.Projects.Admin.Events.{
  create_form, save_form, delete_form, command, elsewhere, watched, Event, step, run, IsStored,
  IsPublished,
}

module _ (base_url : BaseUrl) where
  commit-IsPublished :
      (app : App) (db : Db)
      → IsPublished base_url app
      → IsStored base_url db
      → IsPublished base_url (commit app db)
  commit-IsPublished app db p s = record {
    stored = s;
    behind = λ v e. omega (arith, p.behind v e);
    current = λ e. absurd (omega (arith, p.behind (app.version + 1) e));
  }

  refresh-IsPublished :
      (refreshed : Bool) (app : App)
      → IsPublished base_url app
      → IsPublished base_url (refresh base_url refreshed app)
  refresh-IsPublished true app p = record {
    stored = p.stored;
    behind = p.behind;
    current = λ e. refl;
  }
  refresh-IsPublished false app p = p

  pub tick-hosts :
      (app : App) → IsPublished base_url app → (tick base_url true app).hosts ≡ load app.db base_url
  unfolding tick
  tick-hosts app p = elim (Bool-cases (has_seen app.seen app.version)) [
    | inr f ↦ rw f refl
    | inl t ↦ elim (Option-cases app.seen) [
      | inl n ↦ absurd (ground (arith, rw n at t))
      | inr (v, s) ↦
          let same : (v == app.version) ≡ true = rw s at t in
          rw t (p.current (s ∙ ap (λ n. some n) ((==_iff v app.version).0 same)))
    ]
  ]

  pub tick-IsPublished :
      (loaded : Bool) (app : App)
      → IsPublished base_url app
      → IsPublished base_url (tick base_url loaded app)
  unfolding tick
  tick-IsPublished false app p = p
  tick-IsPublished true app p = record {
    stored = p.stored;
    behind = λ v e. omega (arith, some_inj e);
    current = λ e. tick-hosts app p;
  }

  published :
      (refreshed : Bool) (app : App) (db : Db)
      → IsPublished base_url app
      → IsStored base_url db
      → IsPublished base_url (refresh base_url refreshed (commit app db))
  published refreshed app db p s =
      refresh-IsPublished refreshed (commit app db) (commit-IsPublished app db p s)

  create_project-IsPublished :
      (actor : Actor) (now : ℕ) (refreshed : Bool) (app : App) (form : CreateForm)
      → IsPublished base_url app
      → IsPublished base_url (create_project base_url actor now refreshed app form).0
  unfolding create_project
  create_project-IsPublished actor now refreshed app form p =
      elim (Result-cases (parse_create base_url form)) [
        | inl (problem, e) ↦ rw (create_project, e) p
        | inr ((slug, settings), e) ↦
            let (well, good) = parse_create-IsGood base_url form slug settings e in
            elim (Result-cases (create app.db slug settings actor now)) [
              | inl (problem, c) ↦ rw (create_project, e, c) p
              | inr ((db, id), c) ↦
                  rw (create_project, e, c)
                    (published refreshed app db p (
                      create-IsValid _ (IsGood base_url) app.db db slug settings actor now id
                        p.stored well good c))
            ]
      ]

  save-IsPublished :
      (actor : Actor) (now : ℕ) (refreshed : Bool) (app : App) (slug : Text) (form : SettingsForm)
      → IsPublished base_url app
      → IsPublished base_url (save base_url actor now refreshed app slug form).0
  unfolding save
  save-IsPublished actor now refreshed app slug form p =
      elim (Option-cases (find_project app.db slug)) [
        | inl n ↦ rw (save, n) p
        | inr (project, f) ↦ elim (Result-cases (parse_form base_url form)) [
          | inl (problem, e) ↦ rw (save, f, e) p
          | inr (settings, e) ↦ elim (Result-cases (change app.db project.id settings actor now)) [
            | inl (problem, c) ↦ rw (save, f, e, c) p
            | inr ((db, changed), c) ↦ elim (Bool-cases changed) [
              | inr u ↦ rw (save, f, e, c, u) p
              | inl u ↦
                  rw (save, f, e, c, u)
                    (published refreshed app db p (
                      change-IsValid _ (IsGood base_url) app.db db project.id settings actor now
                        changed p.stored (parse_form-IsGood base_url form settings e) c))
            ]
          ]
        ]
      ]

  delete_project-IsPublished :
      (actor : Actor) (now : ℕ) (refreshed : Bool) (app : App) (slug confirm : Text)
      → IsPublished base_url app
      → IsPublished base_url (delete_project base_url actor now refreshed app slug confirm).0
  unfolding delete_project
  delete_project-IsPublished actor now refreshed app slug confirm p =
      elim (Option-cases (find_project app.db slug)) [
        | inl n ↦ rw (delete_project, n) p
        | inr (project, f) ↦ elim (Bool-cases (text_eq confirm project.slug)) [
          | inr t ↦ rw (delete_project, f, t) p
          | inl t ↦
              rw (delete_project, f, t)
                (deleted_published (remove app.db project.id actor now)
                  (remove-IsValid _ (IsGood base_url) app.db project.id actor now p.stored))
        ]
      ]
    where
      deleted_published :
          (r : Db × Bool)
          → IsStored base_url r.0
          → IsPublished base_url (deleted base_url refreshed app r).0
      deleted_published (db, true) s = published refreshed app db p s
      deleted_published (db, false) s = p

  host_argument-parsed :
      (host : Option (Option Text)) (stored : Option Text)
      → host_argument host base_url ≡ ok stored
      → (text : Text) × (parse_host text base_url ≡ ok stored)
  unfolding parse_host trim trim_matches trim_start
  host_argument-parsed none stored e = ([], e)
  host_argument-parsed (some host) stored e = (utf8 host, e)

  create_command-IsStored :
      (args : CreateArgs) (now : ℕ) (db db' : Db) (id : ℕ)
      → IsStored base_url db
      → create_command base_url db args now ≡ ok (db', id)
      → IsStored base_url db'
  unfolding create_command
  create_command-IsStored args now db db' id s e =
      elim (Result-cases (parse_slug (utf8 args.slug))) [
        | inl (p, g) ↦ absurd (err_ok (rw (create_command, g) at e))
        | inr (slug, g) ↦ elim (Result-cases (parse_name (utf8 args.name))) [
          | inl (p, n) ↦ absurd (err_ok (rw (create_command, g, n) at e))
          | inr (name, n) ↦ elim (Result-cases (host_argument args.host base_url)) [
            | inl (p, h) ↦ absurd (err_ok (rw (create_command, g, n, h) at e))
            | inr (host, h) ↦
                let (text, parsed) = host_argument-parsed args.host host h in
                create-IsValid _ (IsGood base_url) db db' slug (new_settings name host) cli now id s
                  (parse_slug-check (utf8 args.slug) slug g)
                  (new_settings-IsGood base_url (utf8 args.name) text name host n parsed)
                  (rw (create_command, g, n, h) at e)
          ]
        ]
      ]

  step-IsPublished :
      (app : App) (event : Event)
      → IsPublished base_url app
      → IsPublished base_url (step base_url app event)
  unfolding step
  step-IsPublished app (create_form actor now refreshed form) p =
      create_project-IsPublished actor now refreshed app form p
  step-IsPublished app (save_form actor now refreshed slug form) p =
      save-IsPublished actor now refreshed app slug form p
  step-IsPublished app (delete_form actor now refreshed slug confirm) p =
      delete_project-IsPublished actor now refreshed app slug confirm p
  step-IsPublished app (command args now) p =
      elim (Result-cases (create_command base_url app.db args now)) [
        | inl (problem, e) ↦ rw e p
        | inr ((db, id), e) ↦
            rw e (
              commit-IsPublished app db p
                (create_command-IsStored args now app.db db id p.stored e))
      ]
  step-IsPublished app elsewhere p = commit-IsPublished app app.db p p.stored
  step-IsPublished app (watched loaded) p = tick-IsPublished loaded app p

  -- Whatever the administrator, the command line, other commits and the watcher do, in any order,
  -- the table stays valid: slugs and custom domains are unique, ids go up and stay below the
  -- counter, each row meets the table's CHECKs and is accepted unchanged by its form, and no custom
  -- domain is the main host; and the map is that of the table while the version that the watcher
  -- has seen is the last one.
  pub run-IsPublished :
      (app : App) (events : List Event)
      → IsPublished base_url app
      → IsPublished base_url (run base_url app events)
  unfolding run
  run-IsPublished app [] p = p
  run-IsPublished app (event ∷ events) p =
      run-IsPublished (step base_url app event) events (step-IsPublished app event p)
