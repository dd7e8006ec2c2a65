-- ===== src/Projects/Admin/Refused.antt =====
-- A form that is refused, and one that changes nothing, leave everything as it was
-- (src/admin/projects.rs).
use kohaku.Base.{
  ℕ, ◌<◌, ◌≡◌, refl, subst, inl, inr, Bool, true, false, Option, none, some, List, [], ◌∷◌, arith,
  Bool-cases, Option-cases, ◌==◌, ==_iff, some_inj,
}
use kohaku.Base.Result.{Result, ok, err, Result-cases}
use kohaku.Base.Table.{find, find-All}
use kohaku.Base.Text.{Text, text_eq}
use kohaku.Base.Text.Equal.{text_eq_same}
use kohaku.Config.BaseUrl.{BaseUrl}
use kohaku.Db.{Db, Settings, ProjectRow, Actor}
use kohaku.Projects.{create, change, remove, find_slug, settings_eq, eq_text, eq_bool}
use kohaku.Projects.Problems.{Problem}
use kohaku.Projects.Fields.{parse_slug}
use kohaku.Projects.Rows.{Ascending}
use kohaku.Projects.Admin.{
  CreateForm, SettingsForm, App, Response, not_found, see_list, see_settings, list_page,
  settings_page, confirm_failed, parse_form, parse_create, form_of, find_project, create_project,
  save, delete_project, created, saved, deleted,
}
use kohaku.Projects.Admin.Events.{IsStored}
use kohaku.Projects.Admin.Unchanged.{IsGood}
use kohaku.Projects.Fields.Checked.{check_slug}

-- An answer other than the redirect that follows a change.
abbrev pub IsRefusal : Response → Type 0
IsRefusal not_found = Unit
IsRefusal see_list = ⊥
IsRefusal (see_settings slug) = ⊥
IsRefusal (list_page form problem) = Unit
IsRefusal (settings_page slug form problem) = Unit
IsRefusal (confirm_failed slug form) = Unit

-- An answer of a handler with the state that it leaves.
abbrev pub Keeps : App → App × Response → Type 0
Keeps app r = IsRefusal r.1 → r.0 ≡ app

created-Keeps :
    (base_url : BaseUrl) (refreshed : Bool) (app : App) (form : CreateForm) (slug : Text)
    (r : Result Problem (Db × ℕ))
    → Keeps app (created base_url refreshed app form slug r)
created-Keeps base_url refreshed app form slug (err problem) = λ h. refl
created-Keeps base_url refreshed app form slug (ok (db, id)) = λ h. absurd h

saved-Keeps :
    (base_url : BaseUrl) (refreshed : Bool) (app : App) (slug : Text) (form : SettingsForm)
    (r : Result Problem (Db × Bool))
    → Keeps app (saved base_url refreshed app slug form r)
saved-Keeps base_url refreshed app slug form (err problem) = λ h. refl
saved-Keeps base_url refreshed app slug form (ok (db, true)) = λ h. absurd h
saved-Keeps base_url refreshed app slug form (ok (db, false)) = λ h. refl

deleted-Keeps :
    (base_url : BaseUrl) (refreshed : Bool) (app : App) (r : Db × Bool)
    → Keeps app (deleted base_url refreshed app r)
deleted-Keeps base_url refreshed app (db, true) = λ h. absurd h
deleted-Keeps base_url refreshed app (db, false) = λ h. refl

-- An administrator's form that is answered with a page, a problem or 404, and not with the redirect
-- that follows a change, leaves the database and the published map as they were.
pub handlers_refused :
    (base_url : BaseUrl) (actor : Actor) (now : ℕ) (refreshed : Bool) (app : App)
    (slug confirm : Text) (create_form : CreateForm) (settings_form : SettingsForm)
    → Keeps app (create_project base_url actor now refreshed app create_form)
      × Keeps app (save base_url actor now refreshed app slug settings_form)
      × Keeps app (delete_project base_url actor now refreshed app slug confirm)
unfolding create_project save delete_project
handlers_refused base_url actor now refreshed app slug confirm create_form settings_form =
    (creating, saving, deleting)
  where
    creating : Keeps app (create_project base_url actor now refreshed app create_form)
    creating = elim (Result-cases (parse_create base_url create_form)) [
      | inl (problem, e) ↦ rw (create_project, e) (λ h. refl)
      | inr ((given, settings), e) ↦
          rw (create_project, e)
            (created-Keeps base_url refreshed app create_form given
              (create app.db given settings actor now))
    ]

    saving : Keeps app (save base_url actor now refreshed app slug settings_form)
    saving = elim (Option-cases (find_project app.db slug)) [
      | inl n ↦ rw (save, n) (λ h. refl)
      | inr (project, f) ↦ elim (Result-cases (parse_form base_url settings_form)) [
        | inl (problem, e) ↦ rw (save, f, e) (λ h. refl)
        | inr (settings, e) ↦
            rw (save, f, e)
              (saved-Keeps base_url refreshed app project.slug settings_form
                (change app.db project.id settings actor now))
      ]
    ]

    deleting : Keeps app (delete_project base_url actor now refreshed app slug confirm)
    deleting = elim (Option-cases (find_project app.db slug)) [
      | inl n ↦ rw (delete_project, n) (λ h. refl)
      | inr (project, f) ↦ elim (Bool-cases (text_eq confirm project.slug)) [
        | inr t ↦ rw (delete_project, f, t) (λ h. refl)
        | inl t ↦
            rw (delete_project, f, t)
              (deleted-Keeps base_url refreshed app (remove app.db project.id actor now))
      ]
    ]

eq_text_same : (o : Option Text) → eq_text o o ≡ true
eq_text_same none = refl
eq_text_same (some t) = text_eq_same t

eq_bool_same : (b : Bool) → eq_bool b b ≡ true
eq_bool_same true = refl
eq_bool_same false = refl

settings_eq_same : (s : Settings) → settings_eq s s ≡ true
unfolding settings_eq
settings_eq_same s =
    rw
      (
        text_eq_same s.name,
        eq_text_same s.public_host,
        eq_bool_same s.screenshots_enabled,
        eq_bool_same s.features_enabled,
        eq_bool_same s.require_email,
        eq_bool_same s.plus_one_enabled,
        eq_text_same s.privacy_notice,
        eq_text_same s.security_contact,
      )
      refl

-- A row is found by its id again.
find-id :
    (q : ProjectRow → Bool) (rows : List ProjectRow) (p : ProjectRow)
    → Ascending rows
    → find q rows ≡ some p
    → find (λ (r : ProjectRow). r.id == p.id) rows ≡ some p
unfolding find
find-id q [] p a e = absurd (ground (arith, e))
find-id q (r ∷ rows) p a e = elim (Bool-cases (q r)) [
  | inl t ↦
      let same : r ≡ p = some_inj (rw t at e) in
      subst (λ x. find (λ (y : ProjectRow). y.id == x.id) (r ∷ rows) ≡ some x) same
        (rw ((==_iff r.id r.id).1 refl) refl)
  | inr f ↦
      let found : find q rows ≡ some p = rw f at e in
      let earlier : r.id < p.id = find-All (λ x. r.id < x.id) q rows p found a.0 in
      let other : (r.id == p.id) ≡ false = ground arith in rw other (find-id q rows p a.1 found)
]

found_by :
    (db : Db) (slug : Text) (p : ProjectRow)
    → find_project db slug ≡ some p
    → (text : Text) × (find (λ (q : ProjectRow). text_eq q.slug text) db.projects ≡ some p)
unfolding find_project find_slug
found_by db slug p e = elim (Result-cases (parse_slug slug)) [
  | inl (problem, s) ↦ absurd (ground (arith, rw (find_project, s) at e))
  | inr (text, s) ↦ (text, rw (find_project, s) at e)
]

change_same :
    (db : Db) (text : Text) (p : ProjectRow) (actor : Actor) (now : ℕ)
    → Ascending db.projects
    → find (λ (q : ProjectRow). text_eq q.slug text) db.projects ≡ some p
    → change db p.id p.settings actor now ≡ ok (db, false)
unfolding change
change_same db text p actor now a e =
    rw
      (
        change,
        find-id (λ (q : ProjectRow). text_eq q.slug text) db.projects p a e,
        settings_eq_same p.settings,
      )
      refl

-- Saving the settings form of a project as it is shown stores nothing and records nothing, and
-- leads back to the form.
pub save_unchanged :
    (base_url : BaseUrl) (actor : Actor) (now : ℕ) (refreshed : Bool) (app : App) (slug : Text)
    (project : ProjectRow)
    → IsStored base_url app.db
    → find_project app.db slug ≡ some project
    → save base_url actor now refreshed app slug (form_of project.settings)
      ≡ (app, see_settings project.slug)
unfolding save
save_unchanged base_url actor now refreshed app slug project v f =
    let (text, found) = found_by app.db slug project f in
    let accepted =
      (find-All (λ (p : ProjectRow). (check_slug p.slug ≡ true) × IsGood base_url p.settings)
        (λ (p : ProjectRow). text_eq p.slug text) app.db.projects project found v.rows).1.2 in
    rw (save, f, accepted, change_same app.db text project actor now v.ascending found) refl
