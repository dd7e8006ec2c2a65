-- ===== src/Projects/Invariant.antt =====
-- What holds of the table of projects after any change (src/projects/mod.rs).
use kohaku.Base.{
  ℕ, ◌+◌, ◌≤◌, ◌<◌, ◌≡◌, refl, sym, ap, ◌∙◌, inl, inr, Bool, false, not, some, [], ◌∷◌, ◌++◌, any,
  All-append, All-imp, All-kept, ◌==◌, arith, Bool-cases, subst, Option-cases,
}
use kohaku.Base.Result.{ok, ok_inj, err_ok}
use kohaku.Base.Table.{find}
use kohaku.Base.Text.{Text}
use kohaku.Base.Unique.{taken, IsUnique-append, IsUnique-keep, IsUnique-update}
use kohaku.Db.{Db, Settings, ProjectRow, Actor, project_create, project_update, project_target}
use kohaku.Auth.Audit.{audit}
use kohaku.Projects.{
  slug_column, host_column, is_host_taken, new_row, create, settings_eq, replace, change, remove,
}
use kohaku.Projects.Rows.{
  IsValid, Ascending-append, kept-Ascending, set-All, set-Ascending, Ascending-Once, set-slugs,
  numbered-not_zero,
}

module _ (IsSlug : Text → Type 0) (IsGood : Settings → Type 0) where
  pub create-IsValid :
      (db db' : Db) (slug : Text) (settings : Settings) (actor : Actor) (now id : ℕ)
      → IsValid IsSlug IsGood db
      → IsSlug slug
      → IsGood settings
      → create db slug settings actor now ≡ ok (db', id)
      → IsValid IsSlug IsGood db'
  unfolding create is_host_taken audit
  create-IsValid db db' slug settings actor now id v s g e =
      elim (Bool-cases (taken slug_column (some slug) db.projects)) [
        | inl t ↦ absurd (err_ok (rw (create, t) at e))
        | inr t ↦ elim (Bool-cases (is_host_taken db settings.public_host 0)) [
          | inl h ↦ absurd (err_ok (rw (create, t, h) at e))
          | inr h ↦
              let free = numbered-not_zero settings db.projects_seq db.projects v.numbered in
              let row = new_row db slug settings now in
              let new : IsValid IsSlug IsGood (
                  audit
                    (record db {
                      projects = db.projects ++ (row ∷ []);
                      projects_seq = db.projects_seq + 1;
                    })
                    actor project_create (project_target (db.projects_seq + 1)) now) =
                record {
                  slugs = IsUnique-append slug_column db.projects row v.slugs t;
                  hosts = IsUnique-append host_column db.projects row v.hosts (sym free ∙ h);
                  ascending =
                      Ascending-append db.projects row v.ascending
                        (All-imp db.projects (λ p n. omega arith) v.numbered);
                  numbered =
                      All-append (λ p. (0 < p.id) × (p.id ≤ db.projects_seq + 1)) db.projects
                        (row ∷ []) (All-imp db.projects (λ p n. omega arith) v.numbered)
                        (omega arith, tt);
                  rows =
                      All-append (λ p. IsSlug p.slug × IsGood p.settings) db.projects (row ∷ [])
                        v.rows ((s, g), tt);
                } in
              subst (IsValid IsSlug IsGood) (ap (λ r. r.0) (ok_inj (rw (create, t, h) at e))) new
        ]
      ]

  pub remove-IsValid :
      (db : Db) (id : ℕ) (actor : Actor) (now : ℕ)
      → IsValid IsSlug IsGood db
      → IsValid IsSlug IsGood (remove db id actor now).0
  unfolding remove audit
  remove-IsValid db id actor now v =
      elim (Bool-cases (any (λ (p : ProjectRow). p.id == id) db.projects)) [
        | inr f ↦ rw f v
        | inl t ↦
            let others = λ (p : ProjectRow). not (p.id == id) in
            rw t (record {
              slugs = IsUnique-keep slug_column others db.projects v.slugs;
              hosts = IsUnique-keep host_column others db.projects v.hosts;
              ascending = kept-Ascending others db.projects v.ascending;
              numbered =
                  All-kept (λ p. (0 < p.id) × (p.id ≤ db.projects_seq)) others db.projects
                    v.numbered;
              rows = All-kept (λ p. IsSlug p.slug × IsGood p.settings) others db.projects v.rows;
            })
      ]

  replaced-IsValid :
      (db : Db) (id : ℕ) (settings : Settings) (actor : Actor) (now : ℕ)
      → IsValid IsSlug IsGood db
      → IsGood settings
      → is_host_taken db settings.public_host id ≡ false
      → IsValid IsSlug IsGood
          (audit (replace db id settings) actor project_update (project_target id) now)
  unfolding audit is_host_taken
  replaced-IsValid db id settings actor now v g h = record {
    slugs = set-slugs id settings db.projects v.slugs;
    hosts =
        IsUnique-update host_column (λ p. p.id == id) (λ p. record p { settings = settings })
          settings.public_host (λ p. refl) db.projects v.hosts
          (Ascending-Once id db.projects v.ascending) h;
    ascending = set-Ascending id settings db.projects v.ascending;
    numbered =
        set-All (λ p. (0 < p.id) × (p.id ≤ db.projects_seq)) id settings db.projects (λ p n. n)
          v.numbered;
    rows =
        set-All (λ p. IsSlug p.slug × IsGood p.settings) id settings db.projects (λ p n. (n.0, g))
          v.rows;
  }

  pub change-IsValid :
      (db db' : Db) (id : ℕ) (settings : Settings) (actor : Actor) (now : ℕ) (changed : Bool)
      → IsValid IsSlug IsGood db
      → IsGood settings
      → change db id settings actor now ≡ ok (db', changed)
      → IsValid IsSlug IsGood db'
  unfolding change
  change-IsValid db db' id settings actor now changed v g e =
      elim (Option-cases (find (λ (p : ProjectRow). p.id == id) db.projects)) [
        | inl n ↦ subst (IsValid IsSlug IsGood) (ap (λ r. r.0) (ok_inj (rw (change, n) at e))) v
        | inr (project, f) ↦ elim (Bool-cases (settings_eq project.settings settings)) [
          | inl s ↦
              subst (IsValid IsSlug IsGood) (ap (λ r. r.0) (ok_inj (rw (change, f, s) at e))) v
          | inr s ↦ elim (Bool-cases (is_host_taken db settings.public_host id)) [
            | inl h ↦ absurd (err_ok (rw (change, f, s, h) at e))
            | inr h ↦
                subst (IsValid IsSlug IsGood) (ap (λ r. r.0) (ok_inj (rw (change, f, s, h) at e)))
                  (replaced-IsValid db id settings actor now v g h)
          ]
        ]
      ]
