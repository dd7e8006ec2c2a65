-- ===== src/Projects.antt =====
-- src/projects/mod.rs: the fields of a project and every change to the table of projects. Texts
-- are lists of Unicode scalar values; `DnsName::parse` and the rule for slugs refuse a text with a
-- character outside ASCII, whether they look at its bytes or at its characters.
pub mod Problems
pub mod Fields
pub mod Rows
pub mod Invariant
pub mod Admin
pub mod Tests
use kohaku.Base.{
  ℕ, ◌+◌, Bool, true, false, not, ◌&&◌, ◌||◌, Option, none, some, List, [], ◌∷◌, ◌++◌, any, ◌==◌,
  if◌then◌else◌,
}
use kohaku.Base.Result.{Result, ok, err}
use kohaku.Base.Table.{find, update, delete}
use kohaku.Base.Unique.{has, taken}
use kohaku.Base.Text.{Text, text_eq}
use kohaku.Db.{
  Db, Settings, ProjectRow, Actor, project_create, project_update, project_delete, project_target,
}
use kohaku.Auth.Audit.{audit}
use kohaku.Projects.Problems.{Problem, slug_taken, host_taken}

-- A new project's settings: every switch off except +1.
abbrev pub new_settings : Text → Option Text → Settings
new_settings name public_host = record {
  name = name;
  public_host = public_host;
  screenshots_enabled = false;
  features_enabled = false;
  require_email = false;
  plus_one_enabled = true;
  privacy_notice = none;
  security_contact = none;
}

abbrev pub slug_column : ProjectRow → Option Text
slug_column p = some p.slug

abbrev pub host_column : ProjectRow → Option Text
host_column p = p.settings.public_host

unfoldable pub find_slug : Db → Text → Option ProjectRow
find_slug db slug = find (λ p. text_eq p.slug slug) db.projects

-- Whether another project than `except` has the host.
unfoldable pub is_host_taken : Db → Option Text → ℕ → Bool
is_host_taken db host except = any (λ p. not (p.id == except) && has host_column host p) db.projects

abbrev pub new_row : Db → Text → Settings → ℕ → ProjectRow
new_row db slug settings now = record {
  id = db.projects_seq + 1;
  slug = slug;
  settings = settings;
  created_at = now;
}

unfoldable pub create : Db → Text → Settings → Actor → ℕ → Result Problem (Db × ℕ)
create db slug settings actor now =
    if taken slug_column (some slug) db.projects
    then err slug_taken
    else if is_host_taken db settings.public_host 0
    then err host_taken
    else let id = db.projects_seq + 1 in
      let inserted = record db {
        projects = db.projects ++ (new_row db slug settings now ∷ []);
        projects_seq = id;
      } in
      ok (audit inserted actor project_create (project_target id) now, id)

abbrev pub eq_bool : Bool → Bool → Bool
eq_bool true b = b
eq_bool false b = not b

abbrev pub eq_text : Option Text → Option Text → Bool
eq_text none none = true
eq_text none (some y) = false
eq_text (some x) none = false
eq_text (some x) (some y) = text_eq x y

-- The derived `==` of `Settings`.
unfoldable pub settings_eq : Settings → Settings → Bool
settings_eq a b =
    text_eq a.name b.name
    && (eq_text a.public_host b.public_host
        && (eq_bool a.screenshots_enabled b.screenshots_enabled
            && (eq_bool a.features_enabled b.features_enabled
                && (eq_bool a.require_email b.require_email
                    && (eq_bool a.plus_one_enabled b.plus_one_enabled
                        && (eq_text a.privacy_notice b.privacy_notice
                            && eq_text a.security_contact b.security_contact))))))

abbrev pub replace : Db → ℕ → Settings → Db
replace db id settings = record db {
  projects = update (λ p. p.id == id) (λ p. record p { settings = settings }) db.projects;
}

-- `false` when there is no such project, or nothing changes.
unfoldable pub change : Db → ℕ → Settings → Actor → ℕ → Result Problem (Db × Bool)
change db id settings actor now = elim (find (λ (p : ProjectRow). p.id == id) db.projects) [
  | none ↦ ok (db, false)
  | some project ↦
      if settings_eq project.settings settings
      then ok (db, false)
      else if is_host_taken db settings.public_host id
      then err host_taken
      else ok (audit (replace db id settings) actor project_update (project_target id) now, true)
]

unfoldable pub remove : Db → ℕ → Actor → ℕ → Db × Bool
remove db id actor now =
    if any (λ (p : ProjectRow). p.id == id) db.projects
    then (
      audit (record db { projects = delete (λ p. p.id == id) db.projects }) actor project_delete
          (project_target id) now,
      true,
    )
    else (db, false)
