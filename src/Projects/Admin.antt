-- ===== src/Projects/Admin.antt =====
-- The forms of src/admin/projects.rs, `project create` of src/projects/commands.rs, and the map of
-- hosts that they publish (`refresh` and `watch` of src/routing/hosts.rs). A page is the values that
-- it shows. Whether a rebuild of the map succeeds is an argument.
pub mod Unchanged
pub mod Events
pub mod Published
pub mod Refused
use kohaku.Base.{
  ℕ, ◌+◌, Bool, true, false, not, Option, none, some, List, [], ◌∷◌, ◌==◌, if◌then◌else◌, is_some,
}
use kohaku.Base.Result.{Result, ok, err, ◌>>=◌}
use kohaku.Base.Text.{Text, codes, text_eq}
use kohaku.Config.BaseUrl.{BaseUrl}
use kohaku.Db.{Db, Settings, ProjectRow, Actor, cli}
use kohaku.Projects.{new_settings, find_slug, create, change, remove}
use kohaku.Projects.Problems.{Problem}
use kohaku.Projects.Fields.{
  parse_slug, parse_name, parse_host, parse_privacy_notice, parse_security_contact,
}
use kohaku.Routing.Hosts.{HostMap, load}

pub record CreateForm : Type 0 where
  pub slug : Text
  pub name : Text
  pub public_host : Text

pub record SettingsForm : Type 0 where
  pub name : Text
  pub public_host : Text
  pub screenshots_enabled : Option Text
  pub features_enabled : Option Text
  pub require_email : Option Text
  pub plus_one_enabled : Option Text
  pub privacy_notice : Text
  pub security_contact : Text

abbrev on : Bool → Option Text
on true = some (codes "on")
on false = none

-- `unwrap_or_default`.
abbrev or_empty : Option Text → Text
or_empty none = []
or_empty (some text) = text

unfoldable pub form_of : Settings → SettingsForm
form_of settings = record {
  name = settings.name;
  public_host = or_empty settings.public_host;
  screenshots_enabled = on settings.screenshots_enabled;
  features_enabled = on settings.features_enabled;
  require_email = on settings.require_email;
  plus_one_enabled = on settings.plus_one_enabled;
  privacy_notice = or_empty settings.privacy_notice;
  security_contact = or_empty settings.security_contact;
}

unfoldable pub parse_form : BaseUrl → SettingsForm → Result Problem Settings
parse_form base_url form = do
  name ← parse_name form.name
  host ← parse_host form.public_host base_url
  notice ← parse_privacy_notice form.privacy_notice
  contact ← parse_security_contact form.security_contact
  ok (record {
    name = name;
    public_host = host;
    screenshots_enabled = is_some form.screenshots_enabled;
    features_enabled = is_some form.features_enabled;
    require_email = is_some form.require_email;
    plus_one_enabled = is_some form.plus_one_enabled;
    privacy_notice = notice;
    security_contact = contact;
  })

unfoldable pub parse_create : BaseUrl → CreateForm → Result Problem (Text × Settings)
parse_create base_url form = do
  slug ← parse_slug form.slug
  name ← parse_name form.name
  host ← parse_host form.public_host base_url
  ok (slug, new_settings name host)

-- The database, SQLite's `data_version` on the watcher's connection, which each commit by another
-- connection moves on, the shared map, and the version that the watcher has seen.
pub record App : Type 0 where
  pub db : Db
  pub version : ℕ
  pub hosts : HostMap
  pub seen : Option ℕ

abbrev pub commit : App → Db → App
commit app db = record app { db = db; version = app.version + 1 }

-- A failed rebuild keeps the old map.
abbrev pub refresh : BaseUrl → Bool → App → App
refresh base_url true app = record app { hosts = load app.db base_url }
refresh base_url false app = app

pub data Response : Type 0 where
  not_found see_list : Response
  see_settings : Text → Response
  list_page : CreateForm → Problem → Response
  settings_page : Text → SettingsForm → Option Problem → Response
  confirm_failed : Text → SettingsForm → Response

-- The project named by a path.
unfoldable pub find_project : Db → Text → Option ProjectRow
find_project db slug = elim (parse_slug slug) [
  | err problem ↦ none
  | ok parsed ↦ find_slug db parsed
]

abbrev created : BaseUrl → Bool → App → CreateForm → Text → Result Problem (Db × ℕ) → App × Response
created base_url refreshed app form slug (err problem) = (app, list_page form problem)
created base_url refreshed app form slug (ok (db, id)) =
    (refresh base_url refreshed (commit app db), see_settings slug)

unfoldable pub create_project : BaseUrl → Actor → ℕ → Bool → App → CreateForm → App × Response
create_project base_url actor now refreshed app form = elim (parse_create base_url form) [
  | err problem ↦ (app, list_page form problem)
  | ok (slug, settings) ↦
      created base_url refreshed app form slug (create app.db slug settings actor now)
]

abbrev saved :
    BaseUrl → Bool → App → Text → SettingsForm → Result Problem (Db × Bool) → App × Response
saved base_url refreshed app slug form (err problem) = (app, settings_page slug form (some problem))
saved base_url refreshed app slug form (ok (db, true)) =
    (refresh base_url refreshed (commit app db), see_settings slug)
saved base_url refreshed app slug form (ok (db, false)) = (app, see_settings slug)

unfoldable pub save : BaseUrl → Actor → ℕ → Bool → App → Text → SettingsForm → App × Response
save base_url actor now refreshed app slug form = elim (find_project app.db slug) [
  | none ↦ (app, not_found)
  | some project ↦ elim (parse_form base_url form) [
    | err problem ↦ (app, settings_page project.slug form (some problem))
    | ok settings ↦
        saved base_url refreshed app project.slug form (change app.db project.id settings actor now)
  ]
]

abbrev deleted : BaseUrl → Bool → App → Db × Bool → App × Response
deleted base_url refreshed app (db, true) = (refresh base_url refreshed (commit app db), see_list)
deleted base_url refreshed app (db, false) = (app, not_found)

unfoldable pub delete_project : BaseUrl → Actor → ℕ → Bool → App → Text → Text → App × Response
delete_project base_url actor now refreshed app slug confirm = elim (find_project app.db slug) [
  | none ↦ (app, not_found)
  | some project ↦
      if text_eq confirm project.slug
      then deleted base_url refreshed app (remove app.db project.id actor now)
      else (app, confirm_failed project.slug (form_of project.settings))
]

-- The arguments of `project create`; one that is not UTF-8 is `none`.
pub record CreateArgs : Type 0 where
  pub slug : Option Text
  pub name : Option Text
  pub host : Option (Option Text)

abbrev utf8 : Option Text → Text
utf8 none = 0 ∷ []
utf8 (some text) = text

abbrev host_argument : Option (Option Text) → BaseUrl → Result Problem (Option Text)
host_argument none base_url = ok none
host_argument (some host) base_url = parse_host (utf8 host) base_url

unfoldable pub create_command : BaseUrl → Db → CreateArgs → ℕ → Result Problem (Db × ℕ)
create_command base_url db args now = do
  slug ← parse_slug (utf8 args.slug)
  name ← parse_name (utf8 args.name)
  host ← host_argument args.host base_url
  create db slug (new_settings name host) cli now

abbrev pub has_seen : Option ℕ → ℕ → Bool
has_seen none version = false
has_seen (some seen) version = seen == version

-- One tick of `watch`: nothing changes if the version or the rows cannot be read.
unfoldable pub tick : BaseUrl → Bool → App → App
tick base_url false app = app
tick base_url true app = record app {
  hosts = if has_seen app.seen app.version then app.hosts else load app.db base_url;
  seen = some app.version;
}
