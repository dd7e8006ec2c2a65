-- ===== src/Projects/Admin/Events.antt =====
-- What happens to the projects, in any order (src/admin/projects.rs, src/projects/commands.rs,
-- src/routing/hosts.rs).
use kohaku.Base.{ℕ, ◌≤◌, ◌≡◌, Bool, true, some, List, [], ◌∷◌}
use kohaku.Base.Result.{Result, ok, err}
use kohaku.Base.Text.{Text}
use kohaku.Config.BaseUrl.{BaseUrl}
use kohaku.Db.{Db, Actor}
use kohaku.Projects.Problems.{Problem}
use kohaku.Projects.Rows.{IsValid}
use kohaku.Projects.Fields.Checked.{check_slug}
use kohaku.Projects.Admin.{
  CreateForm, SettingsForm, CreateArgs, App, commit, create_project, save, delete_project,
  create_command, tick,
}
use kohaku.Projects.Admin.Unchanged.{IsGood}
use kohaku.Routing.Hosts.{load}

-- What the administrator, the command line and the watcher do; `elsewhere` is a commit of another
-- part of the program, which leaves the projects alone.
pub data Event : Type 0 where
  create_form : Actor → ℕ → Bool → CreateForm → Event
  save_form : Actor → ℕ → Bool → Text → SettingsForm → Event
  delete_form : Actor → ℕ → Bool → Text → Text → Event
  command : CreateArgs → ℕ → Event
  elsewhere : Event
  watched : Bool → Event

abbrev commit_ok : App → Result Problem (Db × ℕ) → App
commit_ok app (ok (db, id)) = commit app db
commit_ok app (err problem) = app

unfoldable pub step : BaseUrl → App → Event → App
step base_url app (create_form actor now refreshed form) =
    (create_project base_url actor now refreshed app form).0
step base_url app (save_form actor now refreshed slug form) =
    (save base_url actor now refreshed app slug form).0
step base_url app (delete_form actor now refreshed slug confirm) =
    (delete_project base_url actor now refreshed app slug confirm).0
step base_url app (command args now) = commit_ok app (create_command base_url app.db args now)
step base_url app elsewhere = commit app app.db
step base_url app (watched loaded) = tick base_url loaded app

unfoldable pub run : BaseUrl → App → List Event → App
run base_url app [] = app
run base_url app (event ∷ events) = run base_url (step base_url app event) events

abbrev pub IsStored : BaseUrl → Db → Type 0
IsStored base_url = IsValid (λ slug. check_slug slug ≡ true) (IsGood base_url)

-- A version that the watcher has seen is not ahead, and while it is the last one, the map is that of
-- the table.
pub record IsPublished (base_url : BaseUrl) (app : App) : Type 0 where
  pub stored : IsStored base_url app.db
  pub behind : (v : ℕ) → app.seen ≡ some v → v ≤ app.version
  pub current : app.seen ≡ some app.version → app.hosts ≡ load app.db base_url
