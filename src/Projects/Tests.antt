-- ===== src/Projects/Tests.antt =====
-- A table with one project, and the forms of an administrator.
use kohaku.Base.{◌≡◌, refl, true, false, none, some, List, [], ◌∷◌, arith}
use kohaku.Base.Result.{ok}
use kohaku.Base.Table.{find}
use kohaku.Base.Text.{codes, split, trim_matches, trim_start, to_lower}
use kohaku.Characters.{
  trim, is_whitespace, is_hiding, is_single_line, is_multi_line, normalize_line_endings, crlf_to_lf,
}
use kohaku.Config.DnsName
use kohaku.Config.Tests.{bugs}
use kohaku.Db.{Db, Settings, ProjectRow, Actor, user, admin}
use kohaku.Projects.{find_slug}
use kohaku.Projects.Fields.{
  parse_slug, parse_name, parse_host, checked_host, parse_privacy_notice, parse_security_contact,
}
use kohaku.Projects.Admin.{App, SettingsForm, see_settings, form_of, parse_form, find_project, save}
use kohaku.Projects.Admin.Published.{run-IsPublished}
use kohaku.Projects.Admin.Events.{
  create_form, delete_form, elsewhere, watched, Event, run, IsStored, IsPublished,
}
use kohaku.Projects.Admin.Refused.{save_unchanged}
use kohaku.Projects.Admin.Unchanged.{IsGood, parse_form-IsGood}
use kohaku.Routing.Hosts.{load}

accepting : Unit {0}
unfolding parse_form parse_name parse_host checked_host parse_privacy_notice parse_security_contact
    trim trim_matches trim_start to_lower is_whitespace is_hiding is_single_line is_multi_line
    normalize_line_endings crlf_to_lf DnsName.parse DnsName.parse_labels DnsName.last_label
    DnsName.is_bad_label split form_of
accepting = tt

abbrev pub demo_settings : Settings
demo_settings = record {
  name = codes "Demo app";
  public_host = some (codes "bugs.example.net");
  screenshots_enabled = true;
  features_enabled = false;
  require_email = false;
  plus_one_enabled = true;
  privacy_notice = some (codes "We keep reports.");
  security_contact = none;
}

abbrev demo_form : SettingsForm
demo_form = record {
  name = codes "  Demo app ";
  public_host = codes "Bugs.Example.NET";
  screenshots_enabled = some (codes "on");
  features_enabled = none;
  require_email = none;
  plus_one_enabled = some (codes "on");
  privacy_notice = codes "We keep reports.";
  security_contact = codes " ";
}

demo_form_parsed : parse_form bugs demo_form ≡ ok demo_settings
unfolding accepting
demo_form_parsed = refl

abbrev pub demo : ProjectRow
demo = record { id = 1; slug = codes "demo"; settings = demo_settings; created_at = 5 }

abbrev pub demo_db : Db
demo_db = record {
  users = [];
  sessions = [];
  known_devices = [];
  recovery_codes = [];
  tokens = [];
  tokens_seq = 0;
  outbox = [];
  outbox_seq = 0;
  audit_log = [];
  projects = demo ∷ [];
  projects_seq = 1;
}

abbrev pub demo_app : App
demo_app = record { db = demo_db; version = 4; hosts = load demo_db bugs; seen = none }

parse_form-IsGood_example : IsGood bugs demo_settings
parse_form-IsGood_example = parse_form-IsGood bugs demo_form demo_settings demo_form_parsed

pub demo_db-IsStored : IsStored bugs demo_db
demo_db-IsStored = record {
  slugs = (refl, tt);
  hosts = (refl, tt);
  ascending = (tt, tt);
  numbered = (omega arith, tt);
  rows = ((refl, parse_form-IsGood bugs demo_form demo_settings demo_form_parsed), tt);
}

pub demo_app-IsPublished : IsPublished bugs demo_app
demo_app-IsPublished = record {
  stored = demo_db-IsStored;
  behind = λ v e. ground arith;
  current = λ e. refl;
}

abbrev admin_user : Actor
admin_user = user 1 admin

-- A second project asks for the same host; then the first is deleted.
abbrev pub busy : List Event
busy =
    create_form admin_user 10 false
      (record { slug = codes "next"; name = codes "Next"; public_host = codes "bugs.example.net" })
    ∷ elsewhere
    ∷ watched false
    ∷ delete_form admin_user 11 false (codes "demo") (codes "demo")
    ∷ []

run-IsPublished_example : IsPublished bugs (run bugs demo_app busy)
run-IsPublished_example = run-IsPublished bugs demo_app busy demo_app-IsPublished

save_unchanged_example :
    save bugs admin_user 10 true demo_app (codes "demo") (form_of demo_settings)
    ≡ (demo_app, see_settings (codes "demo"))
unfolding find_project find_slug find parse_slug
save_unchanged_example =
    save_unchanged bugs admin_user 10 true demo_app (codes "demo") demo demo_db-IsStored refl
