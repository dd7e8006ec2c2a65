-- ===== src/Routing/Hosts/Loaded.antt =====
-- The map is that of the table (src/routing/hosts.rs).
use kohaku.Base.{
  ◌≡◌, refl, ap, ◌∙◌, inl, inr, Bool, true, false, Option, none, some, List, [], ◌∷◌, if◌then◌else◌,
  arith, Option-cases, subst,
}
use kohaku.Base.Dict
use kohaku.Base.Table.{find, find-none}
use kohaku.Base.Text.{Text, text_eq}
use kohaku.Base.Text.Equal.{text_eq_sound}
use kohaku.Base.Unique.{has, taken, IsUnique}
use kohaku.Config.BaseUrl.{BaseUrl}
use kohaku.Db.{Db, ProjectRow}
use kohaku.Projects.{host_column}
use kohaku.Routing.Hosts.{HostEntry, main, project, HostMap, new_map, add_row, load_rows, load, get}

-- What a host stands for by the table: the project that has it, or else what the map had.
abbrev pub entry_of : Option ProjectRow → Option HostEntry → Option HostEntry
entry_of none before = before
entry_of (some p) before = some (project p.id)

abbrev pub entry_in : List ProjectRow → Option HostEntry → Text → Option HostEntry
entry_in rows before host = entry_of (find (has host_column (some host)) rows) before

get-add_row :
    (map : HostMap) (p : ProjectRow) (host : Text)
    → get (add_row map p.settings.public_host p) host
      ≡ (if has host_column (some host) p then some (project p.id) else get map host)
get-add_row map p host = elim (Option-cases p.settings.public_host) [
  | inl n ↦ rw n refl
  | inr (value, s) ↦ rw s (Dict.get-insert value host (project p.id) map.entries)
]

-- A host that a row has is taken for no other row.
host_once :
    (p : ProjectRow) (rows : List ProjectRow) (host : Text)
    → has host_column (some host) p ≡ true
    → taken host_column (host_column p) rows ≡ false
    → taken host_column (some host) rows ≡ false
host_once p rows host h t = elim (Option-cases p.settings.public_host) [
  | inl n ↦ absurd (ground (arith, rw n at h))
  | inr (value, s) ↦
      let same : text_eq value host ≡ true = rw s at h in
      let free : taken host_column (some value) rows ≡ false = rw s at t in
      subst (λ v. taken host_column (some v) rows ≡ false) (text_eq_sound value host same) free
]

get-load_rows :
    (map : HostMap) (rows : List ProjectRow) (host : Text)
    → IsUnique host_column rows
    → get (load_rows map rows) host ≡ entry_in rows (get map host) host
unfolding load_rows find
get-load_rows map [] host u = refl
get-load_rows map (p ∷ rows) host u =
    get-load_rows (add_row map p.settings.public_host p) rows host u.1
    ∙ (ap (λ before. entry_in rows before host) (get-add_row map p host)
        ∙ step (has host_column (some host) p) refl)
  where
    step :
        (b : Bool)
        → has host_column (some host) p ≡ b
        → entry_in rows (if b then some (project p.id) else get map host) host
          ≡ entry_of (if b then some p else find (has host_column (some host)) rows) (get map host)
    step true t =
        rw (find-none (has host_column (some host)) rows (host_once p rows host t u.0)) refl
    step false f = refl

-- The map sends a name to the project that has it as its custom domain, the main host to the main
-- router, and nothing else anywhere, if no two projects share a domain.
pub get-load :
    (db : Db) (base_url : BaseUrl) (host : Text)
    → IsUnique host_column db.projects
    → get (load db base_url) host
      ≡ entry_in db.projects (if text_eq base_url.host host then some main else none) host
unfolding load Dict.get
get-load db base_url host u =
    get-load_rows (new_map base_url) db.projects host u
    ∙ ap (λ before. entry_in db.projects before host) (Dict.get-insert base_url.host host main [])
