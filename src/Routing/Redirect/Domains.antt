-- ===== src/Routing/Redirect/Domains.antt =====
-- The domains of a loaded map (src/routing/hosts.rs).
use kohaku.Base.{
  ◌≡◌, refl, ap, ◌∙◌, subst, inl, inr, Bool, true, false, Option, none, some, List, [], ◌∷◌, arith,
  Bool-cases, Option-cases, if◌then◌else◌,
}
use kohaku.Base.Dict
use kohaku.Base.Table.{find}
use kohaku.Base.Text.{Text, text_eq}
use kohaku.Base.Text.Equal.{text_eq_sound}
use kohaku.Base.Unique.{taken, IsUnique}
use kohaku.Config.BaseUrl.{BaseUrl}
use kohaku.Db.{Db, ProjectRow}
use kohaku.Projects.{slug_column, find_slug}
use kohaku.Routing.Hosts.{HostMap, add_row, load_rows, load, domain}
use kohaku.Routing.Redirect.{Answer, permanent_redirect}

-- The domain of the slug's project, or else what the map had.
abbrev or_domain : Option Text → Option Text → Option Text
or_domain none before = before
or_domain (some host) before = some host

abbrev pub domain_of : Option ProjectRow → Option Text → Option Text
domain_of none before = before
domain_of (some p) before = or_domain p.settings.public_host before

domain-add_row :
    (map : HostMap) (p : ProjectRow) (slug : Text)
    → domain (add_row map p.settings.public_host p) slug ≡ (
        if text_eq p.slug slug
        then or_domain p.settings.public_host (domain map slug)
        else domain map slug)
domain-add_row map p slug = elim (Option-cases p.settings.public_host) [
  | inr (host, s) ↦ rw s (Dict.get-insert p.slug slug host map.domains)
  | inl n ↦ elim (Bool-cases (text_eq p.slug slug)) [
    | inl t ↦ rw (n, t) refl
    | inr f ↦ rw (n, f) refl
  ]
]

slug_once :
    (p : ProjectRow) (rows : List ProjectRow) (slug : Text)
    → text_eq p.slug slug ≡ true
    → taken slug_column (some p.slug) rows ≡ false
    → find (λ (q : ProjectRow). text_eq q.slug slug) rows ≡ none
unfolding find
slug_once p [] slug s t = refl
slug_once p (q ∷ rows) slug s t =
    let same = text_eq_sound p.slug slug s in
    let other : text_eq q.slug slug ≡ false =
      subst (λ x. text_eq q.slug x ≡ false) same (ground (arith, t)) in
    rw other (slug_once p rows slug s (ground (arith, t)))

pub redirect_inj :
    {a b : Text} → ◌≡◌ {A = Answer} (permanent_redirect a) (permanent_redirect b) → a ≡ b
redirect_inj e = cc

domain-load_rows :
    (map : HostMap) (rows : List ProjectRow) (slug : Text)
    → IsUnique slug_column rows
    → domain (load_rows map rows) slug
      ≡ domain_of (find (λ (p : ProjectRow). text_eq p.slug slug) rows) (domain map slug)
unfolding load_rows find
domain-load_rows map [] slug u = refl
domain-load_rows map (p ∷ rows) slug u =
    domain-load_rows (add_row map p.settings.public_host p) rows slug u.1
    ∙ (ap (domain_of (find (λ (q : ProjectRow). text_eq q.slug slug) rows))
          (domain-add_row map p slug)
        ∙ step (text_eq p.slug slug) refl)
  where
    step :
        (b : Bool)
        → text_eq p.slug slug ≡ b
        → domain_of
            (find (λ (q : ProjectRow). text_eq q.slug slug) rows)
            (if b then or_domain p.settings.public_host (domain map slug) else domain map slug)
          ≡ domain_of
              (if b then some p else find (λ (q : ProjectRow). text_eq q.slug slug) rows)
              (domain map slug)
    step true t = rw (slug_once p rows slug t u.0) refl
    step false f = refl

pub domain-load :
    (db : Db) (base_url : BaseUrl) (slug : Text)
    → IsUnique slug_column db.projects
    → domain (load db base_url) slug ≡ domain_of (find_slug db slug) none
unfolding load find_slug Dict.get
domain-load db base_url slug u = domain-load_rows _ db.projects slug u
