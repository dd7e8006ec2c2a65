-- ===== src/Projects/Rows.antt =====
-- The rows of the table of projects (src/projects/mod.rs).
use kohaku.Base.{
  ℕ, ◌≤◌, ◌<◌, ◌≡◌, refl, inl, inr, Bool, false, not, ◌&&◌, ◌||◌, Option, none, some, List, [], ◌∷◌,
  ◌++◌, any, keep, All, All-append, All-kept, ◌==◌, ==_iff, arith, Bool-cases, subst,
}
use kohaku.Base.Table.{update}
use kohaku.Base.Text.{Text}
use kohaku.Base.Unique.{has, taken, IsUnique, Once}
use kohaku.Db.{Db, Settings, ProjectRow}
use kohaku.Projects.{slug_column, host_column}

-- Ids go up along the table, from 1 to the last that was given out.
abbrev pub Ascending : List ProjectRow → Type 0
Ascending [] = Unit
Ascending (p ∷ rows) = All (λ q. p.id < q.id) rows × Ascending rows

-- The table, with what every row's slug and settings are known to meet.
pub record IsValid (IsSlug : Text → Type 0) (IsGood : Settings → Type 0) (db : Db) : Type 0 where
  pub slugs : IsUnique slug_column db.projects
  pub hosts : IsUnique host_column db.projects
  pub ascending : Ascending db.projects
  pub numbered : All (λ (p : ProjectRow). (0 < p.id) × (p.id ≤ db.projects_seq)) db.projects
  pub rows : All (λ (p : ProjectRow). IsSlug p.slug × IsGood p.settings) db.projects

pub Ascending-append :
    (rows : List ProjectRow) (p : ProjectRow)
    → Ascending rows
    → All (λ q. q.id < p.id) rows
    → Ascending (rows ++ (p ∷ []))
Ascending-append [] p a b = (tt, tt)
Ascending-append (q ∷ rows) p a b =
    (All-append (λ r. q.id < r.id) rows (p ∷ []) a.0 (b.0, tt), Ascending-append rows p a.1 b.1)

pub kept-Ascending :
    (q : ProjectRow → Bool) (rows : List ProjectRow) → Ascending rows → Ascending (keep q rows)
kept-Ascending q [] a = tt
kept-Ascending q (p ∷ rows) a = elim (Bool-cases (q p)) [
  | inl t ↦ rw t (All-kept (λ r. p.id < r.id) q rows a.0, kept-Ascending q rows a.1)
  | inr f ↦ rw f (kept-Ascending q rows a.1)
]

-- New settings for the rows with an id.
abbrev set : ℕ → Settings → List ProjectRow → List ProjectRow
set id settings = update (λ (p : ProjectRow). p.id == id) (λ p. record p { settings = settings })

pub set-All :
    (P : ProjectRow → Type 0) (id : ℕ) (settings : Settings) (rows : List ProjectRow)
    → ((p : ProjectRow) → P p → P (record p { settings = settings }))
    → All P rows
    → All P (set id settings rows)
set-All P id settings [] h a = tt
set-All P id settings (p ∷ rows) h a = elim (Bool-cases (p.id == id)) [
  | inl t ↦ rw t (h p a.0, set-All P id settings rows h a.1)
  | inr f ↦ rw f (a.0, set-All P id settings rows h a.1)
]

pub set-Ascending :
    (id : ℕ) (settings : Settings) (rows : List ProjectRow)
    → Ascending rows
    → Ascending (set id settings rows)
set-Ascending id settings [] a = tt
set-Ascending id settings (p ∷ rows) a = elim (Bool-cases (p.id == id)) [
  | inl t ↦ rw t (
    set-All (λ q. p.id < q.id) id settings rows (λ q h. h) a.0,
    set-Ascending id settings rows a.1,
  )
  | inr f ↦ rw f (
    set-All (λ q. p.id < q.id) id settings rows (λ q h. h) a.0,
    set-Ascending id settings rows a.1,
  )
]

none_after :
    (id : ℕ) (rows : List ProjectRow)
    → All (λ p. id < p.id) rows
    → any (λ (p : ProjectRow). p.id == id) rows ≡ false
none_after id [] a = refl
none_after id (p ∷ rows) a = ground (arith, a.0, none_after id rows a.1)

pub Ascending-Once :
    (id : ℕ) (rows : List ProjectRow) → Ascending rows → Once (λ (p : ProjectRow). p.id == id) rows
Ascending-Once id [] a = tt
Ascending-Once id (p ∷ rows) a = (
  λ e.
      subst (λ i. any (λ (q : ProjectRow). q.id == i) rows ≡ false) ((==_iff p.id id).0 e)
        (none_after p.id rows a.0),
  Ascending-Once id rows a.1,
)

taken-set :
    (value : Option Text) (id : ℕ) (settings : Settings) (rows : List ProjectRow)
    → taken slug_column value (set id settings rows) ≡ taken slug_column value rows
taken-set value id settings [] = refl
taken-set value id settings (p ∷ rows) = elim (Bool-cases (p.id == id)) [
  | inl t ↦ rw (t, taken-set value id settings rows) (same value p settings)
  | inr f ↦ rw (f, taken-set value id settings rows) refl
]
  where
    same :
        (v : Option Text) (q : ProjectRow) (new : Settings)
        → (has slug_column v (record q { settings = new }) || taken slug_column value rows)
          ≡ (has slug_column v q || taken slug_column value rows)
    same none q new = refl
    same (some w) q new = refl

pub set-slugs :
    (id : ℕ) (settings : Settings) (rows : List ProjectRow)
    → IsUnique slug_column rows
    → IsUnique slug_column (set id settings rows)
set-slugs id settings [] u = tt
set-slugs id settings (p ∷ rows) u = elim (Bool-cases (p.id == id)) [
  | inl t ↦ rw (t, taken-set (some p.slug) id settings rows) (u.0, set-slugs id settings rows u.1)
  | inr f ↦ rw (f, taken-set (some p.slug) id settings rows) (u.0, set-slugs id settings rows u.1)
]

pub numbered-not_zero :
    (settings : Settings) (seq : ℕ) (rows : List ProjectRow)
    → All (λ (p : ProjectRow). (0 < p.id) × (p.id ≤ seq)) rows
    → any (λ (p : ProjectRow). not (p.id == 0) && has host_column settings.public_host p) rows
      ≡ taken host_column settings.public_host rows
numbered-not_zero settings seq [] a = refl
numbered-not_zero settings seq (p ∷ rows) a =
    ground (arith, a.0, numbered-not_zero settings seq rows a.1)
