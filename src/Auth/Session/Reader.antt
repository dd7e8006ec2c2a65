-- ===== src/Auth/Session/Reader.antt =====
-- The account that `current` of src/auth/session.rs answers with depends on two lookups only.
use kohaku.Base.{ℕ, ◌≡◌, refl, Option, none, some, List, Option-cases, inl, inr}
use kohaku.Base.Table.{find}
use kohaku.Base.Text.{Text}
use kohaku.Db.{Db, User, Session}
use kohaku.Auth.Session.{SessionUser, is_live, may_act, session_user, current}

abbrev pub reader : Option Session → List User → Option SessionUser
reader none users = none
reader (some s) users = elim (find (may_act s.user_id) users) [
  | none ↦ none
  | some u ↦ some (session_user s u)
]

pub current-reader :
    (db : Db) (hash : Text) (now : ℕ)
    → (current db hash now).1 ≡ reader (find (is_live hash now) db.sessions) db.users
unfolding current
current-reader db hash now = elim (Option-cases (find (is_live hash now) db.sessions)) [
  | inl e ↦ rw (current, e) refl
  | inr e ↦ elim (Option-cases (find (may_act e.0.user_id) db.users)) [
    | inl f ↦ rw (current, reader, e.1, f) refl
    | inr f ↦ rw (current, reader, e.1, f.1) refl
  ]
]
