-- ===== src/Mail/Kind.antt =====
-- `MailKind` of src/mail/outbox.rs and the kinds of src/auth/mail.rs.
use kohaku.Base.{
  ℕ, ◌*◌, Bool, true, false, ◌&&◌, not, Option, none, some, List, [], ◌∷◌, is_some, is_some_and,
  ◌==◌,
}
use kohaku.Base.Table.{update, find}
use kohaku.Base.Text.{Text, codes}
use kohaku.Db.{Db, Priority, security, normal, Purpose, reset, setup, invite, Token}

-- `give_up` also takes the database's clock, `unixepoch()`.
pub record MailKind : Type 0 where
  pub name : Text
  pub priority : Priority
  pub token : Bool
  pub lifetime : ℕ
  pub give_up : Option (ℕ → Db → ℕ → Db)

abbrev pub reset_lifetime : ℕ
reset_lifetime = 60 * 60

abbrev pub security_lifetime : ℕ
security_lifetime = 24 * 60 * 60

abbrev pub is_reset : Purpose → Bool
is_reset reset = true
is_reset setup = false
is_reset invite = false

-- An unused reset token of the account.
abbrev pub is_open_reset : ℕ → Token → Bool
is_open_reset user_id t =
    is_reset t.purpose && (not (is_some t.used_at) && is_some_and t.user_id (λ u. u == user_id))

-- `expire_reset_token`: the account is that of the outbox row; a row with none expires nothing.
unfoldable pub expire_reset_token : ℕ → Db → ℕ → Db
expire_reset_token clock db outbox_id = elim (find (λ r. r.id == outbox_id) db.outbox) [
  | none ↦ db
  | some row ↦ elim row.user_id [
    | none ↦ db
    | some user_id ↦ record db {
      tokens = update (is_open_reset user_id) (λ t. record t { used_at = some clock }) db.tokens;
    }
  ]
]

unfoldable pub reset_link : MailKind
reset_link = record {
  name = codes "account_reset_link";
  priority = normal;
  token = true;
  lifetime = reset_lifetime;
  give_up = some expire_reset_token;
}

unfoldable pub lockout : MailKind
lockout = record {
  name = codes "account_lockout";
  priority = security;
  token = false;
  lifetime = security_lifetime;
  give_up = none;
}

unfoldable pub password_changed : MailKind
password_changed = record {
  name = codes "account_password_changed";
  priority = security;
  token = false;
  lifetime = security_lifetime;
  give_up = none;
}

-- `KINDS`.
unfoldable pub kinds : List MailKind
unfolding reset_link lockout password_changed
kinds = reset_link ∷ lockout ∷ password_changed ∷ []
