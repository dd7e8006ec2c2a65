-- ===== src/Auth/Reset.antt =====
-- src/auth/reset.rs, src/auth/commands.rs and the transactions of src/admin/reset.rs: reset tokens,
-- from the request to the new password. Drawn tokens appear as their hashes.
pub mod Single
pub mod Effect
pub mod Links
pub mod Submitted
pub mod Tests
use kohaku.Base.{
  ℕ, suc, ◌+◌, Bool, true, false, not, ◌&&◌, Option, none, some, List, [], ◌∷◌, ◌++◌, any, ltb,
  ◌==◌, is_some, is_some_and, if◌then◌else◌, count,
}
use kohaku.Base.Table.{find, update}
use kohaku.Base.Text.{Text, codes, text_eq, is_ascii_whitespace, trim_matches, to_ascii_lowercase}
use kohaku.Db.{
  Db, User, Role, admin, maintainer, Token, Purpose, reset, Actor, cli, user, user_password_reset,
  user_unlock, user_reset_link, user_target,
}
use kohaku.Mail.Kind.{
  MailKind, reset_link, password_changed, reset_lifetime, is_reset, is_open_reset,
}
use kohaku.Mail.Enqueue.{NewMail, address_recipient, user_recipient, enqueue}
use kohaku.Auth.Audit.{audit}
use kohaku.Auth.Session.{end_all}

-- The rules of mail and the wording of the mails of these kinds, at a time.
pub record Post : Type 0 where
  pub valid : Text → Bool
  pub subject_rule : Text → Text
  pub link_body : ℕ → Text → Text
  pub changed_body : ℕ → Text

-- `normalize_email` of src/auth/password.rs.
unfoldable pub normalize_email : Text → Text
normalize_email email = to_ascii_lowercase (trim_matches is_ascii_whitespace email)

-- `UPDATE tokens SET used_at .. WHERE user_id = ?1 AND purpose = 'reset' AND used_at IS NULL`.
unfoldable pub use_open : ℕ → ℕ → List Token → List Token
use_open user_id now = update (is_open_reset user_id) (λ t. record t { used_at = some now })

unfoldable pub issue_reset_token : Db → ℕ → Text → ℕ → Db
unfolding use_open
issue_reset_token db user_id token_hash now =
    let id = suc db.tokens_seq in
    let token : Token = record {
      id = id;
      purpose = reset;
      token_hash = token_hash;
      user_id = some user_id;
      expires_at = now + reset_lifetime;
      used_at = none;
    } in
    record db { tokens = use_open user_id now db.tokens ++ (token ∷ []); tokens_seq = id }

abbrev pub is_maintainer : Role → Bool
is_maintainer maintainer = true
is_maintainer admin = false

-- The account that a reset mail may go to.
abbrev pub may_reset : Text → User → Bool
may_reset email u =
    text_eq u.email email && (is_maintainer u.role && (not u.disabled && is_some u.password_hash))

abbrev pub placeholder_address : Text
placeholder_address = codes "placeholder@kohaku.invalid"

-- The placeholder's `UPDATE`, of reset tokens without an account.
abbrev pub is_unowned : Token → Bool
is_unowned t = not (is_some t.user_id) && (is_reset t.purpose && not (is_some t.used_at))

abbrev pub link_mail : Post → ℕ → Text → NewMail
link_mail post now link = record {
  kind = reset_link;
  recipient = address_recipient placeholder_address;
  subject = codes "Reset your Kohaku password";
  body = post.link_body now link;
  placeholder = true;
}

-- `queue_reset`, with the drawn token's hash and the link of it; `none` is an error.
unfoldable pub queue_reset : Post → Db → Text → Text → Text → ℕ → Option (Db × ℕ)
unfolding issue_reset_token
queue_reset post db email token_hash link now = elim (find (may_reset email) db.users) [
  | some u ↦
      enqueue post.valid post.subject_rule (issue_reset_token db u.id token_hash now)
        (record (link_mail post now link) { recipient = user_recipient u.id; placeholder = false })
        now
  | none ↦
      enqueue post.valid post.subject_rule
        (record db { tokens = update is_unowned (λ t. record t { used_at = some now }) db.tokens })
        (link_mail post now link) now
]

-- An unused reset token that has not expired.
abbrev pub is_valid_token : Text → ℕ → Token → Bool
is_valid_token hash now t =
    text_eq t.token_hash hash
    && (is_reset t.purpose && (not (is_some t.used_at) && ltb now t.expires_at))

-- The account of a token is enabled.
unfoldable pub has_enabled : Db → Token → Bool
has_enabled db t =
    is_some_and t.user_id (λ id. any (λ (u : User). u.id == id && not u.disabled) db.users)

-- `token_valid`, on the hash of the request's token.
unfoldable pub token_valid : Db → Text → ℕ → Bool
token_valid db hash now = any (λ t. is_valid_token hash now t && has_enabled db t) db.tokens

abbrev pub changed_mail : Post → ℕ → ℕ → NewMail
changed_mail post id now = record {
  kind = password_changed;
  recipient = user_recipient id;
  subject = codes "Your Kohaku password was changed";
  body = post.changed_body now;
  placeholder = false;
}

-- The writes of a new password, after the token was consumed.
unfoldable pub set_password : Post → Db → ℕ → Text → ℕ → Option (Db × ℕ)
set_password post db id hash now =
    let stored : Db = record db {
      users =
          update (λ (u : User). u.id == id) (λ u. record u { password_hash = some hash }) db.users;
    } in
    let ended = end_all stored id in
    enqueue post.valid post.subject_rule (record ended { tokens = use_open id now ended.tokens })
      (changed_mail post id now) now

-- The account of the row that the token's conditional write changes; `none` for no row.
abbrev pub consumed_account : Db → Text → ℕ → Option User
consumed_account db token_hash now =
    elim (find (λ t. is_valid_token token_hash now t && has_enabled db t) db.tokens) [
      | none ↦ none
      | some t ↦ elim t.user_id [ none ↦ none | some id ↦ find (λ (u : User). u.id == id) db.users ]
    ]

-- The transaction of `link_submit`: whether the token was consumed. Token hashes are unique.
unfoldable pub submit : Post → Db → Text → Text → ℕ → Option (Db × Bool)
submit post db token_hash hash now = elim (consumed_account db token_hash now) [
  | none ↦ some (db, false)
  | some u ↦
      let used : Db = record db {
        tokens =
            update (λ t. is_valid_token token_hash now t && has_enabled db t)
              (λ t. record t { used_at = some now }) db.tokens;
      } in
      elim (set_password post used u.id hash now) [
        | none ↦ none
        | some p ↦
            some (audit p.0 (user u.id u.role) user_password_reset (user_target u.id) now, true)
      ]
]

-- `with_account` of src/auth/commands.rs; `none` is `NoAccount`.
abbrev pub with_account : Db → Text → (Db → ℕ → Db) → Option Db
with_account db email work =
    elim (find (λ (u : User). text_eq u.email (normalize_email email)) db.users) [
      | none ↦ none
      | some u ↦ some (work db u.id)
    ]

abbrev pub unlocked : User → User
unlocked u = record u {
  locked_until = none;
  failed_logins = 0;
  device_failures = 0;
  device_window_start = none;
}

unfoldable pub unlock : Db → Text → ℕ → Option Db
unlock db email now = with_account db email (λ d id.
    audit (record d { users = update (λ (u : User). u.id == id) unlocked d.users }) cli user_unlock
      (user_target id) now)

unfoldable pub reset_password : Db → Text → Text → ℕ → Option Db
reset_password db email token_hash now =
    with_account db email (λ d id.
      audit (issue_reset_token d id token_hash now) cli user_reset_link (user_target id) now)
