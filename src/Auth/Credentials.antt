-- ===== src/Auth/Credentials.antt =====
-- src/auth/credentials.rs: the transaction that decides a login or a re-authentication.
pub mod Isolation
pub mod Accepted
pub mod Granted
pub mod Tests
use mathlib.Core.Option
use kohaku.Base.{
  ℕ, ◌+◌, Bool, true, false, not, ◌&&◌, ◌||◌, Option, none, some, List, [], ◌∷◌, count, ◌==◌, ltb,
  if◌then◌else◌, is_some_and, is_none_or,
}
use kohaku.Base.Int.{ℤ, ltb_ℤ}
use kohaku.Base.Table.{find, update}
use kohaku.Base.Text.{Text, text_eq, is_empty, is_ascii_whitespace, trim_matches}
use kohaku.Db.{Db, User, Role, admin, maintainer}
use kohaku.Mail.Kind.{lockout}
use kohaku.Mail.Enqueue.{NewMail, user_recipient, enqueue}
use kohaku.Auth.Crypto.{Crypto, char_count}
use kohaku.Auth.Lockout.{
  blocked, usable_hash, count_device_failure, counts_device_failure, count_login_failure,
  counts_login_failure, lock_seconds,
}
use kohaku.Auth.Recovery.{normalize, consume, consumed}
use kohaku.Auth.Session.{is_known_device}
use kohaku.Auth.Totp.{derive, is_code, matching_step}

abbrev password_max : ℕ
password_max = 1024

abbrev code_max : ℕ
code_max = 32

-- `Role::requires_two_factor`.
abbrev pub requires_two_factor : Role → Bool
requires_two_factor admin = true
requires_two_factor maintainer = false

pub data Outcome {ℓ} (T : Type ℓ) : Type ℓ where
  success : T → Outcome T
  failure two_factor_required busy : Outcome T

-- The rules of mail that a lockout mail meets, and its subject and body at a time.
pub record Mailer : Type 0 where
  pub valid : Text → Bool
  pub subject_rule : Text → Text
  pub subject : ℕ → Text
  pub body : ℕ → Text

-- `SELECT .. FROM users WHERE id = ?1`.
abbrev pub find_id : Db → ℕ → Option User
find_id db id = find (λ u. u.id == id) db.users

-- The `WHERE` of the write that records a step.
abbrev pub is_newer : ℕ → ℤ → User → Bool
is_newer user_id step u = u.id == user_id && is_none_or u.totp_last_step (λ last. ltb_ℤ last step)

unfoldable pub consume_step : Db → ℕ → ℤ → Option (Db × Bool)
unfolding consumed
consume_step db user_id step =
    Option.map
      (λ b. (
        record db {
          users =
              update (is_newer user_id step) (λ u. record u { totp_last_step = some step })
                db.users;
        },
        b,
      ))
      (consumed (count (is_newer user_id step) db.users))

-- `code_accepted`, on the code without surrounding whitespace; `none` is an error of the database.
unfoldable pub accept : Crypto → Db → ℕ → Text → Text → ℕ → Option (Db × Bool)
accept crypto db user_id seed code now =
    if is_code code
    then elim (matching_step crypto seed code now) [
      | none ↦ some (db, false)
      | some step ↦ consume_step db user_id step
    ]
    else elim (normalize code) [
      | none ↦ some (db, false)
      | some code ↦ consume crypto db user_id code
    ]

unfoldable pub code_accepted : Crypto → Db → ℕ → Text → Text → ℕ → Option (Db × Bool)
code_accepted crypto db user_id seed code now =
    accept crypto db user_id seed (trim_matches is_ascii_whitespace code) now

-- What the `RETURNING` of the lock's write says of the new row: it locked now, and a mail is due.
abbrev pub started : ℕ → User → Bool
started now u =
    is_some_and u.locked_until (λ until. until == now + lock_seconds)
    && is_some_and u.lockout_mailed_at (λ at. at == now)

abbrev pub lockout_mail : Mailer → ℕ → ℕ → NewMail
lockout_mail mailer id now = record {
  kind = lockout;
  recipient = user_recipient id;
  subject = mailer.subject now;
  body = mailer.body now;
  placeholder = false;
}

-- `count_failure`.
unfoldable pub count_failure : Mailer → Db → User → Bool → ℕ → Option Db
count_failure mailer db account true now = some (record db {
  users =
      update (λ u. u.id == account.id && counts_device_failure now u) (count_device_failure now)
        db.users;
})
count_failure mailer db account false now =
    let counts = λ (u : User). u.id == account.id && counts_login_failure now u in
    let counted = record db { users = update counts (count_login_failure now) db.users } in
    if is_some_and (find counts db.users) (λ u. started now (count_login_failure now u))
    then Option.map (λ p. p.0)
        (enqueue mailer.valid mailer.subject_rule counted (lockout_mail mailer account.id now) now)
    else some counted

-- The submitted hash is the one stored now, and the account is enabled.
abbrev pub password_ok : Option Text → User → Bool
password_ok hash account =
    is_some_and hash (λ h. is_some_and account.password_hash (λ stored. text_eq h stored))
    && not account.disabled

-- The counters that a success clears.
abbrev pub cleared : User → User
cleared u = record u { failed_logins = 0; device_failures = 0; device_window_start = none }

pub data Lookup : Type 0 where
  email_lookup : Text → Lookup
  id_lookup : ℕ → Lookup

pub record Attempt : Type 0 where
  pub account : Lookup
  pub password : Text
  pub code : Text
  pub device : Option Text

unfoldable pub find_account : Db → Lookup → Option User
find_account db (email_lookup email) = find (λ u. text_eq u.email email) db.users
find_account db (id_lookup id) = find_id db id

is_device : Db → Option User → Option Text → ℕ → Bool
is_device db (some account) (some hash) now = is_known_device db account.id hash now
is_device db (some account) none now = false
is_device db none device now = false

-- The account's usable hash, if the password matches it and nothing is too long.
unfoldable pub matched_hash : Crypto → Option User → Bool → Text → Text → ℕ → Option Text
matched_hash crypto none known_device password code now = none
matched_hash crypto (some account) known_device password code now =
    let oversize = ltb password_max (char_count password) || ltb code_max (char_count code) in
    elim (usable_hash account known_device now) [
      | none ↦ none
      | some hash ↦ if not oversize && crypto.verify_password password hash then some hash else none
    ]

module _ {ℓ} {T : Type ℓ} (crypto : Crypto) (mailer : Mailer)
    (success_work : Db → User → ℕ → Option (Db × T)) where
  fail : Db → User → Bool → ℕ → Option (Db × Outcome T)
  unfolding count_failure
  fail db account known_device now =
      Option.map (λ d. (d, failure)) (count_failure mailer db account known_device now)

  succeed : Db → User → ℕ → Option (Db × Outcome T)
  succeed db account now =
      Option.map (λ p. (p.0, success p.1))
        (success_work (record db { users = update (λ u. u.id == account.id) cleared db.users })
          account now)

  finish : User → Bool → ℕ → Option (Db × Bool) → Option (Db × Outcome T)
  unfolding fail succeed
  finish account known_device now none = none
  finish account known_device now (some (db, true)) = succeed db account now
  finish account known_device now (some (db, false)) = fail db account known_device now

  second_factor : Db → User → Bool → Text → ℕ → Option Text → Option (Db × Outcome T)
  unfolding finish code_accepted
  second_factor db account known_device code now none =
      if requires_two_factor account.role
      then some (db, two_factor_required)
      else finish account known_device now (some (db, true))
  second_factor db account known_device code now (some nonce) =
      finish account known_device now
        (code_accepted crypto db account.id (derive crypto account.id nonce) code now)

  decide_account : Db → User → Option Text → Bool → Text → ℕ → Option (Db × Outcome T)
  unfolding second_factor fail blocked
  decide_account db account hash known_device code now =
      if blocked account known_device now
      then some (db, failure)
      else if password_ok hash account
      then second_factor db account known_device code now account.totp_nonce
      else fail db account known_device now

  -- `decide`; `none` is an error, which rolls the transaction back.
  unfoldable pub decide : Db → ℕ → Option Text → Bool → Text → ℕ → Option (Db × Outcome T)
  unfolding decide_account
  decide db id hash known_device code now = elim (find_id db id) [
    | none ↦ some (db, failure)
    | some account ↦ decide_account db account hash known_device code now
  ]

  -- `check`: the first state is the one that it reads before it waits for a permit to hash, the
  -- second the one that its transaction meets.
  unfoldable pub check : Db → Db → Attempt → Bool → ℕ → Option (Db × Outcome T)
  unfolding matched_hash find_account is_device
  check seen db attempt permitted now =
      let account = find_account seen attempt.account in
      let known = is_device seen account attempt.device now in
      if not permitted then some (db, busy) else elim account [
        | none ↦ some (db, failure)
        | some a ↦
            decide db a.id (matched_hash crypto (some a) known attempt.password attempt.code now)
              known attempt.code now
      ]
