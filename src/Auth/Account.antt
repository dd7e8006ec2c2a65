-- ===== src/Auth/Account.antt =====
-- The transactions of src/admin/login.rs and src/admin/account.rs. Those that re-authenticate are
-- the success work of the credential check; drawn values are arguments.
pub mod Enrolled
pub mod Tests
use mathlib.Core.Option
use kohaku.Base.{
  ℕ, suc, ◌+◌, Bool, true, false, not, ◌&&◌, Option, none, some, List, [], ◌∷◌, ◌++◌, ◌==◌,
  if◌then◌else◌,
}
use kohaku.Base.Int.{ℤ}
use kohaku.Base.Table.{find, update, delete}
use kohaku.Base.Text.{Text}
use kohaku.Db.{
  Db, User, Role, Session, Device, RecoveryCode, user, user_target, user_password_change,
  user_totp_enable, user_totp_disable, user_recovery_codes, user_sessions_end,
}
use kohaku.Auth.Audit.{audit}
use kohaku.Auth.Crypto.{Crypto}
use kohaku.Auth.Totp.{derive, matching_step}
use kohaku.Auth.Recovery.{replace}
use kohaku.Auth.Reset.{Post, set_password}
use kohaku.Auth.Session.{create, add_device, is_known_device}

-- The success work of `submit` of src/admin/login.rs: a session, and a device cookie unless the
-- request carried one of the account. The answer says whether a cookie was made.
unfoldable pub login : Text → Text → Text → Option Text → Db → User → ℕ → Option (Db × Bool)
login token_hash csrf device_hash device db account now =
    let signed_in = create db account.id token_hash csrf now in
    elim device [
      | none ↦ some (add_device signed_in account.id device_hash now, true)
      | some hash ↦
          if is_known_device signed_in account.id hash now
          then some (signed_in, false)
          else some (add_device signed_in account.id device_hash now, true)
    ]

-- `change_password`, with the new hash.
unfoldable pub change_password : Post → Text → Db → User → ℕ → Option (Db × Unit {0})
change_password post hash db account now =
    Option.map
      (λ p. (
        audit p.0 (user account.id account.role) user_password_change (user_target account.id) now,
        tt,
      ))
      (set_password post db account.id hash now)

-- `start_totp`, with the drawn nonce.
unfoldable pub start_totp : ℕ → Text → Db → User → ℕ → Option (Db × Text)
start_totp session_id nonce db account now = some (
  record db {
    sessions =
        update (λ (s : Session). s.id == session_id)
          (λ s. record s { pending_totp_nonce = some nonce }) db.sessions;
  },
  nonce,
)

-- Ends the account's other sessions.
abbrev pub end_others : ℕ → ℕ → List Session → List Session
end_others user_id session_id = delete (λ s. s.user_id == user_id && not (s.id == session_id))

pub data Confirmed : Type 0 where
  not_started : Confirmed
  wrong_code : Text → Confirmed
  enrolled : List Text → Confirmed

-- The pending nonce of the session.
abbrev pub pending : Db → ℕ → Option Text
pending db session_id = elim (find (λ (s : Session). s.id == session_id) db.sessions) [
  | none ↦ none
  | some s ↦ s.pending_totp_nonce
]

-- The writes of an enrollment after the codes were replaced.
unfoldable pub finish_enroll : ℕ → ℕ → Role → ℕ → Db → Db
finish_enroll session_id user_id role now db =
    audit
      (record db {
        sessions =
            update (λ s. s.id == session_id) (λ s. record s { pending_totp_nonce = none })
              (end_others user_id session_id db.sessions);
        known_devices = delete (λ (x : Device). x.user_id == user_id) db.known_devices;
      })
      (user user_id role) user_totp_enable (user_target user_id) now

-- The writes of an enrollment, on the codes that the random source gives.
unfoldable pub enroll :
    Crypto → Db → ℕ → ℕ → Role → Text → ℤ → List Text → ℕ → Option (Db × Confirmed)
enroll crypto db session_id user_id role nonce step draws now =
    let stored : Db = record db {
      users =
          update (λ (u : User). u.id == user_id)
            (λ u. record u { totp_nonce = some nonce; totp_last_step = some step }) db.users;
    } in
    Option.map (λ p. (finish_enroll session_id user_id role now p.0, enrolled p.1))
      (replace crypto stored user_id draws)

-- `confirm_totp`, on the code without surrounding whitespace; `none` is an error.
unfoldable pub confirm_totp :
    Crypto → Db → ℕ → ℕ → Role → Text → List Text → ℕ → Option (Db × Confirmed)
confirm_totp crypto db session_id user_id role code draws now = elim (pending db session_id) [
  | none ↦ some (db, not_started)
  | some nonce ↦ elim (matching_step crypto (derive crypto user_id nonce) code now) [
    | none ↦ some (db, wrong_code nonce)
    | some step ↦ enroll crypto db session_id user_id role nonce step draws now
  ]
]

-- `disable_totp`, for roles that need no second factor.
unfoldable pub disable_totp : Db → User → ℕ → Option (Db × Unit {0})
disable_totp db account now = some (
  audit
      (record db {
        users =
            update (λ (u : User). u.id == account.id)
              (λ u. record u { totp_nonce = none; totp_last_step = none }) db.users;
        recovery_codes = delete (λ (r : RecoveryCode). r.user_id == account.id) db.recovery_codes;
        known_devices = delete (λ (d : Device). d.user_id == account.id) db.known_devices;
      })
      (user account.id account.role) user_totp_disable (user_target account.id) now,
  tt,
)

-- `regenerate_codes`.
unfoldable pub regenerate_codes : Crypto → List Text → Db → User → ℕ → Option (Db × List Text)
regenerate_codes crypto draws db account now =
    Option.map
      (λ p. (
        audit p.0 (user account.id account.role) user_recovery_codes (user_target account.id) now,
        p.1,
      ))
      (replace crypto db account.id draws)

-- `end_other_sessions`.
unfoldable pub end_other_sessions : Db → ℕ → ℕ → Role → ℕ → Db
end_other_sessions db session_id user_id role now =
    audit (record db { sessions = end_others user_id session_id db.sessions }) (user user_id role)
      user_sessions_end (user_target user_id) now
