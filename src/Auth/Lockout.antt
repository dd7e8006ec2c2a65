-- ===== src/Auth/Lockout.antt =====
-- The lock and the device window of src/auth/credentials.rs: who is blocked, and what one failure
-- counts.
pub mod Guesses
use kohaku.Base.{
  ℕ, ◌+◌, ◌*◌, Bool, true, false, not, ◌&&◌, ◌||◌, Option, none, some, ltb, leb, ◌==◌,
  if◌then◌else◌, is_some_and, is_none_or,
}
use kohaku.Base.Text.{Text}
use kohaku.Db.{User}

abbrev pub lock_after : ℕ
lock_after = 10

abbrev pub lock_seconds : ℕ
lock_seconds = 15 * 60

abbrev pub device_window_seconds : ℕ
device_window_seconds = 60 * 60

abbrev pub device_failures_max : ℕ
device_failures_max = 20

abbrev pub lockout_mail_seconds : ℕ
lockout_mail_seconds = 24 * 60 * 60

-- `Account::blocked`.
unfoldable pub blocked : User → Bool → ℕ → Bool
blocked account true now =
    is_some_and account.device_window_start (λ start. ltb now (start + device_window_seconds))
    && leb device_failures_max account.device_failures
blocked account false now = is_some_and account.locked_until (λ until. ltb now until)

-- `Account::usable_hash`.
unfoldable pub usable_hash : User → Bool → ℕ → Option Text
usable_hash account known_device now =
    if not account.disabled && not (blocked account known_device now)
    then account.password_hash
    else none

-- The condition of the window's `CASE`s: it never began, or is over.
abbrev pub window_over : User → ℕ → Bool
window_over u now =
    is_none_or u.device_window_start (λ start. leb (start + device_window_seconds) now)

-- The write of a failure with a device cookie, and its `WHERE` but for the id.
unfoldable pub count_device_failure : ℕ → User → User
count_device_failure now u = record u {
  device_failures = if window_over u now then 1 else u.device_failures + 1;
  device_window_start = if window_over u now then some now else u.device_window_start;
}

abbrev pub counts_device_failure : ℕ → User → Bool
counts_device_failure now u = not (
    is_some_and u.device_window_start (λ start. ltb now (start + device_window_seconds))
    && leb device_failures_max u.device_failures)

-- The condition of the lock's `CASE`s.
abbrev pub locks : User → Bool
locks u = leb lock_after (u.failed_logins + 1)

abbrev pub mail_due : User → ℕ → Bool
mail_due u now = is_none_or u.lockout_mailed_at (λ at. leb (at + lockout_mail_seconds) now)

-- The write of a failure without one, and its `WHERE` but for the id.
unfoldable pub count_login_failure : ℕ → User → User
count_login_failure now u = record u {
  failed_logins = if locks u then 0 else u.failed_logins + 1;
  locked_until = if locks u then some (now + lock_seconds) else u.locked_until;
  lockout_mailed_at = if locks u && mail_due u now then some now else u.lockout_mailed_at;
}

abbrev pub counts_login_failure : ℕ → User → Bool
counts_login_failure now u = is_none_or u.locked_until (λ until. leb until now)

-- One failed attempt, as its account's row sees it.
unfoldable pub after_failure : Bool → ℕ → User → User
after_failure true now u = if counts_device_failure now u then count_device_failure now u else u
after_failure false now u = if counts_login_failure now u then count_login_failure now u else u
