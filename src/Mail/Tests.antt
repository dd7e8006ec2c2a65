-- ===== src/Mail/Tests.antt =====
-- Runs of the outbox (src/mail/outbox.rs) on concrete rows.
use kohaku.Base.{
  map, ◌+◌, ◌*◌, ◌+◌, ◌*◌, ◌≡◌, refl, true, false, none, some, List, [], ◌∷◌, arith, All,
}
use kohaku.Base.Table.{update, find}
use kohaku.Base.Text.{codes}
use kohaku.Db.{Db, OutboxRow, Token, reset, normal, User, maintainer}
use kohaku.Mail.Kind.{kinds, reset_link, lockout, is_open_reset}
use kohaku.Mail.Enqueue.{NewMail, user_recipient}
use kohaku.Mail.Retry.{deadline}
use kohaku.Mail.Retry.Schedule.{attempt_times, attempt_times-schedule}
use kohaku.Mail.GiveUp.{give_up}
use kohaku.Mail.GiveUp.Gone.{Gone}
use kohaku.Mail.GiveUp.Tokens.{give_up-reset}
use kohaku.Mail.Attempt.{delivered, failed, record_outcome}
use kohaku.Mail.Attempt.Settled.{IsSettled, record_outcome-IsSettled}
use kohaku.Mail.Lifecycle.{Evolves}
use kohaku.Mail.Invariant.{
  IsValid, Event, enqueued, picked, recorded, retained, step, run, run-IsValid, step-Evolves,
}

abbrev alice : User
alice = record {
  id = 1;
  email = codes "a@example.org";
  password_hash = none;
  role = maintainer;
  disabled = false;
  totp_nonce = none;
  totp_last_step = none;
  failed_logins = 0;
  locked_until = none;
  device_failures = 0;
  device_window_start = none;
  lockout_mailed_at = none;
  created_at = 0;
}

-- The first mail of the account and a token that was issued after it.
abbrev reset_row : OutboxRow
reset_row = record {
  id = 1;
  kind = reset_link.name;
  user_id = some 1;
  address = none;
  subject = codes "Reset your Kohaku password";
  body = codes "https://kohaku.example/reset";
  priority = normal;
  token = true;
  placeholder = false;
  attempts = 0;
  next_attempt_at = 100;
  queued_at = 100;
  expires_at = 3700;
  outcome = none;
}

abbrev later_token : Token
later_token = record {
  id = 2;
  purpose = reset;
  token_hash = codes "later";
  user_id = some 1;
  expires_at = 7000;
  used_at = none;
}

abbrev waiting : Db
waiting = record {
  users = alice ∷ [];
  sessions = [];
  known_devices = [];
  recovery_codes = [];
  tokens = later_token ∷ [];
  tokens_seq = 2;
  outbox = reset_row ∷ [];
  outbox_seq = 1;
  audit_log = [];
  projects = [];
  projects_seq = 0;
}

waiting-IsValid : IsValid waiting
unfolding IsValid deadline
waiting-IsValid = ((tt, tt), ((omega arith, omega arith, λ t. refl), tt))

abbrev lockout_mail : NewMail
lockout_mail = record {
  kind = lockout;
  recipient = user_recipient 1;
  subject = codes "Your Kohaku account was locked";
  body = [];
  placeholder = false;
}

abbrev events : List Event
events =
    enqueued lockout_mail 200 ∷ picked 300 300 ∷ recorded 310 2 failed 309 ∷ retained 4000 4000 ∷ []

run-IsValid_example : IsValid (run (λ _. true) (λ s. s) waiting events)
unfolding lockout
run-IsValid_example =
    run-IsValid (λ _. true) (λ s. s) waiting events (omega arith, (tt, (tt, (tt, tt))))
      waiting-IsValid

step-Evolves_example :
    Evolves waiting.outbox (step (λ _. true) (λ s. s) waiting (recorded 310 1 failed 309)).outbox
step-Evolves_example =
    step-Evolves (λ _. true) (λ s. s) waiting (recorded 310 1 failed 309) waiting-IsValid
      (λ mail now e. ground (arith, e))

-- The mail fails until its deadline, and with it goes the token that was issued later.
give_up-reset_example :
    ((give_up kinds 3700 waiting 1).tokens
      ≡ update (is_open_reset 1) (λ t. record t { used_at = some 3700 }) waiting.tokens)
    × Gone 1 (give_up kinds 3700 waiting 1).outbox
unfolding find
give_up-reset_example = give_up-reset 3700 1 waiting reset_row 1 waiting-IsValid refl refl refl

record_outcome-IsSettled_example :
    Gone 1 (record_outcome kinds 310 waiting 1 delivered 309).outbox
    × All (IsSettled 1 309) (record_outcome kinds 310 waiting 1 failed 309).outbox
record_outcome-IsSettled_example = record_outcome-IsSettled kinds 310 waiting 1 309

attempt_times-schedule_example :
    attempt_times 16 0 100 (deadline 100 90000)
    ≡ some (
        map
          (λ minutes. 100 + 60 * minutes)
          (0 ∷ 1 ∷ 6 ∷ 36 ∷ 156 ∷ 276 ∷ 396 ∷ 516 ∷ 636 ∷ 756 ∷ 876 ∷ 996 ∷ 1116 ∷ 1236 ∷ 1356
            ∷ []))
attempt_times-schedule_example = attempt_times-schedule 100 90000 (omega arith)
