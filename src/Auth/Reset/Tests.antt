-- ===== src/Auth/Reset/Tests.antt =====
-- Reset links of src/admin/reset.rs on a concrete account.
use kohaku.Base.{◌≡◌, refl, Bool, true, false, none, some, [], ◌∷◌, count, keep, arith}
use kohaku.Base.Table.{find}
use kohaku.Base.Text.{codes}
use kohaku.Db.{
  Db, User, Session, Token, maintainer, reset, user, user_password_reset, user_target, security,
}
use kohaku.Mail.Enqueue.{enqueue, enqueue_to, queue}
use kohaku.Mail.Kind.{is_open_reset, password_changed}
use kohaku.Auth.Audit.{audit}
use kohaku.Auth.Session.{end_all}
use kohaku.Auth.Reset.{Post, use_open, has_enabled, issue_reset_token, set_password, submit}
use kohaku.Auth.Reset.Single.{is_other, issue_reset_token-single}
use kohaku.Auth.Reset.Effect.{submit-once}
use kohaku.Auth.Reset.Submitted.{IsSubmitted, submit-IsSubmitted}

abbrev carol : User
carol = record {
  id = 3;
  email = codes "c@example.org";
  password_hash = some (codes "old");
  role = maintainer;
  disabled = false;
  totp_nonce = none;
  totp_last_step = none;
  failed_logins = 0;
  locked_until = none;
  device_failures = 0;
  device_window_start = none;
  lockout_mailed_at = none;
  created_at = 0;
}

abbrev carol_session : Session
carol_session = record {
  id = 4;
  token_hash = codes "t";
  user_id = 3;
  csrf_token = codes "c";
  created_at = 100;
  last_seen = 100;
  pending_totp_nonce = some (codes "nonce");
}

abbrev token : Token
token = record {
  id = 1;
  purpose = reset;
  token_hash = codes "r";
  user_id = some 3;
  expires_at = 3700;
  used_at = none;
}

abbrev linked : Db
linked = record {
  users = carol ∷ [];
  sessions = carol_session ∷ [];
  known_devices = record { id = 1; user_id = 3; token_hash = codes "d"; created_at = 90 } ∷ [];
  recovery_codes = [];
  tokens = token ∷ [];
  tokens_seq = 1;
  outbox = [];
  outbox_seq = 0;
  audit_log = [];
  projects = [];
  projects_seq = 0;
}

abbrev post : Post
post = record {
  valid = λ address. true;
  subject_rule = λ s. s;
  link_body = λ now link. link;
  changed_body = λ now. codes "changed";
}

issue_reset_token-single_example :
    (count (is_open_reset 3) (issue_reset_token linked 3 (codes "s") 200).tokens ≡ 1)
    × (keep (is_other 3) (issue_reset_token linked 3 (codes "s") 200).tokens
        ≡ keep (is_other 3) linked.tokens)
issue_reset_token-single_example = issue_reset_token-single linked 3 (codes "s") 200

submit-IsSubmitted_example :
    (outcome : Db × Bool) × (submit post linked (codes "r") (codes "new") 300 ≡ some outcome)
    × IsSubmitted linked (codes "r") (codes "new") 300 outcome
submit-IsSubmitted_example = submit-IsSubmitted post linked (codes "r") (codes "new") 300 (tt, tt)

-- The state after the link was used.
abbrev renewed : Db
renewed = record linked {
  users = record carol { password_hash = some (codes "new") } ∷ [];
  sessions = [];
  known_devices = [];
  tokens = record token { used_at = some 300 } ∷ [];
  outbox =
      record {
        id = 1;
        kind = codes "account_password_changed";
        user_id = some 3;
        address = none;
        subject = codes "Your Kohaku password was changed";
        body = codes "changed";
        priority = security;
        token = false;
        placeholder = false;
        attempts = 0;
        next_attempt_at = 300;
        queued_at = 300;
        expires_at = 86700;
        outcome = none;
      }
      ∷ [];
  outbox_seq = 1;
  audit_log =
      record {
        actor = user 3 maintainer;
        action = user_password_reset;
        target = user_target 3;
        time = 300;
      }
      ∷ [];
}

submit-once_example : submit post renewed (codes "r") (codes "newer") 400 ≡ some (renewed, false)
unfolding submit find has_enabled set_password end_all use_open enqueue enqueue_to queue
    password_changed audit
submit-once_example =
    submit-once post linked renewed (codes "r") (codes "new") (codes "newer") 300 400 refl
      (omega arith)
