-- ===== src/Auth/Account/Tests.antt =====
-- The account transactions of src/admin/account.rs on a concrete account.
use kohaku.Base.{
  All, ◌≤◌, true, ◌≡◌, false, none, some, List, [], ◌∷◌, length, count, keep, arith, replicate,
}
use kohaku.Base.Int.{ℤ}
use kohaku.Base.Text.{Text, codes, text_eq}
use kohaku.Db.{Db, User, Session, RecoveryCode, maintainer}
use kohaku.Auth.Crypto.{Crypto}
use kohaku.Auth.Totp.{derive, matching_step}
use kohaku.Auth.Recovery.{replace}
use kohaku.Auth.Recovery.Replaced.{different, hashes, AreDifferent, has_row, replace_lem}
use kohaku.Auth.Recovery.Rows.{is_own, is_foreign}
use kohaku.Auth.Account.{not_started, wrong_code, enrolled, pending, confirm_totp}
use kohaku.Auth.Account.Enrolled.{IsEnrolled, confirm_totp_lem}

abbrev carol : User
carol = record {
  id = 3;
  email = codes "c@example.org";
  password_hash = some (codes "old");
  role = maintainer;
  disabled = false;
  totp_nonce = none;
  totp_last_step = none;
  failed_logins = 0;
  locked_until = none;
  device_failures = 0;
  device_window_start = none;
  lockout_mailed_at = none;
  created_at = 0;
}

abbrev carol_session : Session
carol_session = record {
  id = 4;
  token_hash = codes "t";
  user_id = 3;
  csrf_token = codes "c";
  created_at = 100;
  last_seen = 100;
  pending_totp_nonce = some (codes "nonce");
}

abbrev enrolling : Db
enrolling = record {
  users = carol ∷ [];
  sessions = carol_session ∷ [];
  known_devices = record { id = 1; user_id = 3; token_hash = codes "d"; created_at = 90 } ∷ [];
  recovery_codes = [];
  tokens = [];
  tokens_seq = 1;
  outbox = [];
  outbox_seq = 0;
  audit_log = [];
  projects = [];
  projects_seq = 0;
}

abbrev crypto : Crypto
crypto = record {
  hmac_sha1 = λ key message. replicate 20 0;
  hmac_sha256 = λ message. replicate 32 0;
  sha256 = λ s. s;
  verify_password = text_eq;
}

-- The first code comes twice.
abbrev draws : List Text
draws =
    codes "A"
    ∷ codes "A"
    ∷ codes "B"
    ∷ codes "C"
    ∷ codes "D"
    ∷ codes "E"
    ∷ codes "F"
    ∷ codes "G"
    ∷ codes "H"
    ∷ codes "I"
    ∷ codes "J"
    ∷ []

enough_draws : 10 ≤ different [] (hashes crypto draws)
enough_draws = omega arith

replace_lem_example :
    (rows : List RecoveryCode) × (shown : List Text) × (replace crypto enrolling 3 draws
      ≡ some (record enrolling { recovery_codes = rows }, shown))
    × (length shown ≡ 10)
    × AreDifferent crypto shown
    × All (λ c. has_row crypto 3 rows c ≡ true) shown
    × (count (is_own 3) rows ≡ 10)
    × (keep (is_foreign 3) rows ≡ keep (is_foreign 3) enrolling.recovery_codes)
replace_lem_example = replace_lem crypto enrolling 3 draws enough_draws

confirm_totp_lem_example :
    (pending enrolling 4 ≡ none
      → confirm_totp crypto enrolling 4 3 maintainer (codes "000000") draws 120
        ≡ some (enrolling, not_started))
    × ((nonce : Text)
        → pending enrolling 4 ≡ some nonce
        → matching_step crypto (derive crypto 3 nonce) (codes "000000") 120 ≡ none
        → confirm_totp crypto enrolling 4 3 maintainer (codes "000000") draws 120
          ≡ some (enrolling, wrong_code nonce))
    × ((nonce : Text) (step : ℤ)
        → pending enrolling 4 ≡ some nonce
        → matching_step crypto (derive crypto 3 nonce) (codes "000000") 120 ≡ some step
        → (db' : Db) × (shown : List Text) × (confirm_totp crypto enrolling 4 3 maintainer
              (codes "000000")
              draws
              120
            ≡ some (db', enrolled shown))
          × IsEnrolled 4 3 nonce step db' shown)
confirm_totp_lem_example =
    confirm_totp_lem crypto enrolling 4 3 maintainer (codes "000000") draws 120 enough_draws
