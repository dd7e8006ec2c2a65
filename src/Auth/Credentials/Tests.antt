-- ===== src/Auth/Credentials/Tests.antt =====
-- The credential check of src/auth/credentials.rs on concrete accounts.
use kohaku.Base.{
  ℕ, ◌+◌, ◌-◌, ◌*◌, ◌≤◌, ◌≡◌, refl, true, false, Option, none, some, [], ◌∷◌, map, arith, replicate,
}
use kohaku.Base.Table.{find}
use kohaku.Base.Text.{Text, codes, text_eq, trim_matches, trim_start, to_upper}
use kohaku.Db.{Db, User, maintainer}
use kohaku.Auth.Crypto.{Crypto}
use kohaku.Auth.Lockout.{blocked}
use kohaku.Auth.Lockout.Guesses.{guesses, guesses-limit}
use kohaku.Auth.Recovery.{normalize, consume, consumed}
use kohaku.Auth.Totp.{is_code, matching_step}
use kohaku.Auth.Credentials.{
  Mailer, code_accepted, accept, count_failure, decide, decide_account, second_factor, finish,
  succeed, find_id,
}
use kohaku.Auth.Credentials.Accepted.{answer, code_accepted-once}
use kohaku.Auth.Credentials.Granted.{IsGranted, decide-IsGranted}
use kohaku.Auth.Credentials.Isolation.{
  without_lock, without_window, SameBesides, count_failure-isolated,
}

abbrev crypto : Crypto
crypto = record {
  hmac_sha1 = λ key message. replicate 20 0;
  hmac_sha256 = λ message. replicate 32 0;
  sha256 = λ s. s;
  verify_password = text_eq;
}

abbrev mailer : Mailer
mailer = record {
  valid = λ address. true;
  subject_rule = λ s. s;
  subject = λ now. codes "Your Kohaku account was locked";
  body = λ now. [];
}

-- Nine failures, no device cookie known yet.
abbrev alice : User
alice = record {
  id = 1;
  email = codes "a@example.org";
  password_hash = some (codes "hash");
  role = maintainer;
  disabled = false;
  totp_nonce = none;
  totp_last_step = none;
  failed_logins = 9;
  locked_until = none;
  device_failures = 0;
  device_window_start = none;
  lockout_mailed_at = none;
  created_at = 0;
}

abbrev code : Text
code = codes "ABCD-EFGH-ABCD-2345"

abbrev one_code : Db
one_code = record {
  users = alice ∷ [];
  sessions = [];
  known_devices = [];
  recovery_codes = record { user_id = 1; code_hash = codes "ABCDEFGHABCD2345" } ∷ [];
  tokens = [];
  tokens_seq = 0;
  outbox = [];
  outbox_seq = 0;
  audit_log = [];
  projects = [];
  projects_seq = 0;
}

abbrev no_code : Db
no_code = record one_code { recovery_codes = [] }

guesses-limit_example :
    guesses alice ((false, 10) ∷ (false, 11) ∷ (true, 12) ∷ (false, 911) ∷ []) * 90 ≤ 911 - 10 + 900
guesses-limit_example =
    guesses-limit alice 10 911 ((false, 10) ∷ (false, 11) ∷ (true, 12) ∷ (false, 911) ∷ [])
      (omega arith) (omega arith, (omega arith, (omega arith, (omega arith, omega arith))))

code_accepted-once_example : answer (code_accepted crypto no_code 1 [] code 40) ≡ some false
unfolding code_accepted accept is_code matching_step normalize consume consumed trim_matches
    trim_start to_upper
code_accepted-once_example =
    code_accepted-once crypto one_code no_code 1 [] code 10 40 refl (λ s s' e k. ground (arith, e))

count_failure-isolated_example :
    ((db' : Db) × (count_failure mailer one_code alice false 100 ≡ some db')
      × (map without_lock db'.users ≡ map without_lock one_code.users)
      × SameBesides one_code db')
    × ((db' : Db) × (count_failure mailer one_code alice true 100 ≡ some db')
        × (map without_window db'.users ≡ map without_window one_code.users)
        × SameBesides one_code db')
count_failure-isolated_example = count_failure-isolated mailer one_code alice 100

abbrev work : Db → User → ℕ → Option (Db × ℕ)
work db account now = some (db, account.id)

abbrev let_in : Db
let_in = record one_code { users = record alice { failed_logins = 0 } ∷ [] }

decide-IsGranted_example :
    (account : User) × (find_id one_code 1 ≡ some account)
    × IsGranted crypto mailer work one_code account (some (codes "hash")) false [] 5 let_in 1
unfolding decide decide_account second_factor finish succeed blocked find
decide-IsGranted_example =
    decide-IsGranted crypto mailer work one_code let_in 1 (some (codes "hash")) false [] 5 1 refl
