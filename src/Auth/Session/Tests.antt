-- ===== src/Auth/Session/Tests.antt =====
-- Sessions and devices of src/auth/session.rs on concrete rows.
use kohaku.Base.{◌≤◌, ◌≡◌, ◌≢◌, refl, false, none, some, [], ◌∷◌, count, ◌==◌}
use kohaku.Base.Table.{find}
use kohaku.Base.Text.{codes}
use kohaku.Db.{Db, User, Session, Device, maintainer}
use kohaku.Auth.Session.{SessionUser, session_user, current, end_all, add_device, is_known_device}
use kohaku.Auth.Session.Devices.{add_device-limit}
use kohaku.Auth.Session.Expiry.{IsCurrent, current-IsCurrent, end_all-ends}

abbrev bob : User
bob = record {
  id = 2;
  email = codes "b@example.org";
  password_hash = some (codes "hash");
  role = maintainer;
  disabled = false;
  totp_nonce = none;
  totp_last_step = none;
  failed_logins = 0;
  locked_until = none;
  device_failures = 0;
  device_window_start = none;
  lockout_mailed_at = none;
  created_at = 0;
}

abbrev session : Session
session = record {
  id = 1;
  token_hash = codes "t";
  user_id = 2;
  csrf_token = codes "c";
  created_at = 100;
  last_seen = 100;
  pending_totp_nonce = none;
}

abbrev device : Device
device = record { id = 7; user_id = 2; token_hash = codes "d"; created_at = 50 }

abbrev signed_in : Db
signed_in = record {
  users = bob ∷ [];
  sessions = session ∷ [];
  known_devices = device ∷ [];
  recovery_codes = [];
  tokens = [];
  tokens_seq = 0;
  outbox = [];
  outbox_seq = 0;
  audit_log = [];
  projects = [];
  projects_seq = 0;
}

current-IsCurrent_example : IsCurrent signed_in (codes "t") 500 (session_user session bob)
unfolding current find
current-IsCurrent_example =
    current-IsCurrent signed_in (codes "t") 500 (session_user session bob) refl

end_all-ends_example :
    ((su : SessionUser)
      → (current (end_all signed_in 2) (codes "t") 500).1 ≡ some su
      → su.user_id ≢ 2)
    × (is_known_device (end_all signed_in 2) 2 (codes "t") 500 ≡ false)
end_all-ends_example = end_all-ends signed_in 2 (codes "t") 500

add_device-limit_example :
    count (λ d. d.user_id == 2) (add_device signed_in 2 (codes "e") 600).known_devices ≤ 10
add_device-limit_example = add_device-limit signed_in 2 (codes "e") 600 (tt, tt)
