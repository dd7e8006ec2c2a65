-- ===== src/Auth/Session.antt =====
-- src/auth/session.rs: sessions and device cookies. The tokens and CSRF values that the random source
-- draws are arguments.
pub mod Devices
pub mod Expiry
pub mod Reader
pub mod Tests
use kohaku.Base.{
  ℕ, suc, ◌+◌, ◌-◌, ◌*◌, Bool, true, false, not, ◌&&◌, ◌||◌, Option, none, some, List, [], ◌∷◌,
  ◌++◌, any, keep, count, ltb, leb, ◌==◌, if◌then◌else◌, is_some,
}
use kohaku.Base.Table.{find, update, delete, max_id}
use kohaku.Base.Text.{Text, text_eq}
use kohaku.Db.{Db, User, Session, Device, Role}

abbrev pub idle_seconds : ℕ
idle_seconds = 12 * 60 * 60

abbrev pub absolute_seconds : ℕ
absolute_seconds = 7 * 24 * 60 * 60

abbrev pub touch_seconds : ℕ
touch_seconds = 5 * 60

abbrev pub device_seconds : ℕ
device_seconds = 365 * 24 * 60 * 60

abbrev pub devices_kept : ℕ
devices_kept = 10

pub record SessionUser : Type 0 where
  pub session_id : ℕ
  pub user_id : ℕ
  pub role : Role
  pub email : Text
  pub totp_enrolled : Bool
  pub csrf : Text

-- The conditions of the `SELECT` of `current` on a session and on its account.
abbrev pub is_live : Text → ℕ → Session → Bool
is_live hash now s =
    text_eq s.token_hash hash
    && (ltb now (s.last_seen + idle_seconds) && ltb now (s.created_at + absolute_seconds))

abbrev pub may_act : ℕ → User → Bool
may_act user_id u = u.id == user_id && (is_some u.password_hash && not u.disabled)

pub session_user : Session → User → SessionUser
session_user s u = record {
  session_id = s.id;
  user_id = s.user_id;
  role = u.role;
  email = u.email;
  totp_enrolled = is_some u.totp_nonce;
  csrf = s.csrf_token;
}

-- The write of a use, at most every five minutes.
touched : Db → Session → ℕ → Db
touched db s now =
    if leb (s.last_seen + touch_seconds) now
    then record db {
      sessions =
          update (λ (x : Session). x.id == s.id && ltb x.last_seen now)
            (λ x. record x { last_seen = now }) db.sessions;
    }
    else db

-- `current`, from the hash of the request's cookie; token hashes are unique, so the join has one row
-- at most.
unfoldable pub current : Db → Text → ℕ → Db × Option SessionUser
unfolding session_user touched
current db hash now = elim (find (is_live hash now) db.sessions) [
  | none ↦ (db, none)
  | some s ↦ elim (find (may_act s.user_id) db.users) [
    | none ↦ (db, none)
    | some u ↦ (touched db s now, some (session_user s u))
  ]
]

-- `create`, with the hash of the drawn token and the drawn CSRF value.
unfoldable pub create : Db → ℕ → Text → Text → ℕ → Db
create db user_id token_hash csrf now = record db {
  sessions =
      db.sessions
      ++ (record {
        id = suc (max_id (λ (s : Session). s.id) db.sessions);
        token_hash = token_hash;
        user_id = user_id;
        csrf_token = csrf;
        created_at = now;
        last_seen = now;
        pending_totp_nonce = none;
      }
          ∷ []);
}

-- `ORDER BY created_at DESC, id DESC`.
abbrev pub is_later : Device → Device → Bool
is_later a b = if a.created_at == b.created_at then ltb b.id a.id else ltb b.created_at a.created_at

-- The newest rows of the account, as many as the limit: those with fewer later ones.
abbrev pub is_kept : ℕ → List Device → Device → Bool
is_kept user_id rows d = ltb (count (λ x. x.user_id == user_id && is_later x d) rows) devices_kept

unfoldable pub evict : ℕ → List Device → List Device
evict user_id rows = delete (λ d. d.user_id == user_id && not (is_kept user_id rows d)) rows

-- `add_device`, with the hash of the drawn token.
unfoldable pub add_device : Db → ℕ → Text → ℕ → Db
unfolding evict
add_device db user_id token_hash now = record db {
  known_devices = evict user_id (
      db.known_devices
      ++ (record {
        id = suc (max_id (λ (d : Device). d.id) db.known_devices);
        user_id = user_id;
        token_hash = token_hash;
        created_at = now;
      }
          ∷ []));
}

unfoldable pub is_known_device : Db → ℕ → Text → ℕ → Bool
is_known_device db user_id hash now =
    any
      (λ d.
        d.user_id == user_id
        && (text_eq d.token_hash hash && ltb now (d.created_at + device_seconds)))
      db.known_devices

unfoldable pub end_all : Db → ℕ → Db
end_all db user_id = record db {
  sessions = delete (λ (s : Session). s.user_id == user_id) db.sessions;
  known_devices = delete (λ (d : Device). d.user_id == user_id) db.known_devices;
}
